-- ===== src/Policy.antt =====
-- runtime/runtime/mode_policy.py: what a worker may use in each mode.
pub mod Isolation
mod Tests
use swr_ddd.Common.{
  Bool, true, false, not, Option, none, some, List, [], ◌∷◌, Outcome, returned, raised, raise_if,
  NoneType, if◌then◌else◌,
}
use swr_ddd.Common.Text.{Text, codes, strip, is_empty, member}
use swr_ddd.Mode.{RuntimeMode, paper, live, backtest, is_backtest, GivenMode, typed, named, mode_of}

pub data Capability : Type 0 where
  wall_clock simulated_clock oms_egress manager_signal : Capability
  replay_ingress direct_historical_lookback : Capability

abbrev pub capability_eq : Capability → Capability → Bool
capability_eq wall_clock wall_clock = true
capability_eq simulated_clock simulated_clock = true
capability_eq oms_egress oms_egress = true
capability_eq manager_signal manager_signal = true
capability_eq replay_ingress replay_ingress = true
capability_eq direct_historical_lookback direct_historical_lookback = true
capability_eq _ _ = false

unfoldable pub has_capability : Capability → List Capability → Bool
has_capability k [] = false
has_capability k (c ∷ cs) = if capability_eq k c then true else has_capability k cs

-- `_MODE_CAPABILITIES`
unfoldable pub mode_capabilities : RuntimeMode → List Capability
mode_capabilities backtest = simulated_clock ∷ manager_signal ∷ replay_ingress ∷ oms_egress ∷ []
mode_capabilities _ = wall_clock ∷ oms_egress ∷ manager_signal ∷ direct_historical_lookback ∷ []

-- `_MODE_ALLOWED_DEPENDENCIES`
unfoldable pub mode_allowed_dependencies : RuntimeMode → List Text
mode_allowed_dependencies backtest =
    codes "strategy-runtime-manager"
    ∷ codes "backtest-service"
    ∷ codes "BACKTEST_ORDER_INTENT"
    ∷ codes "BACKTEST_REPLAY_CONTEXT"
    ∷ codes "RISK_ORDER_INTENT_EGRESS"
    ∷ []
mode_allowed_dependencies _ =
    codes "strategy-runtime-manager"
    ∷ codes "order-management-service"
    ∷ codes "market-data-service"
    ∷ codes "historical-data-service"
    ∷ codes "PAPER_LIVE_ORDER_INTENT"
    ∷ codes "RISK_ORDER_INTENT_EGRESS"
    ∷ codes "HISTORICAL_BOUNDED_WINDOW"
    ∷ []

-- `_MODE_BLOCKED_EVENTS`
unfoldable pub mode_blocked_events : RuntimeMode → List Text
mode_blocked_events m = codes "replay.chunk.direct.fetch" ∷ []

pub record ModePolicy : Type 0 where
  pub mode : RuntimeMode
  pub allowed : List Capability

pub data PolicyError : Type 0 where
  mode_not_supported : Text → PolicyError
  event_not_allowed_for_mode dependency_not_allowed_for_mode : RuntimeMode → Text → PolicyError
  capability_not_allowed_for_mode : RuntimeMode → Capability → PolicyError

unfoldable pub allow_event : ModePolicy → Text → Bool
allow_event p event_type =
    if is_empty (strip event_type)
    then false
    else not (member (strip event_type) (mode_blocked_events p.mode))

unfoldable pub allow_dependency : ModePolicy → Text → Bool
allow_dependency p dependency =
    if is_empty (strip dependency)
    then false
    else member (strip dependency) (mode_allowed_dependencies p.mode)

-- the value of the `ServiceTarget` that `_ORDER_INTENT_ROUTE` has for the mode
unfoldable pub route_order_intent : ModePolicy → Text
route_order_intent p = codes "risk-service"

unfoldable pub allow_historical_window : ModePolicy → Bool → Bool
allow_historical_window p explicitly_approved =
    if is_backtest p.mode then false else explicitly_approved

unfoldable pub require_event_allowed : ModePolicy → Text → Outcome PolicyError NoneType
require_event_allowed p event_type =
    raise_if (not (allow_event p event_type)) (event_not_allowed_for_mode p.mode event_type)

unfoldable pub require_dependency_allowed : ModePolicy → Text → Outcome PolicyError NoneType
require_dependency_allowed p dependency =
    raise_if (not (allow_dependency p dependency))
      (dependency_not_allowed_for_mode p.mode dependency)

abbrev pub policy_of : RuntimeMode → ModePolicy
policy_of m = record { mode = m; allowed = mode_capabilities m }

abbrev pub policy_found : Text → Option RuntimeMode → Outcome PolicyError ModePolicy
policy_found t none = raised (mode_not_supported t)
policy_found t (some m) = returned (policy_of m)

unfoldable pub get_mode_policy : GivenMode → Outcome PolicyError ModePolicy
get_mode_policy (typed m) = returned (policy_of m)
get_mode_policy (named t) = policy_found t (mode_of t)

unfoldable pub require_capability : ModePolicy → Capability → Outcome PolicyError NoneType
require_capability p k =
    raise_if (not (has_capability k p.allowed)) (capability_not_allowed_for_mode p.mode k)

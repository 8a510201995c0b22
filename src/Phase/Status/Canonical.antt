-- ===== src/Phase/Status/Canonical.antt =====
-- The canonical states and reasons that are reported for a runtime.
use swr_ddd.Common.{
  ℕ, Bool, true, false, Option, none, some, List, [], ◌∷◌, ◌==◌, if◌then◌else◌, Outcome, NoneType,
  returned, raised,
}

pub data CanonicalRuntimeState : Type 0 where
  draft queued starting running degraded stopping stopped failed pausing paused :
      CanonicalRuntimeState

pub data CanonicalRuntimeReason : Type 0 where
  launch_failed heartbeat_timeout stop_requested : CanonicalRuntimeReason

-- equality of enum members
abbrev reason_index : CanonicalRuntimeReason → ℕ
reason_index launch_failed = 0
reason_index heartbeat_timeout = 1
reason_index stop_requested = 2

-- `reason in reasons`
reason_in : CanonicalRuntimeReason → List CanonicalRuntimeReason → Bool
reason_in r [] = false
reason_in r (q ∷ qs) = if reason_index r == reason_index q then true else reason_in r qs

-- `VALID_STATE_REASONS.get(state)`
unfoldable pub valid_state_reasons : CanonicalRuntimeState → Option (List CanonicalRuntimeReason)
valid_state_reasons failed = some (launch_failed ∷ heartbeat_timeout ∷ [])
valid_state_reasons stopping = some (stop_requested ∷ [])
valid_state_reasons _ = none

-- what the three `ValueError`s of `validate_state_reason_pair` say
pub data PairError : Type 0 where
  reason_not_allowed : PairError
  reason_required : PairError

abbrev check_pair :
    Option (List CanonicalRuntimeReason)
    → Option CanonicalRuntimeReason
    → Outcome PairError NoneType
check_pair none none = returned tt
check_pair none (some reason) = raised reason_not_allowed
check_pair (some allowed) none = raised reason_required
check_pair (some allowed) (some reason) =
    if reason_in reason allowed then returned tt else raised reason_not_allowed

unfoldable pub validate_state_reason_pair :
    CanonicalRuntimeState → Option CanonicalRuntimeReason → Outcome PairError NoneType
unfolding valid_state_reasons reason_in
validate_state_reason_pair state reason = check_pair (valid_state_reasons state) reason

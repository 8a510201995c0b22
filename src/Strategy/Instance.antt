-- ===== src/Strategy/Instance.antt =====
-- `StrategyInstanceManager`, of adapters that are known by their identity.
use swr_ddd.Common.{
  ℕ, suc, Bool, true, false, ◌&&◌, Option, none, some, ◌==◌, Outcome, returned, raised,
  if◌then◌else◌,
}
use swr_ddd.Common.Text.{Text, text_eq}
use swr_ddd.Mode.{RuntimeMode, mode_value}
use swr_ddd.Strategy.Boundary.{StrategyExn}

pub record StrategyAssignmentKey : Type 0 where
  pub runtime_id : Text
  pub strategy_version_id : Text
  pub tenant_id : Text
  pub mode : RuntimeMode
  pub launch_attempt : ℕ
  pub validated_parameter_identity : Option Text
  pub trader_id : Option Text
  pub account_id : Option Text

abbrev option_eq : Option Text → Option Text → Bool
option_eq none none = true
option_eq (some s) (some t) = text_eq s t
option_eq _ _ = false

unfoldable pub assignment_eq : StrategyAssignmentKey → StrategyAssignmentKey → Bool
assignment_eq a b =
    (text_eq a.runtime_id b.runtime_id && text_eq a.strategy_version_id b.strategy_version_id)
    && ((text_eq a.tenant_id b.tenant_id && text_eq (mode_value a.mode) (mode_value b.mode))
        && (((a.launch_attempt == b.launch_attempt)
              && option_eq a.validated_parameter_identity b.validated_parameter_identity)
            && (option_eq a.trader_id b.trader_id && option_eq a.account_id b.account_id)))

pub record ActiveInstance : Type 0 where
  pub key : StrategyAssignmentKey
  pub adapter : ℕ

-- `_active`, and how many adapters the factory has made
pub record StrategyInstanceManager : Type 0 where
  pub active : Option ActiveInstance
  pub made : ℕ

pub data CreateError : Type 0 where
  assignment_conflict : CreateError
  factory_failed : StrategyExn → CreateError

-- `create`, with what the factory answers if it is called
unfoldable pub create :
    StrategyInstanceManager
    → StrategyAssignmentKey
    → Outcome StrategyExn ℕ
    → Outcome CreateError ℕ × StrategyInstanceManager
create m key factory = elim m.active [
  | some active ↦
      if assignment_eq active.key key
      then (returned active.adapter, m)
      else (raised assignment_conflict, m)
  | none ↦ elim factory [
    | returned adapter ↦ (
      returned adapter,
      record { active = some (record { key = key; adapter = adapter }); made = suc m.made },
    )
    | raised e ↦ (raised (factory_failed e), m)
  ]
]

unfoldable pub get_active : StrategyInstanceManager → Option ℕ
get_active m = elim m.active [ none ↦ none | some active ↦ some active.adapter ]

-- `clear`, with which `stop` ends however the adapter's `stop` ends
unfoldable pub clear : StrategyInstanceManager → StrategyInstanceManager
clear m = record m { active = none }

unfoldable pub stop_instance :
    {A : Type 0}
    → StrategyInstanceManager
    → Outcome StrategyExn A
    → Outcome StrategyExn A × StrategyInstanceManager
unfolding clear
stop_instance m answer = (answer, clear m)

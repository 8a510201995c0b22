-- ===== src/Phase/Status.antt =====
-- `RuntimeStatus` and its builders (runtime/domain/runtime_state.py).
mod Canonical
pub mod Consistent
unfoldable pub use Canonical.*
use swr_ddd.Common.{Option, none, some, Outcome, NoneType, returned, raised, ◌>>=◌, ◌>>◌}
use swr_ddd.Phase.{WorkerPhase, TransitionReason, validate_transition}

pub record RuntimeStatus : Type 0 where
  pub local_phase : WorkerPhase
  pub canonical_state : Option CanonicalRuntimeState
  pub reason_code : Option CanonicalRuntimeReason

-- what a builder of a status may raise
pub data StatusError : Type 0 where
  invalid_transition : TransitionReason → StatusError
  invalid_pair : PairError → StatusError
  reason_without_state : StatusError

-- an inner call whose exception passes through
abbrev pub lift {ℓ κ ν} :
    {E : Type ℓ} {F : Type κ} {A : Type ν} → (E → F) → Outcome E A → Outcome F A
lift f (returned a) = returned a
lift f (raised e) = raised (f e)

unfoldable pub with_local_phase : RuntimeStatus → WorkerPhase → Outcome StatusError RuntimeStatus
with_local_phase self phase = do
  lift invalid_transition (validate_transition self.local_phase phase)
  returned (record self { local_phase = phase })

unfoldable pub with_canonical_state :
    RuntimeStatus
    → CanonicalRuntimeState
    → Option CanonicalRuntimeReason
    → Outcome StatusError RuntimeStatus
with_canonical_state self state reason_code = do
  lift invalid_pair (validate_state_reason_pair state reason_code)
  returned (record self { canonical_state = some state; reason_code = reason_code })

-- the `if`/`elif` of `build_runtime_status`
check_built :
    Option CanonicalRuntimeState → Option CanonicalRuntimeReason → Outcome StatusError NoneType
check_built (some state) reason = lift invalid_pair (validate_state_reason_pair state reason)
check_built none (some reason) = raised reason_without_state
check_built none none = returned tt

unfoldable pub build_runtime_status :
    WorkerPhase
    → Option CanonicalRuntimeState
    → Option CanonicalRuntimeReason
    → Outcome StatusError RuntimeStatus
unfolding check_built
build_runtime_status local_phase canonical_state reason_code = do
  check_built canonical_state reason_code
  returned (record {
    local_phase = local_phase;
    canonical_state = canonical_state;
    reason_code = reason_code;
  })

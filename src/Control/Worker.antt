-- ===== src/Control/Worker.antt =====
-- `WorkerControlApplicationImpl`. The parts of a reply that are constants of the process, the
-- timestamp and the message are left out.
use swr_ddd.Common.{Bool, true, false, not, Option, none, some, ℤ, pos, negsuc, ◌==◌, if◌then◌else◌}
use swr_ddd.Common.Text.{Text, codes, text_eq}
use swr_ddd.Phase.{WorkerPhase}
use swr_ddd.Reason.{
  normalize, reason_value, controlled_shutdown_initiated, stop_requested, error_value,
  invalid_request_code,
}
use swr_ddd.Lifecycle.{
  Config, World, Exec, pure, gets, ◌>>=◌, ◌>>◌, stop, initiate_stop_from_request,
  record_manager_stop_request_checkpoint,
}

-- the fields of a `LaunchSpec` that identify a worker
pub record LaunchSpec : Type 0 where
  pub runtime_id : Text
  pub strategy_version_id : Text
  pub launch_attempt : ℤ

pub record Reply : Type 0 where
  pub accepted : Bool
  pub local_state : WorkerPhase
  pub reason_code : Text
  pub error_code : Option Text

abbrev pub int_eq : ℤ → ℤ → Bool
int_eq (pos m) (pos n) = m == n
int_eq (negsuc m) (negsuc n) = m == n
int_eq _ _ = false

-- the reply to a command that names another worker
abbrev pub rejection : WorkerPhase → Text → Reply
rejection phase reason = record {
  accepted = false;
  local_state = phase;
  reason_code = normalize reason;
  error_code = some (error_value invalid_request_code);
}

-- the reply to a command whose metadata is that of this worker
abbrev pub created_reply : WorkerPhase → Reply
created_reply phase = record {
  accepted = true;
  local_state = phase;
  reason_code = reason_value controlled_shutdown_initiated;
  error_code = none;
}

unfoldable pub create_worker : LaunchSpec → LaunchSpec → WorkerPhase → Reply
create_worker own spec phase =
    if not (text_eq spec.runtime_id own.runtime_id)
    then rejection phase (codes "runtime_id_mismatch")
    else if not (int_eq spec.launch_attempt own.launch_attempt)
    then rejection phase (codes "launch_attempt_mismatch")
    else if not (text_eq spec.strategy_version_id own.strategy_version_id)
    then rejection phase (codes "strategy_version_id_mismatch")
    else created_reply phase

-- the reply to a command that was carried out
abbrev pub stopped_reply : WorkerPhase → Reply
stopped_reply phase = record {
  accepted = true;
  local_state = phase;
  reason_code = reason_value stop_requested;
  error_code = none;
}

-- `StopWorkerCommand` has the `runtime_id` alone
unfoldable pub stop_worker : Config → World → LaunchSpec → Text → Exec Reply
stop_worker c w own runtime_id = do
  phase ← gets (λ s. s.phase)
  if not (text_eq runtime_id own.runtime_id)
      then pure (rejection phase (codes "identity_mismatch"))
      else do
        record_manager_stop_request_checkpoint c w
        initiate_stop_from_request c w (codes "STOP_REQUESTED")
        stop c w false (some (reason_value stop_requested)) none
        final ← gets (λ s. s.phase)
        pure (stopped_reply final)

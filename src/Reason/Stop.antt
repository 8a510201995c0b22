-- ===== src/Reason/Stop.antt =====
-- runtime/bootstrap/srm_env_status_report.py: the canonical reason of a stop request, and what is
-- reported to the runtime manager about a shutdown with that reason.
pub mod Report
use swr_ddd.Common.{
  Bool, true, false, ◌||◌, ◌&&◌, not, Option, none, some, List, [], ◌∷◌, ◌++◌, if◌then◌else◌,
}
use swr_ddd.Common.Text.{Text, codes, strip, lower, upper, is_empty, text_eq, member, starts_with}
use swr_ddd.Common.Dict.{Dict, get}
use swr_ddd.Reason.{normalize, runtime_worker_reason_codes, reason_value}

abbrev pub kubernetes_termination_reason : Text
kubernetes_termination_reason = codes "KUBERNETES_TERMINATION"

-- `SWR_KUBERNETES_TERMINATION` and `SWR_SHUTDOWN` of bootstrap/minimal_env_validation.py
abbrev pub swr_kubernetes_termination : Text
swr_kubernetes_termination = codes "SWR_KUBERNETES_TERMINATION"

abbrev pub swr_shutdown : Text
swr_shutdown = codes "SWR_SHUTDOWN"

-- `canonical_reason_from_stop_request`, after `text = str(reason or "").strip()`
canonical_of : Text → Text
canonical_of text =
    let candidate = normalize text in
    if is_empty text
    then normalize (codes "STOP_REQUESTED")
    else if member (upper text)
        (kubernetes_termination_reason ∷ swr_kubernetes_termination ∷ codes "SIGTERM" ∷ [])
    then kubernetes_termination_reason
    else if member (lower text) (codes "error_detected" ∷ codes "error" ∷ codes "failed" ∷ [])
    then normalize (codes "ERROR_DETECTED")
    else if text_eq (lower text) (codes "runtime_job_completed")
    then normalize (codes "RUNTIME_JOB_COMPLETED")
    else if text_eq candidate (codes "POLICY_VIOLATION")
        && not (member (upper text) runtime_worker_reason_codes)
    then normalize (codes "STOP_REQUESTED")
    else candidate

unfoldable pub canonical_reason_from_stop_request : Text → Text
unfolding canonical_of
canonical_reason_from_stop_request reason = canonical_of (strip reason)

-- `str(canonical_reason or SWR_SHUTDOWN).strip().upper()`, with the prefix unless it is there
add_prefix : Text → Text
unfolding starts_with
add_prefix raw = if starts_with raw (codes "SWR_") then raw else codes "SWR_" ++ raw

unfoldable pub shutdown_swr_reason_code : Text → Text
unfolding strip upper add_prefix
shutdown_swr_reason_code canonical_reason =
    add_prefix
      (upper (strip (if is_empty canonical_reason then swr_shutdown else canonical_reason)))

shutdown_messages : Dict Text
shutdown_messages =
    (codes "STOP_REQUESTED", codes "Worker shutdown requested.")
    ∷ (codes "MANUAL_STOP_REQUESTED", codes "Worker shutdown complete.")
    ∷ (codes "RUNTIME_JOB_COMPLETED", codes "Runtime job completed.")
    ∷ (codes "LOCAL_TERMINATION_OBSERVED", codes "Local termination observed.")
    ∷ (codes "ERROR_DETECTED", codes "Shutdown after runtime detected failure.")
    ∷ (codes "UNHEALTHY_EXECUTION_DETECTED", codes "Shutdown after unhealthy execution.")
    ∷ (codes "CONTROLLED_SHUTDOWN_INITIATED", codes "Controlled shutdown initiated.")
    ∷ (kubernetes_termination_reason, codes "Worker received Kubernetes SIGTERM.")
    ∷ []

abbrev message_or : Option Text → Text → Text
message_or none normalized = codes "Worker shutdown (" ++ (normalized ++ codes ").")
message_or (some m) normalized = m

unfoldable pub default_shutdown_message : Text → Text
unfolding strip upper shutdown_messages get
default_shutdown_message canonical_reason =
    let normalized = upper (strip canonical_reason) in
    message_or (get normalized shutdown_messages) normalized

-- `str(message or "")`
abbrev pub or_blank : Option Text → Text
or_blank none = []
or_blank (some m) = m

unfoldable pub resolve_shutdown_report : Text → Option Text → Text × Text
unfolding shutdown_swr_reason_code default_shutdown_message strip
resolve_shutdown_report canonical_reason message =
    let stripped = strip (or_blank message) in
    (
      shutdown_swr_reason_code canonical_reason,
      if is_empty stripped then default_shutdown_message canonical_reason else stripped,
    )

abbrev pub unhealthy_swr_reasons : List Text
unhealthy_swr_reasons = codes "SWR_ERROR_DETECTED" ∷ codes "SWR_UNHEALTHY_EXECUTION_DETECTED" ∷ []

pub data HealthStatus : Type 0 where
  healthy unhealthy unknown : HealthStatus

unfoldable pub shutdown_health_status : Text → HealthStatus
unfolding member
shutdown_health_status swr_reason_code =
    if member swr_reason_code unhealthy_swr_reasons then unhealthy else healthy

unfoldable pub is_failure_shutdown : Text → Bool
unfolding member shutdown_swr_reason_code
is_failure_shutdown canonical_reason =
    member canonical_reason (codes "UNHEALTHY_EXECUTION_DETECTED" ∷ [])
    || member (shutdown_swr_reason_code canonical_reason) unhealthy_swr_reasons

-- `_stopping_status_retryable`
unfoldable pub stopping_status_retryable : Text → Option Bool
unfolding text_eq
stopping_status_retryable canonical_reason =
    if text_eq canonical_reason kubernetes_termination_reason then some false else none

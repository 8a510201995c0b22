-- ===== src/Reason/ErrorCodes.antt =====
-- `WorkerErrorCode`: the members, their values, and the code that goes with a reason.
use swr_ddd.Common.Text.{Text, codes}
use swr_ddd.Reason.Codes.{
  RuntimeWorkerReasonCode, stop_requested, heartbeat_timeout_enforced, policy_violation,
  artifact_reference_invalid, artifact_digest_mismatch, entrypoint_import_failed,
  sdk_compatibility_failed, bootstrap_metadata_missing, bootstrap_metadata_inconsistent,
  mode_dependency_not_allowed, backtest_replay_direct_access_blocked, oms_bypass_blocked,
  bound_dependency_unavailable, initialization_timeout, controlled_shutdown_initiated,
  unhealthy_execution_detected, heartbeat_emission_failed, local_termination_observed,
  kubernetes_termination, strategy_startup_failed,
}

pub data WorkerErrorCode : Type 0 where
  invalid_request_code : WorkerErrorCode
  artifact_not_found_code : WorkerErrorCode
  artifact_digest_mismatch_code : WorkerErrorCode
  entrypoint_not_found_code : WorkerErrorCode
  sdk_contract_invalid_code : WorkerErrorCode
  mode_not_supported_code : WorkerErrorCode
  bootstrap_failed_code : WorkerErrorCode
  not_found_code : WorkerErrorCode
  already_stopped_code : WorkerErrorCode
  stop_timeout_code : WorkerErrorCode
  dependency_unhealthy_code : WorkerErrorCode
  runtime_completed_code : WorkerErrorCode
  runtime_failed_code : WorkerErrorCode
  internal_caller_not_allowed_code : WorkerErrorCode
  policy_violation_code : WorkerErrorCode
  internal_error_code : WorkerErrorCode

unfoldable pub error_value : WorkerErrorCode → Text
error_value invalid_request_code = codes "WORKER_INVALID_REQUEST"
error_value artifact_not_found_code = codes "WORKER_ARTIFACT_NOT_FOUND"
error_value artifact_digest_mismatch_code = codes "WORKER_ARTIFACT_DIGEST_MISMATCH"
error_value entrypoint_not_found_code = codes "WORKER_ENTRYPOINT_NOT_FOUND"
error_value sdk_contract_invalid_code = codes "WORKER_SDK_CONTRACT_INVALID"
error_value mode_not_supported_code = codes "WORKER_MODE_NOT_SUPPORTED"
error_value bootstrap_failed_code = codes "WORKER_BOOTSTRAP_FAILED"
error_value not_found_code = codes "WORKER_NOT_FOUND"
error_value already_stopped_code = codes "WORKER_ALREADY_STOPPED"
error_value stop_timeout_code = codes "WORKER_STOP_TIMEOUT"
error_value dependency_unhealthy_code = codes "WORKER_DEPENDENCY_UNHEALTHY"
error_value runtime_completed_code = codes "WORKER_RUNTIME_COMPLETED"
error_value runtime_failed_code = codes "WORKER_RUNTIME_FAILED"
error_value internal_caller_not_allowed_code = codes "WORKER_INTERNAL_CALLER_NOT_ALLOWED"
error_value policy_violation_code = codes "WORKER_POLICY_VIOLATION"
error_value internal_error_code = codes "WORKER_INTERNAL_ERROR"

-- `mapping.get(reason_enum, WorkerErrorCode.INTERNAL_ERROR)`
unfoldable pub error_for_reason : RuntimeWorkerReasonCode → WorkerErrorCode
error_for_reason stop_requested = already_stopped_code
error_for_reason heartbeat_timeout_enforced = dependency_unhealthy_code
error_for_reason policy_violation = policy_violation_code
error_for_reason artifact_reference_invalid = artifact_not_found_code
error_for_reason artifact_digest_mismatch = artifact_digest_mismatch_code
error_for_reason entrypoint_import_failed = entrypoint_not_found_code
error_for_reason sdk_compatibility_failed = sdk_contract_invalid_code
error_for_reason bootstrap_metadata_missing = bootstrap_failed_code
error_for_reason bootstrap_metadata_inconsistent = bootstrap_failed_code
error_for_reason mode_dependency_not_allowed = mode_not_supported_code
error_for_reason backtest_replay_direct_access_blocked = policy_violation_code
error_for_reason oms_bypass_blocked = policy_violation_code
error_for_reason bound_dependency_unavailable = dependency_unhealthy_code
error_for_reason initialization_timeout = bootstrap_failed_code
error_for_reason controlled_shutdown_initiated = runtime_failed_code
error_for_reason unhealthy_execution_detected = runtime_failed_code
error_for_reason heartbeat_emission_failed = dependency_unhealthy_code
error_for_reason local_termination_observed = runtime_completed_code
error_for_reason kubernetes_termination = internal_error_code
error_for_reason strategy_startup_failed = bootstrap_failed_code

-- ===== src/Reason/Codes.antt =====
-- `RuntimeWorkerReasonCode` and `WorkerErrorCode`: the members and their values.
use swr_ddd.Common.{List, [], ◌∷◌}
use swr_ddd.Common.Text.{Text, codes}
use swr_ddd.Common.Dict.{Dict}

pub data RuntimeWorkerReasonCode : Type 0 where
  stop_requested : RuntimeWorkerReasonCode
  heartbeat_timeout_enforced : RuntimeWorkerReasonCode
  policy_violation : RuntimeWorkerReasonCode
  artifact_reference_invalid : RuntimeWorkerReasonCode
  artifact_digest_mismatch : RuntimeWorkerReasonCode
  entrypoint_import_failed : RuntimeWorkerReasonCode
  sdk_compatibility_failed : RuntimeWorkerReasonCode
  bootstrap_metadata_missing : RuntimeWorkerReasonCode
  bootstrap_metadata_inconsistent : RuntimeWorkerReasonCode
  mode_dependency_not_allowed : RuntimeWorkerReasonCode
  backtest_replay_direct_access_blocked : RuntimeWorkerReasonCode
  oms_bypass_blocked : RuntimeWorkerReasonCode
  bound_dependency_unavailable : RuntimeWorkerReasonCode
  initialization_timeout : RuntimeWorkerReasonCode
  controlled_shutdown_initiated : RuntimeWorkerReasonCode
  unhealthy_execution_detected : RuntimeWorkerReasonCode
  heartbeat_emission_failed : RuntimeWorkerReasonCode
  local_termination_observed : RuntimeWorkerReasonCode
  kubernetes_termination : RuntimeWorkerReasonCode
  strategy_startup_failed : RuntimeWorkerReasonCode

-- `item.value`
unfoldable pub reason_value : RuntimeWorkerReasonCode → Text
reason_value stop_requested = codes "STOP_REQUESTED"
reason_value heartbeat_timeout_enforced = codes "HEARTBEAT_TIMEOUT_ENFORCED"
reason_value policy_violation = codes "POLICY_VIOLATION"
reason_value artifact_reference_invalid = codes "ARTIFACT_REFERENCE_INVALID"
reason_value artifact_digest_mismatch = codes "ARTIFACT_DIGEST_MISMATCH"
reason_value entrypoint_import_failed = codes "ENTRYPOINT_IMPORT_FAILED"
reason_value sdk_compatibility_failed = codes "SDK_COMPATIBILITY_FAILED"
reason_value bootstrap_metadata_missing = codes "BOOTSTRAP_METADATA_MISSING"
reason_value bootstrap_metadata_inconsistent = codes "BOOTSTRAP_METADATA_INCONSISTENT"
reason_value mode_dependency_not_allowed = codes "MODE_DEPENDENCY_NOT_ALLOWED"
reason_value backtest_replay_direct_access_blocked = codes "BACKTEST_REPLAY_DIRECT_ACCESS_BLOCKED"
reason_value oms_bypass_blocked = codes "OMS_BYPASS_BLOCKED"
reason_value bound_dependency_unavailable = codes "BOUND_DEPENDENCY_UNAVAILABLE"
reason_value initialization_timeout = codes "INITIALIZATION_TIMEOUT"
reason_value controlled_shutdown_initiated = codes "CONTROLLED_SHUTDOWN_INITIATED"
reason_value unhealthy_execution_detected = codes "UNHEALTHY_EXECUTION_DETECTED"
reason_value heartbeat_emission_failed = codes "HEARTBEAT_EMISSION_FAILED"
reason_value local_termination_observed = codes "LOCAL_TERMINATION_OBSERVED"
reason_value kubernetes_termination = codes "KUBERNETES_TERMINATION"
reason_value strategy_startup_failed = codes "STRATEGY_STARTUP_FAILED"

abbrev pub all_reason_codes : List RuntimeWorkerReasonCode
all_reason_codes =
    stop_requested ∷ heartbeat_timeout_enforced ∷ policy_violation ∷ artifact_reference_invalid
    ∷ artifact_digest_mismatch ∷ entrypoint_import_failed ∷ sdk_compatibility_failed
    ∷ bootstrap_metadata_missing ∷ bootstrap_metadata_inconsistent ∷ mode_dependency_not_allowed
    ∷ backtest_replay_direct_access_blocked ∷ oms_bypass_blocked ∷ bound_dependency_unavailable
    ∷ initialization_timeout ∷ controlled_shutdown_initiated ∷ unhealthy_execution_detected
    ∷ heartbeat_emission_failed ∷ local_termination_observed ∷ kubernetes_termination
    ∷ strategy_startup_failed ∷ []

-- `_LEGACY_RUNTIME_REASON_MAP`
unfoldable pub legacy_runtime_reason_map : Dict RuntimeWorkerReasonCode
legacy_runtime_reason_map =
    (codes "launch_spec_invalid", bootstrap_metadata_inconsistent)
    ∷ (codes "validation_runtime_error", bootstrap_metadata_inconsistent)
    ∷ (codes "bootstrap_start_failed", bootstrap_metadata_inconsistent)
    ∷ (codes "runtime_id_mismatch", bootstrap_metadata_inconsistent)
    ∷ (codes "launch_attempt_mismatch", bootstrap_metadata_inconsistent)
    ∷ (codes "strategy_version_id_mismatch", bootstrap_metadata_inconsistent)
    ∷ (codes "identity_mismatch", bootstrap_metadata_inconsistent)
    ∷ (codes "artifact_not_found", artifact_reference_invalid)
    ∷ (codes "artifact_access_denied", artifact_reference_invalid)
    ∷ (codes "artifact_fetch_failed", artifact_reference_invalid)
    ∷ (codes "artifact_materialization_failed", artifact_reference_invalid)
    ∷ (codes "artifact_provider_unsupported", artifact_reference_invalid)
    ∷ (codes "artifact_materialization_missing", artifact_reference_invalid)
    ∷ (codes "digest_unsupported", artifact_reference_invalid)
    ∷ (codes "expected_digest_missing", artifact_digest_mismatch)
    ∷ (codes "digest_mismatch", artifact_digest_mismatch)
    ∷ (codes "entrypoint_import_failed", entrypoint_import_failed)
    ∷ (codes "entrypoint_symbol_not_found", entrypoint_import_failed)
    ∷ (codes "entrypoint_symbol_invalid", entrypoint_import_failed)
    ∷ (codes "entrypoint_invalid", entrypoint_import_failed)
    ∷ (codes "sdk_protocol_mismatch", sdk_compatibility_failed)
    ∷ (codes "sdk_non_instantiable", sdk_compatibility_failed)
    ∷ (codes "sdk_invalid_signature", sdk_compatibility_failed)
    ∷ (codes "sdk_missing_required_method", sdk_compatibility_failed)
    ∷ (codes "sdk_marker_invalid", sdk_compatibility_failed)
    ∷ (codes "sdk_marker_incompatible", sdk_compatibility_failed)
    ∷ (codes "manual_stop_requested", stop_requested)
    ∷ (codes "stop_requested", stop_requested)
    ∷ (codes "kubernetes_termination", kubernetes_termination)
    ∷ (codes "sigterm", kubernetes_termination)
    ∷ (codes "runtime_job_completed", local_termination_observed)
    ∷ (codes "error_detected", unhealthy_execution_detected)
    ∷ (codes "grpc_emit_failed", bound_dependency_unavailable)
    ∷ (codes "unsupported_signal_type", bound_dependency_unavailable)
    ∷ (codes "submit_backtest_order_intent_failed", bound_dependency_unavailable)
    ∷ (codes "submit_backtest_order_intent_not_configured", bound_dependency_unavailable)
    ∷ (codes "noop_replay_client", bound_dependency_unavailable)
    ∷ (codes "no_oms_client_configured", bound_dependency_unavailable)
    ∷ (codes "heartbeat_lagging", unhealthy_execution_detected)
    ∷ (codes "strategy_bind_and_start_failed", strategy_startup_failed)
    ∷ (codes "strategy_callback_contract_violation", sdk_compatibility_failed)
    ∷ (codes "strategy_callback_unhandled_exception", unhealthy_execution_detected)
    ∷ (codes "strategy_cleanup_contract_violation", sdk_compatibility_failed)
    ∷ (codes "strategy_cleanup_unhandled_exception", unhealthy_execution_detected)
    ∷ []

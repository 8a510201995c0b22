-- ===== src/Lifecycle/Startup.antt =====
-- `start`, with the rollback of a failed start.
use swr_ddd.Common.{
  Bool, true, false, not, Option, none, some, if◌then◌else◌, Outcome, NoneType, returned, raised,
}
use swr_ddd.Common.Text.{Text, codes}
use swr_ddd.Phase.{ready, failed}
use swr_ddd.Reason.{normalize}
use swr_ddd.Lifecycle.State.{
  Config, World, Exec, Exn, Error, failed_call, launch_spec_mismatch, strategy_bind_failed,
  validate_launch_metadata, bind_observability_context, resolve_artifact_and_entrypoint,
  validate_sdk_contract, initialize_runtime_dependencies, initialize_strategy_instance_coordinator,
  emit_worker_bootstrap_ready_signal, emit_initial_srm_heartbeat, start_heartbeat_periodic_jobs,
  journal_launch_failed, validate, bind_log, run_bootstrap_pipeline, initialize_dependencies,
  create_strategy, bind_and_start_strategy, emit_bootstrap_succeeded, emit_bootstrap_failed,
  report_bootstrap_success, report_bootstrap_failure, start_periodic_jobs, pure, raise, gets,
  modify, when, attempt, call, ◌>>=◌, ◌>>◌,
}
use swr_ddd.Lifecycle.Phases.{set_phase, record_startup_step, emit_periodic_heartbeat}
use swr_ddd.Lifecycle.Shutdown.{reports_to_srm, stop_strategy_instance, close_clients}

abbrev reason_or_default : Option Text → Text
reason_or_default none = codes "bootstrap_start_failed"
reason_or_default (some r) = r

-- `getattr(exc, "reason_code", "bootstrap_start_failed")`
unfoldable pub error_reason : Error → Text
error_reason (failed_call e) = reason_or_default e.reason_code
error_reason strategy_bind_failed = codes "STRATEGY_BIND_AND_START_FAILED"
error_reason _ = codes "bootstrap_start_failed"

abbrev pub is_bootstrap_error : Error → Bool
is_bootstrap_error (failed_call e) = e.is_bootstrap_failure
is_bootstrap_error _ = false

module _ (c : Config) (w : World) where
  abbrev pub raise_some : Option Exn → Exec NoneType
  raise_some none = pure tt
  raise_some (some e) = raise (failed_call e)

  -- `_initialize_strategy_coordinator`
  unfoldable pub initialize_strategy_coordinator : Exec NoneType
  initialize_strategy_coordinator =
      if c.has_strategy_manager
      then (call w create_strategy >> modify (λ s. record s { has_adapter = true }))
      else modify (λ s. record s { has_adapter = false })

  unfoldable pub bind_strategy : Exec NoneType
  bind_strategy = do
    present ← gets (λ s. s.has_adapter)
    when present
        do call w bind_and_start_strategy; when (not w.bind_ok) (raise strategy_bind_failed)

  -- the `try` block of `start`, up to the phase READY
  unfoldable pub bring_up : Exec NoneType
  bring_up = do
    record_startup_step c w validate_launch_metadata
    call w validate
    when (not w.validated_matches) (raise launch_spec_mismatch)
    record_startup_step c w bind_observability_context
    call w bind_log
    modify (λ s. record s { has_logger = true })
    record_startup_step c w resolve_artifact_and_entrypoint
    call w run_bootstrap_pipeline
    raise_some w.bootstrap_failure
    record_startup_step c w validate_sdk_contract
    record_startup_step c w initialize_runtime_dependencies
    call w initialize_dependencies
    modify (λ s. record s { has_dependencies = true })
    record_startup_step c w initialize_strategy_instance_coordinator
    initialize_strategy_coordinator
    bind_strategy
    record_startup_step c w emit_worker_bootstrap_ready_signal
    known ← gets (λ s. s.has_dependencies)
    when known (call w (emit_bootstrap_succeeded ready))
    when (reports_to_srm c.settings) (attempt (call w report_bootstrap_success))

  -- the rest of the `try` block
  unfoldable pub go_live : Exec NoneType
  go_live = do
    set_phase c w ready none
    modify (λ s. record s { started = true; shutdown_complete = false })
    record_startup_step c w emit_initial_srm_heartbeat
    emit_periodic_heartbeat c w
    record_startup_step c w start_heartbeat_periodic_jobs
    when c.has_periodic_jobs (call w start_periodic_jobs)

  -- the dependencies that a rollback needs for its signal
  unfoldable pub dependencies_for_rollback : Exec NoneType
  dependencies_for_rollback = do
    known ← gets (λ s. s.has_dependencies)
    when (not known) (
        attempt
          do call w initialize_dependencies; modify (λ s. record s { has_dependencies = true }))

  unfoldable pub signal_failure : Error → Exec NoneType
  signal_failure error =
      if is_bootstrap_error error
      then when (reports_to_srm c.settings) (attempt (call w report_bootstrap_failure))
      else do
        known ← gets (λ s. s.has_dependencies)
        when known (attempt (call w (emit_bootstrap_failed (normalize (error_reason error)))))

  -- `_rollback_partial_startup`
  unfoldable pub rollback_partial_startup : Error → Exec NoneType
  rollback_partial_startup error = do
    when c.has_journal (call w (journal_launch_failed (normalize (error_reason error))))
    stop_strategy_instance c w
    close_clients c w
    dependencies_for_rollback
    signal_failure error
    modify (λ s. record s { started = false; shutdown_complete = false })

  -- the `except` block of `start`
  unfoldable pub fail_start : Error → Exec NoneType
  fail_start error = do
    set_phase c w failed (some (normalize (error_reason error)))
    rollback_partial_startup error
    raise error

  abbrev pub handle : Outcome Error NoneType → Exec NoneType
  handle (returned a) s = (returned a, s)
  handle (raised error) s = fail_start error s

  -- `try: m` with the `except Exception` of `start`
  unfoldable pub guarded : Exec NoneType → Exec NoneType
  guarded m s = let (r, s') = m s in handle r s'

  -- `start`
  unfoldable pub start : Exec NoneType
  start = do
    started ← gets (λ s. s.started)
    if started then pure tt else guarded (bring_up >> go_live)

-- ===== src/Lifecycle/Shutdown.antt =====
-- `initiate_stop_from_request` and `stop`, with the helpers that tear the worker down.
use swr_ddd.Common.{
  ℕ, ◌+◌, Bool, true, false, not, ◌&&◌, ◌||◌, Option, none, some, List, [], ◌∷◌, if◌then◌else◌,
  NoneType,
}
use swr_ddd.Common.Text.{Text, codes, strip, is_empty, text_eq}
use swr_ddd.Mode.{is_backtest}
use swr_ddd.Phase.{WorkerPhase, stopping, stopped, failed, completed, phase_eq}
use swr_ddd.Reason.{normalize}
use swr_ddd.Reason.Stop.{
  canonical_reason_from_stop_request, kubernetes_termination_reason, default_shutdown_message,
  resolve_shutdown_report,
}
use swr_ddd.Lifecycle.State.{
  Config, World, Service, Exec, Settings, FeedState, Feed, live_market_data, portfolio_update,
  historical_backtest, settings_missing, srm_url_missing, worker_already_stopped,
  stop_already_in_progress, stop_live_market_data_redis_feed, stop_portfolio_update_redis_feed,
  stop_historical_backtest_feed, stop_heartbeat_periodic_jobs, stop_accepting_new_work,
  stop_strategy_loop, flush_diagnostics, close_downstream_clients, emit_worker_shutdown_signal,
  stop_strategy, stop_periodic_jobs, stop_accepting_new_work_call, flush, close_client,
  emit_terminated, journal_manager_stop_request, report_stopping, report_final_shutdown,
  join_thread, pure, raise, gets, modify, when, attempt, call, ◌>>=◌, ◌>>◌,
}
use swr_ddd.Lifecycle.Phases.{set_phase, record_shutdown_step}

-- the stripped base URL of the runtime manager is not blank
abbrev pub has_srm_url : Settings → Bool
has_srm_url settings = not (is_empty (strip settings.strategy_runtime_manager_base_url))

-- the settings are there and name a runtime manager
abbrev pub reports_to_srm : Option Settings → Bool
reports_to_srm none = false
reports_to_srm (some settings) = has_srm_url settings

-- `canonical` and `resolved_message` of `initiate_stop_status_update`
abbrev pub stopping_message : Text → Option Text
stopping_message canonical =
    if text_eq canonical kubernetes_termination_reason
    then some (default_shutdown_message canonical)
    else none

abbrev pub resolved_stop_message : Text → Text
resolved_stop_message canonical = (resolve_shutdown_report canonical (stopping_message canonical)).1

abbrev pub or_else : Option Text → Option Text → Option Text
or_else none m = m
or_else (some t) m = some t

-- the reason and message that `stop` resolves, from the arguments and the attributes
unfoldable pub resolve_stop : Service → Option Text → Option Text → Text × Option Text
resolve_stop s code message = elim s.stop_canonical_reason [
  | some canonical ↦ (canonical, or_else message s.stop_resolved_message)
  | none ↦ elim code [
    | none ↦
        if phase_eq s.phase failed
        then (
          normalize (codes "ERROR_DETECTED"),
          or_else message (some (codes "Shutdown after runtime detected failure.")),
        )
        else (
          normalize (codes "MANUAL_STOP_REQUESTED"),
          or_else message (some (codes "Worker shutdown complete.")),
        )
    | some given ↦
        if text_eq given (codes "RUNTIME_JOB_COMPLETED")
        then (
          normalize (codes "RUNTIME_JOB_COMPLETED"),
          or_else message (some (codes "Runtime job completed.")),
        )
        else (normalize given, message)
  ]
]

abbrev pub job_completed : Option Text → Bool
job_completed none = false
job_completed (some given) = text_eq given (codes "RUNTIME_JOB_COMPLETED")

-- the phase that a stop ends in
abbrev pub final_phase : Config → Option Text → WorkerPhase
final_phase c code = if job_completed code && is_backtest c.mode then completed else stopped

module _ (c : Config) (w : World) where
  abbrev pub require_settings : Option Settings → Exec NoneType
  require_settings none = raise settings_missing
  require_settings (some settings) = if has_srm_url settings then pure tt else raise srm_url_missing

  -- `record_manager_stop_request_checkpoint`; a clock that cannot be read is recorded as `None`
  unfoldable pub record_manager_stop_request_checkpoint : Exec NoneType
  record_manager_stop_request_checkpoint = when c.has_journal (call w journal_manager_stop_request)

  -- the lock is held from the tests to the end
  unfoldable pub initiate_stop_from_request : Text → Exec Text
  initiate_stop_from_request reason = do
    require_settings c.settings
    complete ← gets (λ s. s.shutdown_complete)
    when complete (raise worker_already_stopped)
    accepted ← gets (λ s. s.stop_request_accepted)
    in_progress ← gets (λ s. s.shutdown_in_progress)
    when (accepted || in_progress) (raise stop_already_in_progress)
    let canonical = canonical_reason_from_stop_request reason
    call w (report_stopping canonical)
    modify (λ s. record s {
      stop_request_accepted = true;
      stop_canonical_reason = some canonical;
      stop_resolved_message = some (resolved_stop_message canonical);
      shutdown_in_progress = true;
    })
    pure canonical

  abbrev stop_event : FeedState → FeedState
  stop_event f = record f { stop_set = true }

  join_if_alive : Feed → FeedState → Exec NoneType
  join_if_alive feed f = when (f.has_thread && w.is_alive feed) (call w (join_thread feed))

  unfoldable pub stop_live_market_data_feed_worker : Exec NoneType
  unfolding join_if_alive
  stop_live_market_data_feed_worker = do
    modify (λ s. record s { live_feed = stop_event s.live_feed })
    feed ← gets (λ s. s.live_feed)
    join_if_alive live_market_data feed

  unfoldable pub stop_portfolio_update_feed_worker : Exec NoneType
  unfolding join_if_alive
  stop_portfolio_update_feed_worker = do
    modify (λ s. record s { portfolio_feed = stop_event s.portfolio_feed })
    feed ← gets (λ s. s.portfolio_feed)
    join_if_alive portfolio_update feed

  unfoldable pub stop_historical_backtest_feed_worker : Exec NoneType
  unfolding join_if_alive
  stop_historical_backtest_feed_worker = do
    modify (λ s. record s { historical_feed = stop_event s.historical_feed })
    feed ← gets (λ s. s.historical_feed)
    join_if_alive historical_backtest feed

  -- `_stop_strategy_loop`
  unfoldable pub stop_strategy_instance : Exec NoneType
  stop_strategy_instance = do
    present ← gets (λ s. s.has_adapter)
    when (c.has_strategy_manager && present)
        do call w stop_strategy; modify (λ s. record s { has_adapter = false })

  unfoldable pub close_from : ℕ → List Bool → Exec NoneType
  close_from i [] = pure tt
  close_from i (closes ∷ rest) = when closes (call w (close_client i)) >> close_from (i + 1) rest

  -- `_close_downstream_clients`
  unfoldable pub close_clients : Exec NoneType
  close_clients = close_from 0 c.closeables

  -- `_report_final_shutdown_to_srm`
  unfoldable pub report_final_shutdown_to_srm : Text → Option Text → Exec NoneType
  report_final_shutdown_to_srm reason message =
      when (reports_to_srm c.settings) (attempt (call w (report_final_shutdown reason message)))

  -- the first steps of `stop`, which take the ingress feeds down
  unfoldable pub stop_ingress : Exec NoneType
  stop_ingress = do
    modify (λ s. record s { shutdown_in_progress = true })
    record_shutdown_step c w stop_live_market_data_redis_feed
    stop_live_market_data_feed_worker
    record_shutdown_step c w stop_portfolio_update_redis_feed
    stop_portfolio_update_feed_worker
    record_shutdown_step c w stop_historical_backtest_feed
    stop_historical_backtest_feed_worker

  -- the next steps, which take the jobs, the strategy and the clients down
  unfoldable pub tear_down : Exec NoneType
  tear_down = do
    record_shutdown_step c w stop_heartbeat_periodic_jobs
    when c.has_periodic_jobs (call w stop_periodic_jobs)
    set_phase c w stopping none
    record_shutdown_step c w stop_accepting_new_work
    when c.has_work_acceptor (call w stop_accepting_new_work_call)
    record_shutdown_step c w stop_strategy_loop
    stop_strategy_instance
    record_shutdown_step c w flush_diagnostics
    when c.has_diagnostic_flusher (call w flush)
    record_shutdown_step c w close_downstream_clients
    close_clients

  -- the rest of `stop`: the signal, the final phase, the report and the flags
  unfoldable pub finish_stop : Bool → Option Text → Text → Option Text → Exec Bool
  finish_stop emit_termination_signal code reason message = do
    record_shutdown_step c w emit_worker_shutdown_signal
    known ← gets (λ s. s.has_dependencies)
    when (emit_termination_signal && known)
        (call w (emit_terminated (final_phase c code) reason message))
    set_phase c w (final_phase c code) none
    report_final_shutdown_to_srm reason message
    modify (λ s. record s { shutdown_complete = true; started = false })
    pure true

  -- `stop`; `suppress_stopping_phase_stdout` only concerns stdout
  unfoldable pub stop : Bool → Option Text → Option Text → Exec Bool
  stop emit_termination_signal code message = do
    complete ← gets (λ s. s.shutdown_complete)
    resolved ← gets (λ s. resolve_stop s code message)
    if complete then pure false else do
      stop_ingress
      tear_down
      finish_stop emit_termination_signal code resolved.0 resolved.1

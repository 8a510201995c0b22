-- ===== src/Lifecycle/State.antt =====
-- The attributes of `LifecycleService`, the calls that it makes on other objects, and its methods'
-- monad. Every such call goes on the trace and then returns or raises as the world says; what was
-- written before a raise stays written. Log records, domain events (with their counters) and
-- stdout are left out: nothing reads them back, and the model's prints do not fail.
use swr_ddd.Common.{
  ℕ, Bool, false, Option, none, some, List, [], ◌∷◌, ◌++◌, if◌then◌else◌, Outcome, NoneType,
  returned, raised,
}
use swr_ddd.Common.Text.{Text}
use swr_ddd.Mode.{RuntimeMode}
use swr_ddd.Phase.{WorkerPhase, initializing}

pub data StartupStep : Type 0 where
  validate_launch_metadata bind_observability_context resolve_artifact_and_entrypoint : StartupStep
  validate_sdk_contract initialize_runtime_dependencies : StartupStep
  initialize_strategy_instance_coordinator emit_worker_bootstrap_ready_signal : StartupStep
  emit_initial_srm_heartbeat start_heartbeat_periodic_jobs : StartupStep

pub data ShutdownStep : Type 0 where
  stop_live_market_data_redis_feed stop_portfolio_update_redis_feed : ShutdownStep
  stop_historical_backtest_feed stop_heartbeat_periodic_jobs stop_accepting_new_work : ShutdownStep
  stop_strategy_loop flush_diagnostics close_downstream_clients : ShutdownStep
  emit_worker_shutdown_signal : ShutdownStep

-- the three ingress threads
pub data Feed : Type 0 where
  live_market_data portfolio_update historical_backtest : Feed

pub record FeedState : Type 0 where
  pub feed_started : Bool
  pub stop_set : Bool
  pub has_thread : Bool

-- `SRM_STATUS_SOURCE_HEARTBEAT` and `SRM_STATUS_SOURCE_UPDATE`
pub data StatusSource : Type 0 where
  heartbeat update : StatusSource

-- the calls on the objects that the service was built with
pub data Call : Type 0 where
  journal_phase : Option WorkerPhase → WorkerPhase → Option Text → Call
  journal_startup_step on_startup_step : StartupStep → Call
  journal_shutdown_step on_shutdown_step : ShutdownStep → Call
  journal_launch_failed : Text → Call
  journal_manager_stop_request : Call
  validate bind_log run_bootstrap_pipeline initialize_dependencies : Call
  create_strategy bind_and_start_strategy stop_strategy : Call
  emit_bootstrap_succeeded : WorkerPhase → Call
  emit_bootstrap_failed : Text → Call
  emit_heartbeat : WorkerPhase → StatusSource → Option Text → Call
  emit_terminated : WorkerPhase → Text → Option Text → Call
  report_bootstrap_success report_bootstrap_failure : Call
  report_stopping : Text → Call
  report_final_shutdown : Text → Option Text → Call
  start_periodic_jobs stop_periodic_jobs stop_accepting_new_work_call flush : Call
  close_client : ℕ → Call
  start_thread join_thread : Feed → Call

pub record Exn : Type 0 where
  -- `getattr(exc, "reason_code", ...)`
  pub reason_code : Option Text
  -- `isinstance(exc, BootstrapFailure)`
  pub is_bootstrap_failure : Bool

pub data Error : Type 0 where
  failed_call : Exn → Error
  launch_spec_mismatch strategy_bind_failed : Error
  settings_missing srm_url_missing : Error
  worker_already_stopped stop_already_in_progress : Error

-- what the other objects answer
pub record World : Type 0 where
  pub answer : Call → Option Exn
  -- `validated == self._launch_spec`
  pub validated_matches : Bool
  -- the `failure` of the pipeline's result, if it is no success
  pub bootstrap_failure : Option Exn
  -- `bind_result.ok`
  pub bind_ok : Bool
  pub is_alive : Feed → Bool

-- the fields of the worker settings that the methods read
pub record Settings : Type 0 where
  pub strategy_runtime_manager_base_url : Text
  pub historical_data_grpc_target : Text
  pub portfolio_update_enabled : Bool
  pub portfolio_update_redis_url : Text
  pub market_data_redis_url : Text

pub record Config : Type 0 where
  pub mode : RuntimeMode
  pub job_id : Option Text
  pub settings : Option Settings
  pub has_journal : Bool
  pub has_on_step : Bool
  pub has_periodic_jobs : Bool
  pub has_work_acceptor : Bool
  pub has_diagnostic_flusher : Bool
  pub has_strategy_manager : Bool
  pub has_historical_client : Bool
  -- whether each closeable has a `close` or a `shutdown` to call
  pub closeables : List Bool
  -- the stream keys that the market data settings and the symbol resolve to, if there is a symbol
  pub live_stream_names : Option (List Text)

pub record Service : Type 0 where
  pub phase : WorkerPhase
  pub started : Bool
  pub shutdown_complete : Bool
  pub shutdown_in_progress : Bool
  pub stop_request_accepted : Bool
  pub stop_canonical_reason : Option Text
  pub stop_resolved_message : Option Text
  pub startup_steps : List StartupStep
  pub shutdown_steps : List ShutdownStep
  pub first_data_received : Bool
  pub backtest_replay_complete : Bool
  pub has_logger : Bool
  pub has_dependencies : Bool
  pub has_adapter : Bool
  pub live_feed : FeedState
  pub portfolio_feed : FeedState
  pub historical_feed : FeedState
  pub trace : List Call

abbrev idle_feed : FeedState
idle_feed = record { feed_started = false; stop_set = false; has_thread = false }

-- `__init__`, where the journal's first record is made
unfoldable pub new_service : Config → Service
new_service c = record {
  phase = initializing;
  started = false;
  shutdown_complete = false;
  shutdown_in_progress = false;
  stop_request_accepted = false;
  stop_canonical_reason = none;
  stop_resolved_message = none;
  startup_steps = [];
  shutdown_steps = [];
  first_data_received = false;
  backtest_replay_complete = false;
  has_logger = false;
  has_dependencies = false;
  has_adapter = false;
  live_feed = idle_feed;
  portfolio_feed = idle_feed;
  historical_feed = idle_feed;
  trace = if c.has_journal then journal_phase none initializing none ∷ [] else [];
}

abbrev pub Exec : Type 0 → Type 0
Exec A = Service → Outcome Error A × Service

module _ {A : Type 0} where
  unfoldable pub pure : A → Exec A
  pure a s = (returned a, s)

  unfoldable pub raise : Error → Exec A
  raise e s = (raised e, s)

  unfoldable pub gets : (Service → A) → Exec A
  gets f s = (returned (f s), s)

unfoldable pub modify : (Service → Service) → Exec NoneType
modify f s = (returned tt, f s)

-- `if condition: m`
unfoldable pub when : Bool → Exec NoneType → Exec NoneType
unfolding pure
when b m = if b then m else pure tt

infixl 5 ◌>>=◌ ◌>>◌
abbrev pub continue : {A B : Type 0} → Outcome Error A → (A → Exec B) → Exec B
continue (returned a) f s = f a s
continue (raised e) f s = (raised e, s)

unfoldable pub ◌>>=◌ : {A B : Type 0} → Exec A → (A → Exec B) → Exec B
unfolding pure raise gets modify when
◌>>=◌ m f s = let (r, s') = m s in continue r f s'

abbrev pub ◌>>◌ : {A B : Type 0} → Exec A → Exec B → Exec B
m >> k = m >>= λ _. k

-- `try: m` with `except Exception: pass`
abbrev pub forget : Outcome Error NoneType → Outcome Error NoneType
forget (returned a) = returned a
forget (raised e) = returned tt

unfoldable pub attempt : Exec NoneType → Exec NoneType
attempt m s = let (r, s') = m s in (forget r, s')

abbrev outcome_of : Option Exn → Outcome Error NoneType
outcome_of none = returned tt
outcome_of (some e) = raised (failed_call e)

-- a call on another object
unfoldable pub call : World → Call → Exec NoneType
call w k s = (outcome_of (w.answer k), record s { trace = s.trace ++ (k ∷ []) })

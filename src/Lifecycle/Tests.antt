-- ===== src/Lifecycle/Tests.antt =====
-- The theorems on the lifecycle at a paper worker whose every call succeeds.
use swr_ddd.Common.{
  ◌≡◌, refl, Bool, true, false, Option, none, some, [], ◌∷◌, ◌++◌, returned, raised, did_return,
}
use swr_ddd.Common.Text.{Text, codes, strip}
use swr_ddd.Mode.{paper}
use swr_ddd.Phase.{failed}
use swr_ddd.Reason.Stop.{canonical_reason_from_stop_request}
use swr_ddd.Lifecycle.{
  Config, World, Service, Settings, new_service, start, stop, run, initiate_stop_from_request,
  stop_already_in_progress, resolve_stop, emit_periodic_heartbeat,
  should_stop_for_completed_backtest_job, emit_worker_shutdown_signal,
}
use swr_ddd.Lifecycle.Logic.{OnReturn}
use swr_ddd.Lifecycle.Total.{IsCalm}
use swr_ddd.Lifecycle.Stopped.{IsClosing, IsOver, stop_ends, stop_is_final}
use swr_ddd.Lifecycle.Returning.{stop_returns}
use swr_ddd.Lifecycle.Started.{IsReady, Ends, start-Ends}
use swr_ddd.Lifecycle.Checks.{passes, start_exactly}
use swr_ddd.Lifecycle.Feeds.{FollowsMode, run_follows_mode}
use swr_ddd.Lifecycle.Requested.{
  takes_stop, requested, Refused, accepted_request_decides, request-Refused,
}
use swr_ddd.Lifecycle.Steps.Shutdown.{ingress_steps, tear_down_steps, stop_steps}
use swr_ddd.Lifecycle.Steps.Startup.{bring_up_steps, go_live_steps, start_steps}

abbrev paper_settings : Settings
paper_settings = record {
  strategy_runtime_manager_base_url = codes "http://srm";
  historical_data_grpc_target = codes "";
  portfolio_update_enabled = false;
  portfolio_update_redis_url = codes "";
  market_data_redis_url = codes "";
}

abbrev paper_config : Config
paper_config = record {
  mode = paper;
  job_id = none;
  settings = some paper_settings;
  has_journal = true;
  has_on_step = false;
  has_periodic_jobs = true;
  has_work_acceptor = true;
  has_diagnostic_flusher = false;
  has_strategy_manager = true;
  has_historical_client = false;
  closeables = true ∷ [];
  live_stream_names = none;
}

abbrev calm_world : World
calm_world = record {
  answer = λ k. none;
  validated_matches = true;
  bootstrap_failure = none;
  bind_ok = true;
  is_alive = λ f. true;
}

IsCalm-IsCalm : IsCalm calm_world
IsCalm-IsCalm k = refl

abbrev fresh : Service
fresh = new_service paper_config

fresh_not_complete : fresh.shutdown_complete ≡ false
unfolding new_service
fresh_not_complete = refl

fresh_not_started : fresh.started ≡ false
unfolding new_service
fresh_not_started = refl

stop_ends_example :
    OnReturn
      (λ t. IsClosing t × IsOver paper_config none t)
      (stop paper_config calm_world true none none fresh)
stop_ends_example = stop_ends paper_config calm_world true none none fresh fresh_not_complete

stop_is_final_example :
    OnReturn
      (λ t.
        (v : World) (again : Bool) (code' message' : Option Text)
        → stop paper_config v again code' message' t ≡ (returned false, t)
          × (emit_periodic_heartbeat paper_config v t ≡ (returned tt, t)
              × should_stop_for_completed_backtest_job paper_config t ≡ false))
      (stop paper_config calm_world true none none fresh)
stop_is_final_example =
    stop_is_final paper_config calm_world true none none fresh fresh_not_complete

stop_returns_example : (stop paper_config calm_world true none none fresh).0 ≡ returned true
stop_returns_example =
    stop_returns paper_config calm_world IsCalm-IsCalm true none none fresh fresh_not_complete

stop_steps_example :
    OnReturn
      (λ t.
        t.shutdown_steps
        ≡ fresh.shutdown_steps
          ++ (ingress_steps ++ (tear_down_steps ++ (emit_worker_shutdown_signal ∷ []))))
      (stop paper_config calm_world true none none fresh)
stop_steps_example = stop_steps paper_config calm_world true none none fresh fresh_not_complete

start-Ends_example : Ends IsReady (λ t. t.phase ≡ failed) (start paper_config calm_world fresh)
start-Ends_example = start-Ends paper_config calm_world fresh fresh_not_started

start_exactly_example :
    did_return (start paper_config calm_world fresh).0 ≡ passes paper_config calm_world
start_exactly_example = start_exactly paper_config calm_world IsCalm-IsCalm fresh fresh_not_started

start_steps_example :
    OnReturn
      (λ t. t.startup_steps ≡ fresh.startup_steps ++ (bring_up_steps ++ go_live_steps))
      (start paper_config calm_world fresh)
start_steps_example = start_steps paper_config calm_world fresh fresh_not_started

fresh_takes : takes_stop paper_config calm_world (codes "operator") fresh ≡ true
unfolding new_service strip
fresh_takes = refl

abbrev asked : Service
asked = requested paper_config calm_world (codes "operator") fresh

accepted_example :
    initiate_stop_from_request paper_config calm_world (codes "operator") fresh
      ≡ (returned (canonical_reason_from_stop_request (codes "operator")), asked)
    × (initiate_stop_from_request paper_config calm_world (codes "again") asked
          ≡ (raised stop_already_in_progress, asked)
        × (resolve_stop asked none none).0 ≡ canonical_reason_from_stop_request (codes "operator"))
accepted_example =
    accepted_request_decides paper_config calm_world (codes "operator") fresh fresh_takes calm_world
      (codes "again") none none

asked_refuses : takes_stop paper_config calm_world (codes "again") asked ≡ false
unfolding new_service strip
asked_refuses = refl

Refused-example :
    did_return (initiate_stop_from_request paper_config calm_world (codes "again") asked).0 ≡ false
    × Refused paper_config calm_world
        (codes "again")
        asked
        (initiate_stop_from_request paper_config calm_world (codes "again") asked).1
Refused-example = request-Refused paper_config calm_world (codes "again") asked asked_refuses

fresh_follows : FollowsMode paper_config fresh
unfolding new_service
fresh_follows = (refl, (refl, refl))

run_follows_mode_example : FollowsMode paper_config (run paper_config calm_world fresh).1
run_follows_mode_example = run_follows_mode paper_config calm_world fresh fresh_follows

-- ===== src/Control/Tests.antt =====
-- The theorems on the ways to stop a worker, at concrete commands.
use swr_ddd.Common.{◌≡◌, refl, ◌≤◌, ◌&&◌, true, false, none, some, List, [], ◌∷◌, pos, returned}
use swr_ddd.Common.Text.{codes, text_eq, strip}
use swr_ddd.Mode.{live}
use swr_ddd.Phase.{stopped, running}
use swr_ddd.Reason.Canonical.{IsCanonical}
use swr_ddd.Lifecycle.{Config, World, new_service}
use swr_ddd.Lifecycle.Total.{IsCalm}
use swr_ddd.Lifecycle.Requested.{takes_stop}
use swr_ddd.Control.{
  LaunchSpec, create_worker, stop_worker, stopped_reply, int_eq, new_coordinator, request_http_stop,
}
use swr_ddd.Control.Stops.{create_worker_exactly, stop_worker_stops}
use swr_ddd.Control.Shutdowns.{run_threads, http_stop_stops}
use swr_ddd.Control.Single.{
  Event, http_stop, sigterm, shutdown_runs, all_happen, one_shutdown_thread,
}

abbrev live_config : Config
live_config = record {
  mode = live;
  job_id = none;
  settings = some (record {
    strategy_runtime_manager_base_url = codes "http://srm";
    historical_data_grpc_target = codes "";
    portfolio_update_enabled = false;
    portfolio_update_redis_url = codes "";
    market_data_redis_url = codes "";
  });
  has_journal = true;
  has_on_step = false;
  has_periodic_jobs = false;
  has_work_acceptor = false;
  has_diagnostic_flusher = false;
  has_strategy_manager = true;
  has_historical_client = false;
  closeables = [];
  live_stream_names = none;
}

abbrev quiet_world : World
quiet_world = record {
  answer = λ k. none;
  validated_matches = true;
  bootstrap_failure = none;
  bind_ok = true;
  is_alive = λ f. true;
}

quiet-IsCalm : IsCalm quiet_world
quiet-IsCalm k = refl

abbrev own_spec : LaunchSpec
own_spec = record {
  runtime_id = codes "rt-1";
  strategy_version_id = codes "sv-1";
  launch_attempt = pos 2;
}

abbrev older_spec : LaunchSpec
older_spec = record own_spec { launch_attempt = pos 1 }

create_example :
    ((create_worker own_spec older_spec running).accepted ≡ (
      text_eq older_spec.runtime_id own_spec.runtime_id
      && (int_eq older_spec.launch_attempt own_spec.launch_attempt
          && text_eq older_spec.strategy_version_id own_spec.strategy_version_id)))
    × IsCanonical (create_worker own_spec older_spec running).reason_code
create_example = create_worker_exactly own_spec older_spec running

takes_command :
    takes_stop live_config quiet_world (codes "STOP_REQUESTED") (new_service live_config) ≡ true
unfolding new_service strip
takes_command = refl

stop_worker_example :
    (stop_worker live_config quiet_world own_spec (codes "rt-1") (new_service live_config)).0
    ≡ returned (stopped_reply stopped)
stop_worker_example =
    stop_worker_stops live_config quiet_world quiet-IsCalm own_spec (new_service live_config)
      takes_command

abbrev both_ways : List Event
both_ways =
    http_stop quiet_world (codes "operator")
    ∷ sigterm quiet_world
    ∷ shutdown_runs quiet_world
    ∷ sigterm quiet_world
    ∷ []

one_thread_example :
    (all_happen live_config both_ways (new_coordinator (new_service live_config))).threads ≤ 1
one_thread_example = one_shutdown_thread live_config (new_service live_config) both_ways

takes_operator :
    takes_stop live_config quiet_world
      (codes "operator")
      (new_coordinator (new_service live_config)).service
    ≡ true
unfolding new_service new_coordinator strip
takes_operator = refl

http_stop_example :
    ((request_http_stop live_config quiet_world
        (codes "operator")
        (new_coordinator (new_service live_config))).1.threads
      ≡ 1)
    × ((run_threads live_config quiet_world
          (request_http_stop live_config quiet_world
            (codes "operator")
            (new_coordinator (new_service live_config))).1.threads
          (request_http_stop live_config quiet_world
            (codes "operator")
            (new_coordinator (new_service live_config))).1).service.phase
        ≡ stopped)
unfolding new_coordinator
http_stop_example =
    http_stop_stops live_config quiet_world quiet-IsCalm (codes "operator")
      (new_coordinator (new_service live_config)) refl refl takes_operator

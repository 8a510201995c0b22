-- ===== src/Control/Cooperative.antt =====
-- `CooperativeShutdownCoordinator` and the SIGTERM handler, over the service they share. A thread
-- that is started is counted; what it runs is `run_shutdown`, a step of its own.
use swr_ddd.Common.{ℕ, ◌+◌, Bool, true, false, Outcome, returned, raised, none, if◌then◌else◌}
use swr_ddd.Common.Text.{Text}
use swr_ddd.Reason.Stop.{kubernetes_termination_reason}
use swr_ddd.Lifecycle.{
  Config, World, Service, Error, worker_already_stopped, initiate_stop_from_request, stop,
}

pub record Coordinator : Type 0 where
  pub service : Service
  pub shutdown_thread_started : Bool
  -- the threads that run `_run_shutdown`
  pub threads : ℕ
  -- `handler_invoked` of the SIGTERM handler
  pub handler_invoked : Bool

unfoldable pub new_coordinator : Service → Coordinator
new_coordinator s = record {
  service = s;
  shutdown_thread_started = false;
  threads = 0;
  handler_invoked = false;
}

-- `_ensure_shutdown_thread`
unfoldable pub ensure_shutdown_thread : Coordinator → Coordinator
ensure_shutdown_thread k =
    if k.shutdown_thread_started
    then k
    else record k { shutdown_thread_started = true; threads = k.threads + 1 }

abbrev pub after_http :
    Coordinator → Outcome Error Text × Service → Outcome Error Text × Coordinator
after_http k (returned body, s) = (returned body, ensure_shutdown_thread (record k { service = s }))
after_http k (raised e, s) = (raised e, record k { service = s })

abbrev pub after_sigterm : Coordinator → Outcome Error Text × Service → Coordinator
after_sigterm k (raised worker_already_stopped, s) = record k { service = s }
after_sigterm k (_, s) = ensure_shutdown_thread (record k { service = s })

module _ (c : Config) (w : World) where
  unfoldable pub request_http_stop : Text → Coordinator → Outcome Error Text × Coordinator
  request_http_stop reason k = after_http k (initiate_stop_from_request c w reason k.service)

  unfoldable pub request_sigterm_shutdown : Coordinator → Coordinator
  request_sigterm_shutdown k =
      after_sigterm k (initiate_stop_from_request c w kubernetes_termination_reason k.service)

  -- `_on_sigterm` of `install_sigterm_handler`
  unfoldable pub on_sigterm : Coordinator → Coordinator
  on_sigterm k =
      if k.handler_invoked
      then k
      else request_sigterm_shutdown (record k { handler_invoked = true })

  -- `_run_shutdown`, whose exceptions are only logged
  unfoldable pub run_shutdown : Coordinator → Coordinator
  run_shutdown k = record k { service = (stop c w false none none k.service).1 }

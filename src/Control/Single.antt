-- ===== src/Control/Single.antt =====
-- At most one shutdown thread is ever started.
use swr_ddd.Common.{
  ◌≡◌, ◌≤◌, refl, true, Outcome, returned, raised, if◌then◌else◌, Bool-cases, inl, inr, arith, List,
  [], ◌∷◌,
}
use swr_ddd.Common.Text.{Text}
use swr_ddd.Lifecycle.{
  Config, World, Service, Error, worker_already_stopped, initiate_stop_from_request, failed_call,
  launch_spec_mismatch, strategy_bind_failed, settings_missing, srm_url_missing,
  stop_already_in_progress,
}
use swr_ddd.Reason.Stop.{kubernetes_termination_reason}
use swr_ddd.Control.{
  Coordinator, new_coordinator, ensure_shutdown_thread, request_http_stop, on_sigterm,
  request_sigterm_shutdown, run_shutdown, after_http, after_sigterm,
}

-- what happens to a coordinator: requests over HTTP, signals, and the end of a shutdown thread,
-- each with what the other objects answer then
pub data Event : Type 0 where
  http_stop : World → Text → Event
  sigterm shutdown_runs : World → Event

abbrev pub happens : Config → Event → Coordinator → Coordinator
happens c (http_stop w reason) k = (request_http_stop c w reason k).1
happens c (sigterm w) k = on_sigterm c w k
happens c (shutdown_runs w) k = run_shutdown c w k

abbrev pub all_happen : Config → List Event → Coordinator → Coordinator
all_happen c [] k = k
all_happen c (e ∷ es) k = all_happen c es (happens c e k)

-- one thread once the flag is up, none before
abbrev pub IsCounted : Coordinator → Type 0
IsCounted k = k.threads ≡ (if k.shutdown_thread_started then 1 else 0)

ensure_counts : (k : Coordinator) → IsCounted k → IsCounted (ensure_shutdown_thread k)
unfolding ensure_shutdown_thread
ensure_counts k h = ground arith

after_http_counts :
    (k : Coordinator) (r : Outcome Error Text) (s : Service)
    → IsCounted k
    → IsCounted (after_http k (r, s)).1
after_http_counts k (returned body) s h = ensure_counts (record k { service = s }) h
after_http_counts k (raised e) s h = h

after_sigterm_counts :
    (k : Coordinator) (r : Outcome Error Text) (s : Service)
    → IsCounted k
    → IsCounted (after_sigterm k (r, s))
after_sigterm_counts k (returned body) s h = ensure_counts (record k { service = s }) h
after_sigterm_counts k (raised worker_already_stopped) s h = h
after_sigterm_counts k (raised (failed_call e)) s h = ensure_counts (record k { service = s }) h
after_sigterm_counts k (raised launch_spec_mismatch) s h =
    ensure_counts (record k { service = s }) h
after_sigterm_counts k (raised strategy_bind_failed) s h =
    ensure_counts (record k { service = s }) h
after_sigterm_counts k (raised settings_missing) s h = ensure_counts (record k { service = s }) h
after_sigterm_counts k (raised srm_url_missing) s h = ensure_counts (record k { service = s }) h
after_sigterm_counts k (raised stop_already_in_progress) s h =
    ensure_counts (record k { service = s }) h

sigterm_counts :
    (c : Config) (w : World) (k : Coordinator) → IsCounted k → IsCounted (on_sigterm c w k)
unfolding on_sigterm request_sigterm_shutdown
sigterm_counts c w k h = elim (Bool-cases k.handler_invoked) [
  | inl again ↦ rw again h
  | inr first ↦ rw first (
      after_sigterm_counts (record k { handler_invoked = true })
        (initiate_stop_from_request c w kubernetes_termination_reason k.service).0
        (initiate_stop_from_request c w kubernetes_termination_reason k.service).1 h)
]

happens_counts :
    (c : Config) (e : Event) (k : Coordinator) → IsCounted k → IsCounted (happens c e k)
unfolding request_http_stop run_shutdown
happens_counts c (http_stop w reason) k h =
    after_http_counts k (initiate_stop_from_request c w reason k.service).0
      (initiate_stop_from_request c w reason k.service).1 h
happens_counts c (sigterm w) k h = sigterm_counts c w k h
happens_counts c (shutdown_runs w) k h = h

all_happen_counts :
    (c : Config) (es : List Event) (k : Coordinator) → IsCounted k → IsCounted (all_happen c es k)
all_happen_counts c [] k h = h
all_happen_counts c (e ∷ es) k h = all_happen_counts c es (happens c e k) (happens_counts c e k h)

-- Whatever requests to stop and signals arrive, and in whatever order, at most one shutdown thread
-- is started.
pub one_shutdown_thread :
    (c : Config) (s : Service) (es : List Event) → (all_happen c es (new_coordinator s)).threads ≤ 1
unfolding new_coordinator
one_shutdown_thread c s es =
    let counted = all_happen_counts c es (new_coordinator s) refl in ground arith

-- ===== src/Control/Stops.antt =====
-- What the manager's commands do to the worker.
use swr_ddd.Common.{
  ◌≡◌, refl, Bool, true, false, ◌&&◌, none, some, if◌then◌else◌, Outcome, returned, raised, arith,
  List, [], ◌∷◌, ◌++◌,
}
use swr_ddd.Common.Text.{Text, codes, text_eq, text_eq_refl}
use swr_ddd.Phase.{WorkerPhase, stopped}
use swr_ddd.Reason.{
  normalize, reason_value, stop_requested, controlled_shutdown_initiated, text, policy_violation,
}
use swr_ddd.Reason.Canonical.{IsCanonical, normalize-IsCanonical}
use swr_ddd.Lifecycle.{
  Config, World, Service, Call, Error, continue, pure, gets, ◌>>=◌, ◌>>◌, stop,
  initiate_stop_from_request, journal_manager_stop_request, when, call,
  record_manager_stop_request_checkpoint,
}
use swr_ddd.Lifecycle.Logic.{OnReturn}
use swr_ddd.Lifecycle.Requested.{takes_stop, accepts, requested}
use swr_ddd.Lifecycle.Stopped.{stop_ends, IsOver, IsClosing}
use swr_ddd.Lifecycle.Returning.{stop_returns}
use swr_ddd.Lifecycle.Total.{IsCalm}
use swr_ddd.Control.{
  LaunchSpec, Reply, create_worker, stop_worker, stopped_reply, created_reply, rejection, int_eq,
}

record IsReasoned (r : Reply) : Type 0 where
  canonical : IsCanonical r.reason_code

if_IsReasoned :
    (b : Bool) (p q : Reply) → IsReasoned p → IsReasoned q → IsReasoned (if b then p else q)
if_IsReasoned true p q hp hq = hp
if_IsReasoned false p q hp hq = hq

rejection-IsReasoned : (phase : WorkerPhase) (reason : Text) → IsReasoned (rejection phase reason)
unfolding normalize
rejection-IsReasoned phase reason = record {
  canonical = normalize-IsCanonical (text reason) policy_violation;
}

created-IsReasoned : (phase : WorkerPhase) → IsReasoned (created_reply phase)
created-IsReasoned phase = record { canonical = (controlled_shutdown_initiated, refl) }

create_worker-IsReasoned :
    (own spec : LaunchSpec) (phase : WorkerPhase) → IsReasoned (create_worker own spec phase)
unfolding create_worker
create_worker-IsReasoned own spec phase =
    search (if_IsReasoned, rejection-IsReasoned, created-IsReasoned) depth 10

-- A command to create a worker is accepted exactly when the runtime id, the attempt and the
-- strategy version are those of this worker, and is answered with a canonical reason code.
pub create_worker_exactly :
    (own spec : LaunchSpec) (phase : WorkerPhase)
    → ((create_worker own spec phase).accepted ≡ (
        text_eq spec.runtime_id own.runtime_id
        && (int_eq spec.launch_attempt own.launch_attempt
            && text_eq spec.strategy_version_id own.strategy_version_id)))
      × IsCanonical (create_worker own spec phase).reason_code
unfolding create_worker
create_worker_exactly own spec phase =
    (ground arith, (create_worker-IsReasoned own spec phase).canonical)

module _ (c : Config) (w : World) (calm : IsCalm w) where
  tail_replies :
      (r : Outcome Error Bool) (t : Service)
      → r ≡ returned true
      → OnReturn (λ u. IsClosing u × IsOver c (some (reason_value stop_requested)) u) (r, t)
      → ((continue r (λ _. gets (λ u. u.phase) >>= λ final. pure (stopped_reply final))) t).0
        ≡ returned (stopped_reply stopped)
  unfolding ◌>>=◌ reason_value text_eq
  tail_replies (returned b) t h o = rw (o.1.0) refl
  tail_replies (raised e) t h o = cc

  not_complete :
      (s : Service) → takes_stop c w (codes "STOP_REQUESTED") s ≡ true → s.shutdown_complete ≡ false
  not_complete s h = ground arith

  body_replies :
      (s : Service)
      → takes_stop c w (codes "STOP_REQUESTED") s ≡ true
      → ((initiate_stop_from_request c w (codes "STOP_REQUESTED")
            >> (stop c w false (some (reason_value stop_requested)) none
                >> (gets (λ u. u.phase) >>= λ final. pure (stopped_reply final))))
          s).0
        ≡ returned (stopped_reply stopped)
  unfolding ◌>>=◌
  body_replies s h =
      let t = requested c w (codes "STOP_REQUESTED") s in
      let code = some (reason_value stop_requested) in
      rw (accepts c w (codes "STOP_REQUESTED") s h) (
        tail_replies (stop c w false code none t).0 (stop c w false code none t).1
          (stop_returns c w calm false code none t (not_complete s h))
          (stop_ends c w false code none t (not_complete s h)))

  journaled :
      (b : Bool) (s : Service)
      → (t : List Call) × (when b (call w journal_manager_stop_request) s
          ≡ (returned tt, record s { trace = t }))
  unfolding when call pure
  journaled true s =
      (s.trace ++ (journal_manager_stop_request ∷ []), rw (calm journal_manager_stop_request) refl)
  journaled false s = (s.trace, refl)

  -- When no call raises and the worker takes a stop, a command to stop that names this worker is
  -- carried out to the end: the reply says that it was accepted, that the worker is STOPPED and
  -- that the reason is STOP_REQUESTED.
  pub stop_worker_stops :
      (own : LaunchSpec) (s : Service)
      → takes_stop c w (codes "STOP_REQUESTED") s ≡ true
      → (stop_worker c w own own.runtime_id s).0 ≡ returned (stopped_reply stopped)
  unfolding stop_worker ◌>>=◌ record_manager_stop_request_checkpoint
  stop_worker_stops own s h =
      let (t, wrote) = journaled c.has_journal s in
      rw (text_eq_refl own.runtime_id, wrote) (body_replies (record s { trace = t }) h)

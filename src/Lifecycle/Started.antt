-- ===== src/Lifecycle/Started.antt =====
-- What `start` has done when it ends, and that it returns when nothing fails.
use swr_ddd.Common.{
  ◌≡◌, refl, true, false, none, some, List, [], ◌∷◌, ◌++◌, NoneType, Outcome, returned, raised,
  did_return,
}
use swr_ddd.Phase.{WorkerPhase, failed, ready}
use swr_ddd.Reason.{normalize}
use swr_ddd.Lifecycle.{
  Config, World, Service, Exec, Error, StartupStep, modify, record_startup_step,
  emit_periodic_heartbeat, emit_srm_runtime_status, bring_up, go_live, guarded, handle, fail_start,
  start, rollback_partial_startup, dependencies_for_rollback, signal_failure,
  stop_strategy_instance, close_clients, error_reason, ◌>>=◌, ◌>>◌,
}
use swr_ddd.Lifecycle.Logic.{
  Keeps, Ensures, Leaves, keeps_rules, Ensures-here, Ensures-later, Ensures-both, Ensures-Leaves,
  Ensures-modify, Leaves-here, Keeps-modify, IsQuiet, Keeps-call, OnReturn, otherwise,
}
use swr_ddd.Lifecycle.Total.{Raises, Raises-later, Raises-raise}
use swr_ddd.Lifecycle.Keeping.{set_phase-Leaves, close_from_keeps}

-- READY and marked as started
abbrev pub IsReady : Service → Type 0
IsReady s = s.phase ≡ ready × (s.started ≡ true × s.shutdown_complete ≡ false)

-- `R` where the method returned, `F` where it raised
abbrev pub Ends :
    {A : Type 0} → (Service → Type 0) → (Service → Type 0) → Outcome Error A × Service → Type 0
Ends R F (returned a, s) = R s
Ends R F (raised e, s) = F s

module _ {P : Service → Type 0} (q : IsQuiet P) (c : Config) (w : World) where
  pub startup_step_keeps :
      ((s : Service) (t : List StartupStep) → P s → P (record s { startup_steps = t }))
      → (k : StartupStep) → Keeps P (record_startup_step c w k)
  unfolding record_startup_step
  startup_step_keeps kept k =
      let called = Keeps-call q w in
      let recorded =
        Keeps-modify (λ s. record s { startup_steps = s.startup_steps ++ (k ∷ []) })
          (λ s h. kept s _ h) in
      search (keeps_rules) depth 8

  pub heartbeat_keeps : Keeps P (emit_periodic_heartbeat c w)
  unfolding emit_periodic_heartbeat emit_srm_runtime_status
  heartbeat_keeps = let called = Keeps-call q w in search (keeps_rules) depth 12

module _ (c : Config) (w : World) where
  go_live-IsReady : Ensures IsReady (go_live c w)
  unfolding go_live
  go_live-IsReady =
      let q : IsQuiet (λ s. s.phase ≡ ready) = search depth 6 in
      let f : IsQuiet (λ s. s.started ≡ true × s.shutdown_complete ≡ false) = search depth 6 in
      let moved = Ensures-Leaves _ (set_phase-Leaves q c w ready none (λ s. refl)) in
      let flagged : Ensures (λ s. s.started ≡ true × s.shutdown_complete ≡ false)
          (modify (λ s. record s { started = true; shutdown_complete = false })) =
        Ensures-modify _ (λ s. (refl, refl)) in
      let step = startup_step_keeps q c w (λ s t h. h) in
      let beat = heartbeat_keeps q c w in
      let called = Keeps-call q w in
      let step' = startup_step_keeps f c w (λ s t h. h) in
      let beat' = heartbeat_keeps f c w in
      let called' = Keeps-call f w in
      Ensures-both _ _ _ (search (Ensures-here, keeps_rules) depth 20)
        (Ensures-later _ _ λ _. search (Ensures-here, keeps_rules) depth 20)

  rollback_keeps :
      (error : Error) (p : WorkerPhase)
      → Keeps (λ s. s.phase ≡ p) (rollback_partial_startup c w error)
  unfolding rollback_partial_startup dependencies_for_rollback signal_failure stop_strategy_instance
      close_clients
  rollback_keeps error p =
      let q : IsQuiet (λ s. s.phase ≡ p) = search depth 6 in
      let called = Keeps-call q w in
      let closed = close_from_keeps q c w in search (keeps_rules) depth 30

  fail_start_failed : (error : Error) → Leaves (λ s. s.phase ≡ failed) (fail_start c w error)
  unfolding fail_start
  fail_start_failed error =
      let q : IsQuiet (λ s. s.phase ≡ failed) = search depth 6 in
      let moved =
        set_phase-Leaves q c w failed (some (normalize (error_reason error))) (λ s. refl) in
      search (Leaves-here, keeps_rules, rollback_keeps) depth 10

  start-IsReady : Ensures IsReady (bring_up c w >> go_live c w)
  start-IsReady = Ensures-later _ _ (λ _. go_live-IsReady)

  pub fail_start-Raises : (error : Error) → Raises (fail_start c w error)
  unfolding fail_start
  fail_start-Raises error = Raises-later _ _ (λ _. Raises-later _ _ (λ _. Raises-raise _))

  raised-Ends :
      (r : Outcome Error NoneType) (s : Service)
      → did_return r ≡ false
      → s.phase ≡ failed
      → Ends IsReady (λ t. t.phase ≡ failed) (r, s)
  raised-Ends (returned a) s h p = cc
  raised-Ends (raised e) s h p = p

  handled-Ends :
      (r : Outcome Error NoneType) (s : Service)
      → OnReturn IsReady (r, s)
      → Ends IsReady (λ t. t.phase ≡ failed) (handle c w r s)
  handled-Ends (returned a) s h = h
  handled-Ends (raised e) s h =
      raised-Ends (fail_start c w e s).0 (fail_start c w e s).1 ((fail_start-Raises e).at s)
        ((fail_start_failed e).at s)

  guarded-Ends :
      (m : Exec NoneType)
      → Ensures IsReady m
      → (s : Service) → Ends IsReady (λ t. t.phase ≡ failed) (guarded c w m s)
  unfolding guarded
  guarded-Ends m e s = handled-Ends (m s).0 (m s).1 (e.at s)

  -- `start` of a worker that is not started either returns with the worker READY and marked as
  -- started, or raises with the worker FAILED.
  pub start-Ends :
      (s : Service) → s.started ≡ false → Ends IsReady (λ t. t.phase ≡ failed) (start c w s)
  unfolding start ◌>>=◌
  start-Ends s h =
      otherwise (Ends IsReady (λ t. t.phase ≡ failed)) s.started _ _ s h
        (guarded-Ends (bring_up c w >> go_live c w) start-IsReady s)

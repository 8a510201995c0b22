-- ===== src/Lifecycle/Steps/Startup.antt =====
-- The order of the nine steps of `start`.
use swr_ddd.Common.{
  ◌≡◌, refl, false, Option, none, some, List, [], ◌∷◌, ◌++◌, NoneType, Outcome, returned, raised,
  did_return,
}
use swr_ddd.Phase.{WorkerPhase}
use swr_ddd.Lifecycle.State.{
  Config, World, Service, Exec, Call, Error, Exn, StartupStep, validate_launch_metadata,
  bind_observability_context, resolve_artifact_and_entrypoint, validate_sdk_contract,
  initialize_runtime_dependencies, initialize_strategy_instance_coordinator,
  emit_worker_bootstrap_ready_signal, emit_initial_srm_heartbeat, start_heartbeat_periodic_jobs,
  modify, call, ◌>>=◌, ◌>>◌,
}
use swr_ddd.Lifecycle.{
  record_startup_step, start, bring_up, go_live, guarded, handle, fail_start, raise_some,
  initialize_strategy_coordinator, bind_strategy, set_phase, emit_periodic_heartbeat,
}
use swr_ddd.Lifecycle.Logic.{Keeps, keeps_rules, IsQuiet, Keeps-call, OnReturn, otherwise}
use swr_ddd.Lifecycle.Keeping.{set_phase_keeps}
use swr_ddd.Lifecycle.Started.{heartbeat_keeps, fail_start-Raises}
use swr_ddd.Lifecycle.Steps.{Appends, Appends-nothing, Appends-bind, Appends-step, Appends-later}

-- the steps of a start, in the order in which it records them
abbrev pub bring_up_steps : List StartupStep
bring_up_steps =
    validate_launch_metadata ∷ bind_observability_context ∷ resolve_artifact_and_entrypoint
    ∷ validate_sdk_contract ∷ initialize_runtime_dependencies
    ∷ initialize_strategy_instance_coordinator ∷ emit_worker_bootstrap_ready_signal ∷ []

abbrev pub go_live_steps : List StartupStep
go_live_steps = emit_initial_srm_heartbeat ∷ start_heartbeat_periodic_jobs ∷ []

module _ (c : Config) (w : World) where
  steps_quiet : (ks : List StartupStep) → IsQuiet (λ s. s.startup_steps ≡ ks)
  steps_quiet ks = record { trace = λ s t h. h }

  called_silent : (ks : List StartupStep) (k : Call) → Keeps (λ s. s.startup_steps ≡ ks) (call w k)
  called_silent ks k = Keeps-call (steps_quiet ks) w k

  step-Appends :
      (k : StartupStep) → Appends (λ s. s.startup_steps) (k ∷ []) (record_startup_step c w k)
  unfolding record_startup_step modify
  step-Appends k =
      Appends-bind _ (k ∷ []) [] _ _ (record { at = λ s. refl })
        (λ _. Appends-nothing _ _ (λ ks. search (keeps_rules, called_silent) depth 8))

  phase_silent :
      (ks : List StartupStep) (p : WorkerPhase)
      → Keeps (λ s. s.startup_steps ≡ ks) (set_phase c w p none)
  phase_silent ks p = set_phase_keeps (steps_quiet ks) c w p none (λ s h. h)

  beat_silent :
      (ks : List StartupStep) → Keeps (λ s. s.startup_steps ≡ ks) (emit_periodic_heartbeat c w)
  beat_silent ks = heartbeat_keeps (steps_quiet ks) c w

  raise_some_silent :
      (ks : List StartupStep) (o : Option Exn)
      → Keeps (λ s. s.startup_steps ≡ ks) (raise_some c w o)
  raise_some_silent ks none = search keeps_rules
  raise_some_silent ks (some e) = search keeps_rules

  bring_up-Appends : Appends (λ s. s.startup_steps) bring_up_steps (bring_up c w)
  unfolding bring_up initialize_strategy_coordinator bind_strategy
  bring_up-Appends =
      search
        (
          Appends-later, Appends-step, Appends-nothing, step-Appends, keeps_rules, called_silent,
          raise_some_silent,
        )
        depth 60

  go_live-Appends : Appends (λ s. s.startup_steps) go_live_steps (go_live c w)
  unfolding go_live
  go_live-Appends =
      search
        (
          Appends-later, Appends-step, Appends-nothing, step-Appends, keeps_rules, called_silent,
          phase_silent, beat_silent,
        )
        depth 40

  body-Appends :
      Appends (λ s. s.startup_steps) (bring_up_steps ++ go_live_steps) (bring_up c w >> go_live c w)
  body-Appends = Appends-bind _ _ _ _ _ bring_up-Appends (λ _. go_live-Appends)

  failed_appends :
      (P : Service → Type 0) (r : Outcome Error NoneType) (s : Service)
      → did_return r ≡ false
      → OnReturn P (r, s)
  failed_appends P (returned a) s h = cc
  failed_appends P (raised e) s h = tt

  handled_appends :
      (P : Service → Type 0) (r : Outcome Error NoneType) (s : Service)
      → OnReturn P (r, s)
      → OnReturn P (handle c w r s)
  handled_appends P (returned a) s h = h
  handled_appends P (raised e) s h =
      failed_appends P (fail_start c w e s).0 (fail_start c w e s).1
        ((fail_start-Raises c w e).at s)

  guarded_appends :
      (P : Service → Type 0) (m : Exec NoneType) (s : Service)
      → OnReturn P (m s)
      → OnReturn P (guarded c w m s)
  unfolding guarded
  guarded_appends P m s h = handled_appends P (m s).0 (m s).1 h

  -- A `start` that returns, of a worker that is not started, has recorded its nine steps, once each
  -- and in their order.
  pub start_steps :
      (s : Service)
      → s.started ≡ false
      → OnReturn
          (λ t. t.startup_steps ≡ s.startup_steps ++ (bring_up_steps ++ go_live_steps))
          (start c w s)
  unfolding start ◌>>=◌
  start_steps s h =
      otherwise
        (OnReturn (λ t. t.startup_steps ≡ s.startup_steps ++ (bring_up_steps ++ go_live_steps)))
        s.started _ _ s h (guarded_appends _ (bring_up c w >> go_live c w) s (body-Appends.at s))

-- ===== src/Phase/Tests.antt =====
-- The theorems on phases and statuses at concrete phases.
use swr_ddd.Common.{
  ◌≡◌, refl, ◌≢◌, ◌⊎◌, ◌↔◌, true, false, none, List, [], ◌∷◌, ◌++◌, returned, raised,
}
use swr_ddd.Phase.{
  WorkerPhase, ready, running, degraded, stopped, can_transition, validate_transition,
  self_transition_not_allowed, terminal_phase_resurrection_not_allowed, is_terminal_phase,
}
use swr_ddd.Phase.Transitions.{◌⟶◌, validate_transition-⟶}
use swr_ddd.Phase.Runs.{moves, end_of, terminal_or_stoppable}
use swr_ddd.Phase.Status as S
use swr_ddd.Phase.Status.Consistent.{Derives, IsConsistent, Derives-IsConsistent, built}

validate_transition_example :
    ((validate_transition ready running ≡ returned tt) ↔ (ready ⟶ running))
    × ((validate_transition ready running ≡ raised self_transition_not_allowed) ↔ (ready ≡ running))
    × ((validate_transition ready running ≡ raised terminal_phase_resurrection_not_allowed)
        ↔ ((ready ≢ running) × ((r : WorkerPhase) → ¬ (ready ⟶ r))))
validate_transition_example = validate_transition-⟶ ready running

abbrev to_the_end : List WorkerPhase
to_the_end = running ∷ degraded ∷ running ∷ []

stoppable_example :
    ((is_terminal_phase (end_of ready to_the_end) ≡ true)
      × ((q : WorkerPhase) → can_transition (end_of ready to_the_end) q ≡ false))
    ⊎ ((rs : List WorkerPhase) × ((moves ready (to_the_end ++ rs) ≡ true)
          × (end_of ready (to_the_end ++ rs) ≡ stopped)))
unfolding can_transition
stoppable_example = terminal_or_stoppable ready to_the_end refl

abbrev at_ready : S.RuntimeStatus
at_ready = record { local_phase = ready; canonical_state = none; reason_code = none }

ready_built : Derives ready at_ready
unfolding S.build_runtime_status
ready_built = built none none refl

IsConsistent-example : IsConsistent ready at_ready
IsConsistent-example = Derives-IsConsistent ready_built

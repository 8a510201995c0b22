-- ===== src/Phase.antt =====
-- runtime/domain/runtime_state.py, with `WorkerPhase` of runtime/domain/enums.py: the worker's local
-- phases, the transition table, and the canonical state and reason that a status carries. The
-- messages of the exceptions are left out, but for the `reason` that tells the branches apart.
pub mod Transitions
pub mod Runs
mod Tests
pub mod Status
use swr_ddd.Common.{
  ℕ, Bool, true, false, not, List, [], ◌∷◌, ◌==◌, if◌then◌else◌, Outcome, NoneType, ◌>>◌, raise_if,
}

pub data WorkerPhase : Type 0 where
  initializing ready running degraded stopping stopped failed completed : WorkerPhase

-- equality of enum members
abbrev phase_index : WorkerPhase → ℕ
phase_index initializing = 0
phase_index ready = 1
phase_index running = 2
phase_index degraded = 3
phase_index stopping = 4
phase_index stopped = 5
phase_index failed = 6
phase_index completed = 7

abbrev pub phase_eq : WorkerPhase → WorkerPhase → Bool
phase_eq a b = phase_index a == phase_index b

-- `phase in phases`
unfoldable pub phase_in : WorkerPhase → List WorkerPhase → Bool
phase_in p [] = false
phase_in p (q ∷ qs) = if phase_eq p q then true else phase_in p qs

unfoldable pub allowed_phase_transitions : WorkerPhase → List WorkerPhase
allowed_phase_transitions initializing = ready ∷ running ∷ failed ∷ stopping ∷ []
allowed_phase_transitions ready = running ∷ stopping ∷ failed ∷ []
allowed_phase_transitions running = degraded ∷ stopping ∷ failed ∷ []
allowed_phase_transitions degraded = running ∷ stopping ∷ failed ∷ []
allowed_phase_transitions stopping = stopped ∷ failed ∷ completed ∷ []
allowed_phase_transitions stopped = []
allowed_phase_transitions completed = []
allowed_phase_transitions failed = []

abbrev pub terminal_phases : List WorkerPhase
terminal_phases = stopped ∷ completed ∷ failed ∷ []

unfoldable pub is_terminal_phase : WorkerPhase → Bool
unfolding phase_in
is_terminal_phase phase = phase_in phase terminal_phases

unfoldable pub can_transition : WorkerPhase → WorkerPhase → Bool
unfolding is_terminal_phase allowed_phase_transitions
can_transition from_phase to_phase =
    if phase_eq from_phase to_phase
    then false
    else if is_terminal_phase from_phase
    then false
    else phase_in to_phase (allowed_phase_transitions from_phase)

-- the `reason` of `InvalidWorkerTransitionError`
pub data TransitionReason : Type 0 where
  self_transition_not_allowed : TransitionReason
  terminal_phase_resurrection_not_allowed : TransitionReason
  transition_edge_not_allowed : TransitionReason

unfoldable pub validate_transition : WorkerPhase → WorkerPhase → Outcome TransitionReason NoneType
unfolding is_terminal_phase allowed_phase_transitions
validate_transition from_phase to_phase = do
  raise_if (phase_eq from_phase to_phase) self_transition_not_allowed
  raise_if (is_terminal_phase from_phase) terminal_phase_resurrection_not_allowed
  raise_if (not (phase_in to_phase (allowed_phase_transitions from_phase)))
      transition_edge_not_allowed

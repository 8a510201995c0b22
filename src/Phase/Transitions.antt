-- ===== src/Phase/Transitions.antt =====
-- The phase diagram as an inductive relation, and what the table allows along whole runs.
use swr_ddd.Common.{◌≡◌, refl, ◌≢◌, ◌↔◌, inl, inr, true, false, arith, Bool-cases, returned, raised}
use swr_ddd.Phase.{
  WorkerPhase, initializing, ready, running, degraded, stopping, stopped, failed, completed,
  is_terminal_phase, can_transition, validate_transition, self_transition_not_allowed,
  terminal_phase_resurrection_not_allowed,
}

-- The diagram drawn independently of the table: a worker gets ready and runs, it stops from any
-- live phase, it fails from any live phase, and it ends only from `stopping` or by failing.
pub data IsLive : WorkerPhase → Type 0 where
  initializing_live : IsLive initializing
  ready_live : IsLive ready
  running_live : IsLive running
  degraded_live : IsLive degraded

infix 40 ◌⟶◌ ◌⟶*◌
pub data ◌⟶◌ : WorkerPhase → WorkerPhase → Type 0 where
  become_ready : initializing ⟶ ready
  run_directly : initializing ⟶ running
  run_ready : ready ⟶ running
  degrade : running ⟶ degraded
  recover : degraded ⟶ running
  stop : {p : WorkerPhase} → IsLive p → p ⟶ stopping
  fail : {p : WorkerPhase} → IsLive p → p ⟶ failed
  fail_stopping : stopping ⟶ failed
  end_stopped : stopping ⟶ stopped
  end_completed : stopping ⟶ completed

pub data ◌⟶*◌ : WorkerPhase → WorkerPhase → Type 0 where
  here : {p : WorkerPhase} → p ⟶* p
  step : {p q r : WorkerPhase} → p ⟶ q → q ⟶* r → p ⟶* r

ruleset live_phases = (initializing_live, ready_live, running_live, degraded_live)

ruleset edges = (
  become_ready, run_directly, run_ready, degrade, recover, stop, fail, fail_stopping, end_stopped,
  end_completed, live_phases,
)

pub can_transition_sound : (p q : WorkerPhase) → can_transition p q ≡ true → p ⟶ q
unfolding can_transition
can_transition_sound p q h = grind (arith, edges)

live_edges :
    {p : WorkerPhase}
    → IsLive p
    → (can_transition p stopping ≡ true) × (can_transition p failed ≡ true)
unfolding can_transition
live_edges initializing_live = (refl, refl)
live_edges ready_live = (refl, refl)
live_edges running_live = (refl, refl)
live_edges degraded_live = (refl, refl)

can_transition_complete : {p q : WorkerPhase} → p ⟶ q → can_transition p q ≡ true
unfolding can_transition
can_transition_complete become_ready = refl
can_transition_complete run_directly = refl
can_transition_complete run_ready = refl
can_transition_complete degrade = refl
can_transition_complete recover = refl
can_transition_complete (stop l) = (live_edges l).0
can_transition_complete (fail l) = (live_edges l).1
can_transition_complete fail_stopping = refl
can_transition_complete end_stopped = refl
can_transition_complete end_completed = refl

-- The table of allowed transitions holds exactly the edges of the phase diagram.
pub can_transition-⟶ : (p q : WorkerPhase) → (can_transition p q ≡ true) ↔ (p ⟶ q)
can_transition-⟶ p q = (can_transition_sound p q, can_transition_complete)

terminal_stuck : {p q : WorkerPhase} → is_terminal_phase p ≡ true → ¬ (p ⟶ q)
unfolding is_terminal_phase
terminal_stuck h (stop initializing_live) = cc
terminal_stuck h (stop ready_live) = cc
terminal_stuck h (stop running_live) = cc
terminal_stuck h (stop degraded_live) = cc
terminal_stuck h (fail initializing_live) = cc
terminal_stuck h (fail ready_live) = cc
terminal_stuck h (fail running_live) = cc
terminal_stuck h (fail degraded_live) = cc
terminal_stuck h _ = cc

-- A phase that is not terminal has an edge to `stopping` or, from there, to `stopped`.
way_out : (p : WorkerPhase) → is_terminal_phase p ≡ false → (q : WorkerPhase) × (p ⟶ q)
unfolding is_terminal_phase
way_out initializing h = (ready, become_ready)
way_out ready h = (running, run_ready)
way_out running h = (degraded, degrade)
way_out degraded h = (running, recover)
way_out stopping h = (stopped, end_stopped)
way_out stopped h = cc
way_out failed h = cc
way_out completed h = cc

validate_accepts :
    (p q : WorkerPhase) → (validate_transition p q ≡ returned tt) ↔ (can_transition p q ≡ true)
unfolding validate_transition can_transition
validate_accepts p q = (λ h. ground arith, λ h. ground arith)

validate_self :
    (p q : WorkerPhase) → (validate_transition p q ≡ raised self_transition_not_allowed) ↔ (p ≡ q)
unfolding validate_transition
validate_self p q = (λ h. ground arith, λ h. ground arith)

validate_terminal :
    (p q : WorkerPhase)
    → (validate_transition p q ≡ raised terminal_phase_resurrection_not_allowed)
      ↔ ((p ≢ q) × (is_terminal_phase p ≡ true))
unfolding validate_transition is_terminal_phase
validate_terminal p q = (λ h. ground arith, λ h. ground arith)

-- A phase is terminal when no edge leaves it.
terminal_of_stuck : (p : WorkerPhase) → ((r : WorkerPhase) → ¬ (p ⟶ r)) → is_terminal_phase p ≡ true
terminal_of_stuck p h = elim (Bool-cases (is_terminal_phase p)) [
  | inl e ↦ e
  | inr e ↦ let (q, s) = way_out p e in absurd (h q s)
]

-- `validate_transition` accepts exactly the edges of the diagram. It refuses a self transition
-- exactly when the phases are equal, and a resurrection exactly when they differ and the first
-- has no edge out of it.
pub validate_transition-⟶ :
    (p q : WorkerPhase)
    → ((validate_transition p q ≡ returned tt) ↔ (p ⟶ q))
      × ((validate_transition p q ≡ raised self_transition_not_allowed) ↔ (p ≡ q))
      × ((validate_transition p q ≡ raised terminal_phase_resurrection_not_allowed)
          ↔ ((p ≢ q) × ((r : WorkerPhase) → ¬ (p ⟶ r))))
validate_transition-⟶ p q =
    let (s, c) = can_transition-⟶ p q in
    let (a, b) = validate_accepts p q in
    let (t, u) = validate_terminal p q in
    (
      (λ h. s (a h), λ e. b (c e)),
      validate_self p q,
      (λ h. ((t h).0, λ r. terminal_stuck (t h).1), λ w. u (w.0, terminal_of_stuck p w.1)),
    )

pub terminal_final : {p q : WorkerPhase} → is_terminal_phase p ≡ true → p ⟶* q → p ≡ q
terminal_final h here = refl
terminal_final h (step e r) = absurd (terminal_stuck h e)

-- ===== src/Phase/Runs.antt =====
-- What the table allows along whole runs.
use swr_ddd.Common.{
  ◌≡◌, refl, ◌≢◌, ◌⊎◌, inl, inr, Bool, true, false, ◌&&◌, ◌++◌, arith, Bool-cases, List, [], ◌∷◌,
}
use swr_ddd.Phase.{
  WorkerPhase, initializing, ready, running, degraded, stopping, stopped, completed,
  is_terminal_phase, can_transition,
}
use swr_ddd.Phase.Transitions.{
  IsLive, ◌⟶◌, ◌⟶*◌, here, step, end_stopped, end_completed, initializing_live, ready_live,
  running_live, degraded_live, can_transition_sound,
}

-- the phases that a worker goes through, each move by a transition that `can_transition` allows
abbrev pub moves : WorkerPhase → List WorkerPhase → Bool
moves p [] = true
moves p (q ∷ qs) = can_transition p q && moves q qs

abbrev pub end_of : WorkerPhase → List WorkerPhase → WorkerPhase
end_of p [] = p
end_of p (q ∷ qs) = end_of q qs

and_left : (a b : Bool) → (a && b) ≡ true → a ≡ true
and_left a b h = ground arith

and_right : (a b : Bool) → (a && b) ≡ true → b ≡ true
and_right a b h = ground arith

moves_path : (p : WorkerPhase) (qs : List WorkerPhase) → moves p qs ≡ true → p ⟶* end_of p qs
moves_path p [] h = here
moves_path p (q ∷ qs) h =
    step (can_transition_sound p q (and_left (can_transition p q) (moves q qs) h))
      (moves_path q qs (and_right (can_transition p q) (moves q qs) h))

-- allowed moves, one after the other
moves-append :
    (p : WorkerPhase) (qs rs : List WorkerPhase)
    → moves p (qs ++ rs) ≡ (moves p qs && moves (end_of p qs) rs)
moves-append p [] rs = refl
moves-append p (q ∷ qs) rs = ground (arith, moves-append q qs rs)

end_of-append :
    (p : WorkerPhase) (qs rs : List WorkerPhase) → end_of p (qs ++ rs) ≡ end_of (end_of p qs) rs
end_of-append p [] rs = refl
end_of-append p (q ∷ qs) rs = end_of-append q qs rs

-- A way from a phase to STOPPED by allowed moves.
abbrev pub Stops : WorkerPhase → Type 0
Stops p = (rs : List WorkerPhase) × ((moves p rs ≡ true) × (end_of p rs ≡ stopped))

live-Stops : (p : WorkerPhase) → IsLive p → Stops p
unfolding can_transition
live-Stops p initializing_live = (stopping ∷ stopped ∷ [], (refl, refl))
live-Stops p ready_live = (stopping ∷ stopped ∷ [], (refl, refl))
live-Stops p running_live = (stopping ∷ stopped ∷ [], (refl, refl))
live-Stops p degraded_live = (stopping ∷ stopped ∷ [], (refl, refl))

stoppable : (p : WorkerPhase) → is_terminal_phase p ≡ false → Stops p
unfolding is_terminal_phase can_transition
stoppable initializing h = live-Stops initializing initializing_live
stoppable ready h = live-Stops ready ready_live
stoppable running h = live-Stops running running_live
stoppable degraded h = live-Stops degraded degraded_live
stoppable stopping h = (stopped ∷ [], (refl, refl))
stoppable _ h = cc

no_move :
    (p : WorkerPhase) → is_terminal_phase p ≡ true → (q : WorkerPhase) → can_transition p q ≡ false
unfolding can_transition
no_move p h q = ground arith

-- A run of allowed transitions, from any phase, has reached a terminal phase, from which no
-- transition is allowed, or it can be continued by allowed transitions to STOPPED.
pub terminal_or_stoppable :
    (p : WorkerPhase) (qs : List WorkerPhase)
    → moves p qs ≡ true
    → ((is_terminal_phase (end_of p qs) ≡ true)
        × ((q : WorkerPhase) → can_transition (end_of p qs) q ≡ false))
      ⊎ ((rs : List WorkerPhase) × ((moves p (qs ++ rs) ≡ true) × (end_of p (qs ++ rs) ≡ stopped)))
terminal_or_stoppable p qs h = elim (Bool-cases (is_terminal_phase (end_of p qs))) [
  | inl ends ↦ inl (ends, no_move (end_of p qs) ends)
  | inr live ↦
      let (rs, (allowed, at_end)) = stoppable (end_of p qs) live in
      inr (rs, (rw (moves-append p qs rs, h, allowed) refl, rw (end_of-append p qs rs) at_end))
]

edge_into_end : {p q : WorkerPhase} → p ⟶ q → (q ≡ stopped) ⊎ (q ≡ completed) → p ⟶* stopping
edge_into_end end_stopped e = here
edge_into_end end_completed e = here
edge_into_end _ e = elim e [ inl a ↦ cc | inr b ↦ cc ]

path_into_end :
    {p q : WorkerPhase} → p ⟶* q → (q ≡ stopped) ⊎ (q ≡ completed) → (p ≡ q) ⊎ (p ⟶* stopping)
path_into_end here e = inl refl
path_into_end (step s r) e = elim (path_into_end r e) [
  | inl same ↦ inr (edge_into_end s (rw same e))
  | inr way ↦ inr (step s way)
]

-- Allowed transitions that take a worker from one phase to another that is an orderly end lead
-- through `stopping`.
pub orderly_end :
    (p : WorkerPhase) (qs : List WorkerPhase)
    → moves p qs ≡ true
    → p ≢ end_of p qs
    → (end_of p qs ≡ stopped) ⊎ (end_of p qs ≡ completed)
    → p ⟶* stopping
orderly_end p qs h moved ends = elim (path_into_end (moves_path p qs h) ends) [
  | inl same ↦ absurd (moved same)
  | inr way ↦ way
]

-- ===== src/Phase/Status/Consistent.antt =====
-- A status that the builders return carries a permitted pair of state and reason.
use swr_ddd.Common.{◌≡◌, ap, ◌⊎◌, ◌↔◌, Option, none, some, arith, returned}
use swr_ddd.Phase.{WorkerPhase, validate_transition}
use swr_ddd.Phase.Transitions.{◌⟶◌, ◌⟶*◌, here, step, validate_transition-⟶}
use swr_ddd.Phase.Status.{
  RuntimeStatus, CanonicalRuntimeState, CanonicalRuntimeReason, with_local_phase,
  with_canonical_state, build_runtime_status, validate_state_reason_pair, launch_failed,
  heartbeat_timeout, stop_requested, failed, stopping,
}

-- The pairs as a table written by hand: a failure says why, a stop is a requested one, and no
-- other state has a reason.
abbrev pub Permitted : Option CanonicalRuntimeState → Option CanonicalRuntimeReason → Type 0
Permitted none reason = reason ≡ none
Permitted (some failed) reason = (reason ≡ some launch_failed) ⊎ (reason ≡ some heartbeat_timeout)
Permitted (some stopping) reason = reason ≡ some stop_requested
Permitted (some _) reason = reason ≡ none

pair_sound :
    (state : CanonicalRuntimeState) (reason : Option CanonicalRuntimeReason)
    → validate_state_reason_pair state reason ≡ returned tt
    → Permitted (some state) reason
unfolding validate_state_reason_pair
pair_sound failed reason h = ground arith
pair_sound _ reason h = ground arith

pair_complete :
    (state : CanonicalRuntimeState) (reason : Option CanonicalRuntimeReason)
    → Permitted (some state) reason
    → validate_state_reason_pair state reason ≡ returned tt
unfolding validate_state_reason_pair
pair_complete failed reason h = ground arith
pair_complete _ reason h = ground arith

-- A pair of a state and a reason passes the validation exactly when the table permits it.
pub validate_state_reason_pair-Permitted :
    (state : CanonicalRuntimeState) (reason : Option CanonicalRuntimeReason)
    → (validate_state_reason_pair state reason ≡ returned tt) ↔ Permitted (some state) reason
validate_state_reason_pair-Permitted state reason =
    (pair_sound state reason, pair_complete state reason)

-- A status that was built at phase `p` and then changed by successful calls only.
pub data Derives (p : WorkerPhase) : RuntimeStatus → Type 0 where
  built :
      (c : Option CanonicalRuntimeState) (r : Option CanonicalRuntimeReason) {s : RuntimeStatus}
      → build_runtime_status p c r ≡ returned s
      → Derives p s
  moved :
      {s t : RuntimeStatus} (q : WorkerPhase)
      → Derives p s
      → with_local_phase s q ≡ returned t
      → Derives p t
  restated :
      {s t : RuntimeStatus} (c : CanonicalRuntimeState) (r : Option CanonicalRuntimeReason)
      → Derives p s
      → with_canonical_state s c r ≡ returned t
      → Derives p t

abbrev pub IsConsistent : WorkerPhase → RuntimeStatus → Type 0
IsConsistent p s = (p ⟶* s.local_phase) × Permitted s.canonical_state s.reason_code

path_snoc : {p q r : WorkerPhase} → p ⟶* q → q ⟶ r → p ⟶* r
path_snoc here e = step e here
path_snoc (step s r) e = step s (path_snoc r e)

build_checks :
    {p : WorkerPhase} (c : CanonicalRuntimeState) (r : Option CanonicalRuntimeReason)
    {s : RuntimeStatus}
    → build_runtime_status p (some c) r ≡ returned s
    → (validate_state_reason_pair c r ≡ returned tt)
      × (s ≡ record { local_phase = p; canonical_state = some c; reason_code = r })
unfolding build_runtime_status
build_checks c r h = ground arith

build_gives :
    {p : WorkerPhase} (c : Option CanonicalRuntimeState) (r : Option CanonicalRuntimeReason)
    {s : RuntimeStatus}
    → build_runtime_status p c r ≡ returned s
    → (s.local_phase ≡ p) × Permitted s.canonical_state s.reason_code
unfolding build_runtime_status
build_gives none none h = ground arith
build_gives none (some r) h = ground arith
build_gives {p} (some c) r h =
    let e = build_checks c r h in
    (ap (λ (x : RuntimeStatus). x.local_phase) e.1, rw (e.1) (pair_sound c r e.0))

phase_checks :
    (s : RuntimeStatus) (q : WorkerPhase) {t : RuntimeStatus}
    → with_local_phase s q ≡ returned t
    → (validate_transition s.local_phase q ≡ returned tt) × (t ≡ record s { local_phase = q })
unfolding with_local_phase
phase_checks s q h = ground arith

state_checks :
    (s : RuntimeStatus) (c : CanonicalRuntimeState) (r : Option CanonicalRuntimeReason)
    {t : RuntimeStatus}
    → with_canonical_state s c r ≡ returned t
    → (validate_state_reason_pair c r ≡ returned tt)
      × (t ≡ record s { canonical_state = some c; reason_code = r })
unfolding with_canonical_state
state_checks s c r h = ground arith

-- A status that was built and then changed by the methods, each returning, has a permitted pair,
-- and its phase was reached from the first one along the edges of the phase diagram.
pub Derives-IsConsistent : {p : WorkerPhase} {s : RuntimeStatus} → Derives p s → IsConsistent p s
Derives-IsConsistent (built c r h) = let (same, pair) = build_gives c r h in (rw same here, pair)
Derives-IsConsistent (moved {s = s} q d h) =
    let (path, pair) = Derives-IsConsistent d in
    let (valid, same) = phase_checks s q h in
    rw same (path_snoc path ((validate_transition-⟶ s.local_phase q).0.0 valid), pair)
Derives-IsConsistent (restated {s = s} c r d h) =
    let (path, pair) = Derives-IsConsistent d in
    let (valid, same) = state_checks s c r h in rw same (path, pair_sound c r valid)

-- ===== src/Gateway/Retry.antt =====
-- A signal that the client failed to take is lost: the same signal is then suppressed.
use swr_ddd.Common.{
  ℕ, ◌≤◌, some, true, false, Bool-cases, inl, inr, max, ◌≡◌, refl, sym, ap, ◌∙◌, subst, arith,
  returned, raised,
}
use swr_ddd.Common.Text.{text_eq_refl}
use swr_ddd.Common.Dict.{get, get-put}
use swr_ddd.Events.{SignalType}
use swr_ddd.Events.Envelope.{Python, Payload, Envelope, key_of}
use swr_ddd.Events.Dedupe.{
  DedupeDecision, accept, drop_duplicate, drop_stale_attempt, EventKey, seen_before,
  LifecycleSignalDedupe, decide, or_default,
}
use swr_ddd.Gateway.{
  RuntimeIdentity, client_failed, Surroundings, Gateway, suppressed, prepare, after_decision,
  emit_event, emit,
}
use swr_ddd.Gateway.Once.{key_eq_refl}

repeated :
    (d : LifecycleSignalDedupe) (key : EventKey) (current : ℕ)
    → get key.runtime_id d.latest_attempt_by_runtime ≡ some key.launch_attempt
    → current ≤ key.launch_attempt
    → seen_before key d.seen_identity_keys ≡ true
    → decide d key current ≡ (drop_duplicate, d)
unfolding decide
repeated d key current latest le seen = rw latest (ground arith)

-- what an accepted event leaves
record Remembers (key : EventKey) (current : ℕ) (d : LifecycleSignalDedupe) : Type 0 where
  latest : get key.runtime_id d.latest_attempt_by_runtime ≡ some key.launch_attempt
  not_before : current ≤ key.launch_attempt
  seen : seen_before key d.seen_identity_keys ≡ true

accepted-Remembers :
    (d : LifecycleSignalDedupe) (key : EventKey) (current : ℕ)
    → (decide d key current).0 ≡ accept
    → Remembers key current (decide d key current).1
unfolding decide seen_before
accepted-Remembers d key current h = record {
  latest = ground (
    arith,
    get-put key.runtime_id key.runtime_id
        (max key.launch_attempt
          (or_default (get key.runtime_id d.latest_attempt_by_runtime) current))
        d.latest_attempt_by_runtime,
    text_eq_refl key.runtime_id,
  );
  not_before = ground arith;
  seen = ground (arith, key_eq_refl key);
}

-- An event that was accepted is a duplicate at once.
decide_again :
    (d : LifecycleSignalDedupe) (key : EventKey) (current : ℕ)
    → (decide d key current).0 ≡ accept
    → decide (decide d key current).1 key current ≡ (drop_duplicate, (decide d key current).1)
decide_again d key current h =
    let kept = accepted-Remembers d key current h in
    repeated (decide d key current).1 key current kept.latest kept.not_before kept.seen

module _ (py : Python) (w : Surroundings py) (r : RuntimeIdentity) where
  again :
      (signal_type : SignalType) (event : Envelope py) (g : Gateway py)
      (x : DedupeDecision × LifecycleSignalDedupe)
      → decide g.dedupe (key_of py event) r.launch_attempt ≡ x
      → w.observer_raises event ≡ false
      → (after_decision py w r signal_type event g x).0 ≡ raised client_failed
      → emit_event py w r signal_type
          (after_decision py w r signal_type event g x).1
          (returned event)
        ≡ (returned (suppressed drop_duplicate), (after_decision py w r signal_type event g x).1)
  again signal_type event g (drop_duplicate, d) e quiet h = absurd (ground arith)
  again signal_type event g (drop_stale_attempt, d) e quiet h = absurd (ground arith)
  again signal_type event g (accept, d) e quiet h =
      let dropped : decide d (key_of py event) r.launch_attempt ≡ (drop_duplicate, d) =
        subst (λ x. decide x.1 (key_of py event) r.launch_attempt ≡ (drop_duplicate, x.1)) e
          (decide_again g.dedupe (key_of py event) r.launch_attempt (ap (λ x. x.0) e)) in
      elim (Bool-cases w.has_emit_signal) [
        | inl there ↦ rw (there, quiet, dropped) refl
        | inr gone ↦ absurd (ground (arith, gone, h))
      ]

  event_again :
      (signal_type : SignalType) (event : Envelope py) (g : Gateway py)
      → (emit_event py w r signal_type g (returned event)).0 ≡ raised client_failed
      → emit_event py w r signal_type
          (emit_event py w r signal_type g (returned event)).1
          (returned event)
        ≡ (
          returned (suppressed drop_duplicate),
          (emit_event py w r signal_type g (returned event)).1,
        )
  event_again signal_type event g h = elim (Bool-cases (w.observer_raises event)) [
    | inl raises ↦ absurd (ground (arith, raises, h))
    | inr quiet ↦
        let decided = decide g.dedupe (key_of py event) r.launch_attempt in
        let reached : emit_event py w r signal_type g (returned event)
            ≡ after_decision py w r signal_type event g decided =
          rw quiet refl in
        subst
          (λ x.
            emit_event py w r signal_type x.1 (returned event)
            ≡ (returned (suppressed drop_duplicate), x.1))
          (sym reached)
          (again signal_type event g decided refl quiet (ap (λ x. x.0) (sym reached) ∙ h))
  ]

  -- When a signal was made an event and the client raised, the same call again is suppressed as a
  -- duplicate and hands nothing over: the signal is lost.
  pub lost_when_client_fails :
      (signal_type : SignalType) (payload : Payload py) (now : py.Moment) (g : Gateway py)
      (event : Envelope py)
      → prepare py r signal_type payload now ≡ returned event
      → (emit py w r signal_type payload now g).0 ≡ raised client_failed
      → emit py w r signal_type payload now (emit py w r signal_type payload now g).1
        ≡ (returned (suppressed drop_duplicate), (emit py w r signal_type payload now g).1)
  unfolding emit
  lost_when_client_fails signal_type payload now g event prepared h =
      subst
        (λ o.
          (emit_event py w r signal_type g o).0 ≡ raised client_failed
          → emit_event py w r signal_type (emit_event py w r signal_type g o).1 o
            ≡ (returned (suppressed drop_duplicate), (emit_event py w r signal_type g o).1))
        (sym prepared) (event_again signal_type event g) h

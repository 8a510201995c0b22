-- ===== src/Gateway/Once.antt =====
-- No event is handed to the client twice, and so a failed launch is reported at most once.
use swr_ddd.Common.{
  ℕ, Bool, true, false, ◌&&◌, not, List, [], ◌∷◌, if◌then◌else◌, ◌≡◌, refl, ap, arith, Outcome,
  returned, raised,
}
use swr_ddd.Common.Text.{text_eq_iff, text_eq_refl}
use swr_ddd.Events.{SignalType}
use swr_ddd.Events.Envelope.{Python, Payload, Envelope, key_of}
use swr_ddd.Events.Dedupe.{
  DedupeDecision, accept, drop_duplicate, drop_stale_attempt, EventKey, key_eq, seen_before,
  LifecycleSignalDedupe, decide,
}
use swr_ddd.Gateway.{
  RuntimeIdentity, GatewayError, WireEnvelope, Surroundings, Gateway, observer_failed, prepare,
  hand_over, after_decision, emit_event, emit,
}

pub key_eq_sound : (a b : EventKey) → key_eq a b ≡ true → a ≡ b
unfolding key_eq
key_eq_sound a b h = ground (
  arith,
  text_eq_iff a.runtime_id b.runtime_id,
  text_eq_iff a.event_family b.event_family,
  text_eq_iff a.event_name b.event_name,
  text_eq_iff a.identity_key b.identity_key,
)

pub key_eq_refl : (a : EventKey) → key_eq a a ≡ true
unfolding key_eq
key_eq_refl a = ground (
  arith,
  text_eq_refl a.runtime_id,
  text_eq_refl a.event_family,
  text_eq_refl a.event_name,
  text_eq_refl a.identity_key,
)

-- every key of the first list is among the second
abbrev pub all_seen : List EventKey → List EventKey → Bool
all_seen [] seen = true
all_seen (k ∷ ks) seen = seen_before k seen && all_seen ks seen

-- no key occurs twice
abbrev pub distinct_keys : List EventKey → Bool
distinct_keys [] = true
distinct_keys (k ∷ ks) = not (seen_before k ks) && distinct_keys ks

seen_of_key_eq :
    (a b : EventKey) (ks : List EventKey) → key_eq a b ≡ true → seen_before a ks ≡ seen_before b ks
seen_of_key_eq a b ks h = ap (λ k. seen_before k ks) (key_eq_sound a b h)

not_among :
    (k : EventKey) (ks seen : List EventKey)
    → all_seen ks seen ≡ true
    → seen_before k seen ≡ false
    → seen_before k ks ≡ false
unfolding seen_before
not_among k [] seen h n = refl
not_among k (j ∷ ks) seen h n = ground (arith, seen_of_key_eq j k seen, not_among k ks seen)

all_seen-cons :
    (k : EventKey) (ks seen : List EventKey)
    → all_seen ks seen ≡ true
    → all_seen ks (k ∷ seen) ≡ true
unfolding seen_before
all_seen-cons k [] seen h = refl
all_seen-cons k (j ∷ ks) seen h = ground (arith, all_seen-cons k ks seen)

seen_first : (k : EventKey) (ks : List EventKey) → seen_before k (k ∷ ks) ≡ true
unfolding seen_before
seen_first k ks = ground (arith, key_eq_refl k)

-- what a decision does to the keys that were seen
abbrev Decided : EventKey → List EventKey → DedupeDecision × LifecycleSignalDedupe → Type 0
Decided key seen (accept, d) = (seen_before key seen ≡ false) × (d.seen_identity_keys ≡ key ∷ seen)
Decided key seen (drop_duplicate, d) = d.seen_identity_keys ≡ seen
Decided key seen (drop_stale_attempt, d) = d.seen_identity_keys ≡ seen

decision-Decided :
    (key : EventKey) (d d' : LifecycleSignalDedupe) (stale known : Bool)
    → seen_before key d.seen_identity_keys ≡ known
    → d'.seen_identity_keys ≡ key ∷ d.seen_identity_keys
    → Decided key d.seen_identity_keys (
        if stale
        then (drop_stale_attempt, d)
        else if known
        then (drop_duplicate, d)
        else (accept, d'))
decision-Decided key d d' true known h e = refl
decision-Decided key d d' false true h e = refl
decision-Decided key d d' false false h e = (h, e)

decide-Decided :
    (d : LifecycleSignalDedupe) (key : EventKey) (current : ℕ)
    → Decided key d.seen_identity_keys (decide d key current)
unfolding decide
decide-Decided d key current =
    decision-Decided key d _ _ (seen_before key d.seen_identity_keys) refl refl

module _ (py : Python) where
  abbrev pub keys_of : List (WireEnvelope py) → List EventKey
  keys_of [] = []
  keys_of (e ∷ sent) = key_of py e.event ∷ keys_of sent

  -- what was handed over is known to the table, and nothing was handed over twice
  pub record IsOnce (g : Gateway py) : Type 0 where
    pub known : all_seen (keys_of g.sent) g.dedupe.seen_identity_keys ≡ true
    pub distinct : distinct_keys (keys_of g.sent) ≡ true

  module _ (w : Surroundings py) (r : RuntimeIdentity) where
    handed_over :
        (signal_type : SignalType) (event : Envelope py) (d : LifecycleSignalDedupe)
        (g : Gateway py)
        → IsOnce g
        → Decided (key_of py event) g.dedupe.seen_identity_keys (accept, d)
        → IsOnce (hand_over py w r signal_type event (record g { dedupe = d })).1
    handed_over signal_type event d g h (new, e) =
        let key = key_of py event in
        let known = all_seen-cons key (keys_of g.sent) g.dedupe.seen_identity_keys h.known in
        let fresh = not_among key (keys_of g.sent) g.dedupe.seen_identity_keys h.known new in
        let seen : all_seen (keys_of g.sent) d.seen_identity_keys ≡ true = rw e known in
        let here : seen_before key d.seen_identity_keys ≡ true =
          rw e (seen_first key g.dedupe.seen_identity_keys) in
        record { known = ground (arith, seen, here); distinct = ground (arith, h.distinct, fresh) }

    after_decision-Once :
        (signal_type : SignalType) (event : Envelope py) (g : Gateway py)
        (x : DedupeDecision × LifecycleSignalDedupe)
        → IsOnce g
        → Decided (key_of py event) g.dedupe.seen_identity_keys x
        → IsOnce (after_decision py w r signal_type event g x).1
    after_decision-Once signal_type event g (accept, d) h e = handed_over signal_type event d g h e
    after_decision-Once signal_type event g (drop_duplicate, d) h e = record {
      known = rw e h.known;
      distinct = h.distinct;
    }
    after_decision-Once signal_type event g (drop_stale_attempt, d) h e = record {
      known = rw e h.known;
      distinct = h.distinct;
    }

    emit_event-Once :
        (signal_type : SignalType) (g : Gateway py) (o : Outcome GatewayError (Envelope py))
        → IsOnce g
        → IsOnce (emit_event py w r signal_type g o).1
    emit_event-Once signal_type g (raised e) h = h
    emit_event-Once signal_type g (returned event) h =
        let decided =
          after_decision-Once signal_type event g
            (decide g.dedupe (key_of py event) r.launch_attempt) h
            (decide-Decided g.dedupe (key_of py event) r.launch_attempt) in
        elim (w.observer_raises event)
          as (λ b.
            IsOnce
              (if b
                then (raised observer_failed, g)
                else after_decision py w r signal_type event g
                    (decide g.dedupe (key_of py event) r.launch_attempt)).1) [
                      | true ↦ h
                      | false ↦ decided
                    ]

    pub emit-Once :
        (signal_type : SignalType) (payload : Payload py) (now : py.Moment) (g : Gateway py)
        → IsOnce g
        → IsOnce (emit py w r signal_type payload now g).1
    unfolding emit
    emit-Once signal_type payload now g h =
        emit_event-Once signal_type g (prepare py r signal_type payload now) h

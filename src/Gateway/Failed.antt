-- ===== src/Gateway/Failed.antt =====
-- A failed launch is reported at most once, whatever its details.
use swr_ddd.Common.{
  ℕ, suc, ◌≤◌, Bool, true, false, ◌&&◌, ◌||◌, not, some, List, [], ◌∷◌, ltb, ◌++◌, if◌then◌else◌,
  ◌≡◌, refl, ap, arith, Outcome, returned, raised, raise_if, Yields, Yields-bind, Yields-map,
}
use swr_ddd.Common.Text.{Text, codes, strip}
use swr_ddd.Common.Decimal.{decimal}
use swr_ddd.Events.{
  SignalType, bootstrap_succeeded, bootstrap_failed, heartbeat, unhealthy, controlled_stop,
  terminated, unsupported, SignalMeta, signal_meta,
}
use swr_ddd.Events.Envelope.{
  Python, Payload, Envelope, EventError, bad_version, bad_attempt, naive_occurred_at, key_of,
  require_non_empty, build_envelope, create, identity_key, envelope_of, or_else,
}
use swr_ddd.Events.Dedupe.{
  DedupeDecision, accept, drop_duplicate, drop_stale_attempt, EventKey, key_eq, seen_before,
  LifecycleSignalDedupe, empty, decide,
}
use swr_ddd.Gateway.{
  RuntimeIdentity, GatewayError, WireEnvelope, Surroundings, Gateway, prepare, as_gateway,
  origin_of, after_decision, emit_event, emit, validate_required_fields, identity_payload,
}
use swr_ddd.Gateway.Once.{key_eq_sound, key_eq_refl, distinct_keys, keys_of, IsOnce, emit-Once}

same_seen :
    (a b : EventKey) (ks : List EventKey) → key_eq a b ≡ true → seen_before a ks ≡ seen_before b ks
same_seen a b ks h = ap (λ k. seen_before k ks) (key_eq_sound a b h)

abbrev pub is_failed : SignalType → Bool
is_failed bootstrap_failed = true
is_failed _ = false

-- the key of every failed launch of this worker
abbrev pub failed_key : RuntimeIdentity → EventKey
failed_key r = record {
  runtime_id = strip r.runtime_id;
  launch_attempt = r.launch_attempt;
  event_family = codes "bootstrap";
  event_name = codes "runtime.launch_failed";
  identity_key = codes "bootstrap_failed";
}

abbrev failed_meta : SignalMeta
failed_meta = record {
  event_name = codes "runtime.launch_failed";
  event_type = codes "worker.lifecycle.bootstrap_failed";
  event_version = 1;
  event_family = codes "bootstrap";
}

-- a failed launch has that key
abbrev keyed : RuntimeIdentity → SignalType → EventKey → Bool
keyed r signal_type key = not (is_failed signal_type) || key_eq key (failed_key r)

module _ (py : Python) where
  require-strips : (value : Text) → Yields (λ v. v ≡ strip value) (require_non_empty py value)
  require-strips value = ground arith

  any_raise : (b : Bool) (e : EventError) → Yields (λ u. Unit {0}) (raise_if b e)
  any_raise true e = tt
  any_raise false e = tt

  -- the key of a built envelope, from what it was built from
  abbrev stripped_key : Envelope py → EventKey
  stripped_key e = record {
    runtime_id = strip e.runtime_id;
    launch_attempt = e.launch_attempt;
    event_family = strip e.event_family;
    event_name = strip e.event_name;
    identity_key = strip e.identity_key;
  }

  build_envelope-key :
      (e : Envelope py) → Yields (λ b. key_of py b ≡ stripped_key e) (build_envelope py e)
  unfolding build_envelope
  build_envelope-key e =
      Yields-bind (λ v. v ≡ strip e.event_id) _ _ _ (require-strips e.event_id)
        λ a1 h1.
          Yields-bind (λ v. v ≡ strip e.event_type) _ _ _ (require-strips e.event_type)
            λ a2 h2.
              Yields-bind (λ v. v ≡ strip e.event_name) _ _ _ (require-strips e.event_name)
                λ a3 h3.
                  Yields-bind (λ v. v ≡ strip e.event_family) _ _ _ (require-strips e.event_family)
                    λ a4 h4.
                      Yields-bind (λ v. v ≡ strip e.correlation_id) _ _ _
                        (require-strips e.correlation_id)
                        λ a5 h5.
                          Yields-bind (λ v. v ≡ strip e.producer) _ _ _ (require-strips e.producer)
                            λ a6 h6.
                              Yields-bind (λ v. v ≡ strip e.runtime_id) _ _ _
                                (require-strips e.runtime_id)
                                λ a7 h7.
                                  Yields-bind (λ v. v ≡ strip e.worker_identity) _ _ _
                                    (require-strips e.worker_identity)
                                    λ a8 h8.
                                      Yields-bind (λ v. v ≡ strip e.identity_key) _ _ _
                                        (require-strips e.identity_key)
                                        λ a9 h9.
                                          Yields-bind (λ u. Unit {0})
                                            (λ b. key_of py b ≡ stripped_key e)
                                            (raise_if (ltb e.event_version 1) bad_version) _
                                            (any_raise (ltb e.event_version 1) bad_version)
                                            λ u1 t1.
                                              Yields-bind (λ u. Unit {0})
                                                (λ b. key_of py b ≡ stripped_key e)
                                                (raise_if (ltb e.launch_attempt 1) bad_attempt) _
                                                (any_raise (ltb e.launch_attempt 1) bad_attempt)
                                                λ u2 t2.
                                                  Yields-bind (λ u. Unit {0})
                                                    (λ b. key_of py b ≡ stripped_key e)
                                                    (raise_if (py.is_naive e.occurred_at)
                                                      naive_occurred_at)
                                                    _
                                                    (any_raise (py.is_naive e.occurred_at)
                                                      naive_occurred_at)
                                                    λ u3 t3.
                                                      let key : EventKey = record {
                                                        runtime_id = a7;
                                                        launch_attempt = e.launch_attempt;
                                                        event_family = a4;
                                                        event_name = a3;
                                                        identity_key = a9;
                                                      } in
                                                      let same : key ≡ stripped_key e =
                                                        rw (h3, h4, h7, h9) refl in
                                                      same

  any_result {ℓ κ} : {X : Type ℓ} {A : Type κ} (o : Outcome X A) → Yields (λ a. Unit {0}) o
  any_result (returned a) = tt
  any_result (raised e) = tt

  any_keyed {ℓ κ} : {X : Type ℓ} {A : Type κ} (o : Outcome X A) → Yields (λ a. true ≡ true) o
  any_keyed (returned a) = refl
  any_keyed (raised e) = tt

  as_gateway-Yields :
      (key : EventKey) (o : Outcome EventError (Envelope py))
      → Yields (λ e. key_of py e ≡ key) o
      → Yields (λ e. key_of py e ≡ key) (as_gateway py o)
  as_gateway-Yields key (returned e) h = h
  as_gateway-Yields key (raised x) h = tt

  -- The event of a failed launch has the key that depends on the worker alone.
  prepare_failed-key :
      (r : RuntimeIdentity) (payload : Payload py) (now : py.Moment)
      → Yields (λ e. key_of py e ≡ failed_key r) (prepare py r bootstrap_failed payload now)
  unfolding prepare create signal_meta identity_key identity_payload strip
  prepare_failed-key r payload now =
      Yields-bind (λ u. Unit {0}) _
        (validate_required_fields py bootstrap_failed (identity_payload r) payload) _ (any_result _)
        λ u t.
          as_gateway-Yields (failed_key r)
            (create py bootstrap_failed (origin_of py r (identity_payload r) payload) payload now)
            (build_envelope-key (
              envelope_of py bootstrap_failed failed_meta
                (origin_of py r (identity_payload r) payload)
                (or_else (some (strip (identity_payload r).worker_identity))
                  (codes "worker:" ++ r.runtime_id ++ b':' ∷ decimal r.launch_attempt))
                payload now))

  prepare-keyed :
      (r : RuntimeIdentity) (signal_type : SignalType) (payload : Payload py) (now : py.Moment)
      → Yields
          (λ e. keyed r signal_type (key_of py e) ≡ true)
          (prepare py r signal_type payload now)
  prepare-keyed r bootstrap_failed payload now =
      Yields-map (λ e. key_of py e ≡ failed_key r) (λ e. key_eq (key_of py e) (failed_key r) ≡ true)
        _ (λ e h. rw h (key_eq_refl (failed_key r))) (prepare_failed-key r payload now)
  prepare-keyed r bootstrap_succeeded payload now = any_keyed _
  prepare-keyed r heartbeat payload now = any_keyed _
  prepare-keyed r unhealthy payload now = any_keyed _
  prepare-keyed r controlled_stop payload now = any_keyed _
  prepare-keyed r terminated payload now = any_keyed _
  prepare-keyed r (unsupported name) payload now = any_keyed _

  abbrev pub count_failed : List (WireEnvelope py) → ℕ
  count_failed [] = 0
  count_failed (e ∷ sent) =
      let rest = count_failed sent in if is_failed e.signal_type then suc rest else rest

  abbrev all_keyed : RuntimeIdentity → List (WireEnvelope py) → Bool
  all_keyed r [] = true
  all_keyed r (e ∷ sent) = keyed r e.signal_type (key_of py e.event) && all_keyed r sent

  module _ (r : RuntimeIdentity) where
    none_failed :
        (sent : List (WireEnvelope py))
        → seen_before (failed_key r) (keys_of py sent) ≡ false
        → all_keyed r sent ≡ true
        → count_failed sent ≡ 0
    unfolding seen_before
    none_failed [] n k = refl
    none_failed (e ∷ sent) n k =
        ground (arith, none_failed sent, key_eq_sound (key_of py e.event) (failed_key r))

    at_most_one :
        (sent : List (WireEnvelope py))
        → distinct_keys (keys_of py sent) ≡ true
        → all_keyed r sent ≡ true
        → count_failed sent ≤ 1
    at_most_one [] d k = omega arith
    at_most_one (e ∷ sent) d k = ground (
      arith,
      at_most_one sent,
      none_failed sent,
      same_seen (key_of py e.event) (failed_key r) (keys_of py sent),
    )

    module _ (w : Surroundings py) where
      after_decision-keyed :
          (signal_type : SignalType) (event : Envelope py) (g : Gateway py)
          (x : DedupeDecision × LifecycleSignalDedupe)
          → all_keyed r g.sent ≡ true
          → keyed r signal_type (key_of py event) ≡ true
          → all_keyed r (after_decision py w r signal_type event g x).1.sent ≡ true
      after_decision-keyed signal_type event g (accept, d) k h = ground (arith, k, h)
      after_decision-keyed signal_type event g (drop_duplicate, d) k h = k
      after_decision-keyed signal_type event g (drop_stale_attempt, d) k h = k

      emit_event-keyed :
          (signal_type : SignalType) (g : Gateway py) (o : Outcome GatewayError (Envelope py))
          → all_keyed r g.sent ≡ true
          → Yields (λ e. keyed r signal_type (key_of py e) ≡ true) o
          → all_keyed r (emit_event py w r signal_type g o).1.sent ≡ true
      emit_event-keyed signal_type g (raised e) k h = k
      emit_event-keyed signal_type g (returned event) k h = ground (
        arith,
        k,
        after_decision-keyed signal_type event g
            (decide g.dedupe (key_of py event) r.launch_attempt) k h,
      )

      emit-keyed :
          (signal_type : SignalType) (payload : Payload py) (now : py.Moment) (g : Gateway py)
          → all_keyed r g.sent ≡ true
          → all_keyed r (emit py w r signal_type payload now g).1.sent ≡ true
      unfolding emit
      emit-keyed signal_type payload now g k =
          emit_event-keyed signal_type g _ k (prepare-keyed r signal_type payload now)

      -- the calls of a list, one after the other, whatever each returns or raises
      abbrev pub emit_all : List (SignalType × Payload py × py.Moment) → Gateway py → Gateway py
      emit_all [] g = g
      emit_all ((signal_type, payload, now) ∷ calls) g =
          emit_all calls (emit py w r signal_type payload now g).1

      emit_all-keyed :
          (calls : List (SignalType × Payload py × py.Moment)) (g : Gateway py)
          → IsOnce py g
          → all_keyed r g.sent ≡ true
          → count_failed (emit_all calls g).sent ≤ 1
      emit_all-keyed [] g h k = at_most_one g.sent h.distinct k
      emit_all-keyed ((signal_type, payload, now) ∷ calls) g h k =
          emit_all-keyed calls _ (emit-Once py w r signal_type payload now g h)
            (emit-keyed signal_type payload now g k)

      -- Over any calls of a new gateway, whatever their details and however the client answers, the
      -- client is told of a failed launch at most once.
      pub failed_launch_once :
          (calls : List (SignalType × Payload py × py.Moment))
          → count_failed (emit_all calls (record { dedupe = empty; sent = [] })).sent ≤ 1
      failed_launch_once calls =
          emit_all-keyed calls _ (record { known = refl; distinct = refl }) refl

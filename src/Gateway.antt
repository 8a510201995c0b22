-- ===== src/Gateway.antt =====
-- `ManagerGateway` of runtime/integration/manager_gateway.py: how a lifecycle signal is checked, made
-- an event, deduplicated and handed to the manager's client. The client and the observer of events
-- answer as the parameter `Surroundings` says; the envelope that is logged is left out.
pub mod Once
mod Failed
mod Retry
mod Payloads
mod Tests
use swr_ddd.Common.{
  ℕ, Bool, true, false, ◌&&◌, not, Option, none, some, List, [], ◌∷◌, ◌++◌, ltb, if◌then◌else◌,
  Outcome, NoneType, returned, raised, raise_if, ◌>>=◌, ◌>>◌,
}
use swr_ddd.Common.Text.{Text, codes, strip, is_empty, member}
use swr_ddd.Common.Decimal.{decimal}
use swr_ddd.Common.Dict.{Dict, get}
use swr_ddd.Events.{
  SignalType, bootstrap_succeeded, bootstrap_failed, heartbeat, unhealthy, controlled_stop,
  terminated, unsupported,
}
use swr_ddd.Events.Envelope.{
  Python, Value, null, text, number, moment, other, Payload, has, Envelope, EventError, Origin,
  create, key_of,
}
use swr_ddd.Events.Dedupe.{
  DedupeDecision, accept, drop_duplicate, drop_stale_attempt, LifecycleSignalDedupe, decide,
}

-- the attributes of `_runtime_identity` that the gateway reads
pub record RuntimeIdentity : Type 0 where
  pub runtime_id : Text
  pub tenant_id : Text
  pub trader_id : Option Text
  pub account_id : Option Text
  pub strategy_version_id : Text
  pub mode : Text
  pub launch_attempt : ℕ
  -- `none` also where it is no text
  pub worker_identity : Option Text
  pub correlation_id : Option Text
  pub causation_id : Option Text

-- `_identity_payload`
pub record Identity : Type 0 where
  pub runtime_id : Text
  pub tenant_id : Text
  pub trader_id : Option Text
  pub account_id : Option Text
  pub strategy_version_id : Text
  pub mode : Text
  pub launch_attempt : ℕ
  pub worker_identity : Text

abbrev worker_identity_or : Option Text → Text → Text
worker_identity_or none default = default
worker_identity_or (some w) default = if is_empty (strip w) then default else w

unfoldable pub identity_payload : RuntimeIdentity → Identity
unfolding strip decimal
identity_payload r = record {
  runtime_id = r.runtime_id;
  tenant_id = r.tenant_id;
  trader_id = r.trader_id;
  account_id = r.account_id;
  strategy_version_id = r.strategy_version_id;
  mode = r.mode;
  launch_attempt = r.launch_attempt;
  worker_identity =
      worker_identity_or r.worker_identity
        (r.runtime_id ++ b':' ∷ r.strategy_version_id ++ b':' ∷ decimal r.launch_attempt);
}

pub data GatewayError : Type 0 where
  runtime_id_required launch_attempt_required worker_identity_required : GatewayError
  unsupported_signal observed_at_required occurred_at_required : GatewayError
  local_state_required reason_code_required : GatewayError
  event_refused : EventError → GatewayError
  observer_failed no_emit_signal client_failed reason_refused : GatewayError

-- what `_emit` returns
pub data Emitted : Type 0 where
  suppressed : DedupeDecision → Emitted
  client_result : Emitted

module _ (py : Python) where
  -- `_wire_payload_only`
  unfoldable pub wire_payload_only : Payload py → Payload py
  unfolding member
  wire_payload_only [] = []
  wire_payload_only ((k, v) ∷ payload) =
      let rest = wire_payload_only payload in
      if member k (
        codes "occurred_at"
        ∷ codes "runtime_id"
        ∷ codes "launch_attempt"
        ∷ codes "worker_identity"
        ∷ codes "strategy_version_id"
        ∷ codes "tenant_id"
        ∷ codes "account_id"
        ∷ [])
      then rest
      else (k, v) ∷ rest

  -- what the client's `emit_signal` is called with
  pub record WireEnvelope : Type 0 where
    pub signal_type : SignalType
    pub identity : Identity
    pub event : Envelope py
    pub payload : Payload py

  pub record Surroundings : Type 0 where
    -- `on_event_emitted` is there and raises
    pub observer_raises : Envelope py → Bool
    pub has_emit_signal : Bool
    -- from what was handed over so far
    pub client_raises : List WireEnvelope → Bool

  pub record Gateway : Type 0 where
    pub dedupe : LifecycleSignalDedupe
    -- what was handed to the client, newest first
    pub sent : List WireEnvelope

  abbrev is_moment : Option (Value py.Moment py.Other) → Bool
  is_moment (some (moment m)) = true
  is_moment _ = false

  -- `str(payload.get(key) or "").strip()` is not empty
  abbrev is_filled : Option (Value py.Moment py.Other) → Bool
  is_filled none = false
  is_filled (some null) = false
  is_filled (some (text s)) = not (is_empty (strip s))
  is_filled (some (number n)) = ltb 0 n
  is_filled (some (moment m)) = true
  is_filled (some (other o)) = py.is_true o

  abbrev check_occurred_at : Payload py → Outcome GatewayError NoneType
  check_occurred_at payload =
      raise_if (not (is_moment (get (codes "occurred_at") payload))) occurred_at_required

  abbrev is_minimal_termination : Payload py → Bool
  is_minimal_termination payload =
      has py (codes "local_state") payload
      && has py (codes "reason_code") payload
      && not (has py (codes "occurred_at") payload)

  -- the tests on the payload, by the type of the signal
  abbrev check_payload : SignalType → Payload py → Outcome GatewayError NoneType
  check_payload (unsupported name) payload = raised unsupported_signal
  check_payload heartbeat payload =
      raise_if (not (is_moment (get (codes "observed_at") payload))) observed_at_required
  check_payload terminated payload =
      if is_minimal_termination payload
      then (do
        raise_if (not (is_filled (get (codes "local_state") payload))) local_state_required
        raise_if (not (is_filled (get (codes "reason_code") payload))) reason_code_required)
      else check_occurred_at payload
  check_payload signal_type payload = check_occurred_at payload

  unfoldable pub validate_required_fields :
      SignalType → Identity → Payload py → Outcome GatewayError NoneType
  unfolding get strip
  validate_required_fields signal_type identity payload = do
    raise_if (is_empty (strip identity.runtime_id)) runtime_id_required
    raise_if (ltb identity.launch_attempt 1) launch_attempt_required
    raise_if (is_empty (strip identity.worker_identity)) worker_identity_required
    check_payload signal_type payload

  abbrev pub as_gateway {ℓ} : {A : Type ℓ} → Outcome EventError A → Outcome GatewayError A
  as_gateway (returned a) = returned a
  as_gateway (raised e) = raised (event_refused e)

  -- `str(payload["triggering_event_id"])`, where there is an entry that is not None
  abbrev triggering : Option (Value py.Moment py.Other) → Option Text
  triggering none = none
  triggering (some null) = none
  triggering (some (text s)) = some s
  triggering (some value) = some (py.str_of value)

  abbrev pub origin_of : RuntimeIdentity → Identity → Payload py → Origin py
  origin_of r identity payload = record {
    producer = codes "strategy-worker-runtime";
    runtime_id = identity.runtime_id;
    launch_attempt = identity.launch_attempt;
    worker_identity = identity.worker_identity;
    correlation_id = r.correlation_id;
    causation_id = r.causation_id;
    triggering_event_id = triggering (get (codes "triggering_event_id") payload);
  }

  -- the checks and the event
  unfoldable pub prepare :
      RuntimeIdentity → SignalType → Payload py → py.Moment → Outcome GatewayError (Envelope py)
  unfolding identity_payload validate_required_fields create get
  prepare r signal_type payload now =
      let identity = identity_payload r in
      validate_required_fields signal_type identity payload
      >> as_gateway (create py signal_type (origin_of r identity payload) payload now)

  abbrev pub wire_of : RuntimeIdentity → SignalType → Envelope py → WireEnvelope
  wire_of r signal_type event = record {
    signal_type = signal_type;
    identity = identity_payload r;
    event = event;
    payload = wire_payload_only event.payload;
  }

  module _ (w : Surroundings) (r : RuntimeIdentity) where
    abbrev Result : Type 0
    Result = Outcome GatewayError Emitted × Gateway

    -- the call of the client
    abbrev pub hand_over : SignalType → Envelope py → Gateway → Result
    hand_over signal_type event g =
        if w.has_emit_signal
        then (
          if w.client_raises (wire_of r signal_type event ∷ g.sent)
              then raised client_failed
              else returned client_result,
          record g { sent = wire_of r signal_type event ∷ g.sent },
        )
        else (raised no_emit_signal, g)

    abbrev pub after_decision :
        SignalType → Envelope py → Gateway → DedupeDecision × LifecycleSignalDedupe → Result
    after_decision signal_type event g (accept, dedupe) =
        hand_over signal_type event (record g { dedupe = dedupe })
    after_decision signal_type event g (decision, dedupe) =
        (returned (suppressed decision), record g { dedupe = dedupe })

    -- `on_event_emitted`, the deduplication and what it decides
    abbrev pub emit_event : SignalType → Gateway → Outcome GatewayError (Envelope py) → Result
    emit_event signal_type g (raised e) = (raised e, g)
    emit_event signal_type g (returned event) =
        if w.observer_raises event
        then (raised observer_failed, g)
        else after_decision signal_type event g (decide g.dedupe (key_of py event) r.launch_attempt)

    -- `_emit`
    unfoldable pub emit : SignalType → Payload py → py.Moment → Gateway → Result
    unfolding prepare decide wire_payload_only identity_payload
    emit signal_type payload now g = emit_event signal_type g (prepare r signal_type payload now)

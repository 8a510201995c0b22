-- ===== src/Events/Envelope.antt =====
-- `LifecycleEventEnvelope` and `LifecycleEventFactory`. SHA-256, `json.dumps` and `datetime` are
-- parameters; a payload is a dict of values. A launch attempt is a Python int that is not negative:
-- the gateway refuses a negative one as it refuses 0.
use swr_ddd.Common.{
  ℕ, Bool, true, ◌&&◌, ◌||◌, Option, take, none, some, [], ◌∷◌, ◌++◌, ltb, is_some, if◌then◌else◌,
  Outcome, returned, raised, raise_if, ◌>>=◌, ◌>>◌,
}
use swr_ddd.Common.Text.{Text, codes, strip, is_empty, text_eq}
use swr_ddd.Common.Decimal.{decimal}
use swr_ddd.Common.Dict.{Dict, get, put}
use swr_ddd.Events.{
  SignalType, bootstrap_succeeded, bootstrap_failed, heartbeat, unhealthy, controlled_stop,
  terminated, unsupported, SignalMeta, signal_meta,
}
use swr_ddd.Events.Dedupe.{EventKey}

-- the values of a payload; O holds the lists, the dicts and the numbers that are not read
pub data Value (M O : Type 0) : Type 0 where
  null : Value M O
  text : Text → Value M O
  number : ℕ → Value M O
  moment : M → Value M O
  other : O → Value M O

pub record Python : Type 1 where
  pub Moment : Type 0
  pub Other : Type 0
  -- `bool(value)` of another value
  pub is_true : Other → Bool
  -- `value.tzinfo is None`
  pub is_naive : Moment → Bool
  pub replace_utc : Moment → Moment
  -- `str(value)`, of a value that is no text
  pub str_of : Value Moment Other → Text
  -- `json.dumps(value, sort_keys=True, separators=(",", ":"), default=str)`
  pub canonical_json : Dict (Value Moment Other) → Text
  -- `hashlib.sha256(text.encode("utf-8")).hexdigest()`
  pub sha256_hex : Text → Text

pub data EventError : Type 0 where
  unsupported_signal_type blank_field bad_version bad_attempt naive_occurred_at : EventError

-- the name of a signal type
abbrev pub signal_name : SignalType → Text
signal_name bootstrap_succeeded = codes "bootstrap_succeeded"
signal_name bootstrap_failed = codes "bootstrap_failed"
signal_name heartbeat = codes "heartbeat"
signal_name unhealthy = codes "unhealthy"
signal_name controlled_stop = codes "controlled_stop"
signal_name terminated = codes "terminated"
signal_name (unsupported name) = name

-- `a or b` where `a` may be `None`
abbrev pub or_else : Option Text → Text → Text
or_else none b = b
or_else (some []) b = b
or_else (some (c ∷ s)) b = c ∷ s

module _ (py : Python) where
  abbrev pub Payload : Type 0
  Payload = Dict (Value py.Moment py.Other)

  -- `key in payload`
  abbrev pub has : Text → Payload → Bool
  has key payload = is_some (get key payload)

  -- the stripped text at a key, if there is one and it is a text
  abbrev text_at : Option (Value py.Moment py.Other) → Option Text
  text_at (some (text s)) = some (strip s)
  text_at _ = none

  abbrev first_text : Option Text → Option Text → Text → Text
  first_text (some s) _ default = s
  first_text none (some s) default = s
  first_text none none default = default

  -- `f"{signal_type}:{digest}"`
  abbrev hashed_payload : SignalType → Payload → Text
  hashed_payload signal_type payload =
      let name = signal_name signal_type ++ b':' ∷ [] in
      name ++ take 16 (py.sha256_hex (name ++ py.canonical_json payload))

  unfoldable pub identity_key : SignalType → Payload → Text
  unfolding get strip
  identity_key bootstrap_failed payload = codes "bootstrap_failed"
  identity_key signal_type payload =
      first_text (text_at (get (codes "event_id") payload))
        (text_at (get (codes "observation_id") payload)) (hashed_payload signal_type payload)

  -- `f"{runtime_id}:{launch_attempt}:{event_name}:"`
  abbrev event_prefix : Text → ℕ → Text → Text
  event_prefix runtime_id launch_attempt event_name =
      runtime_id ++ b':' ∷ decimal launch_attempt ++ b':' ∷ event_name ++ b':' ∷ []

  unfoldable pub event_id : Text → ℕ → Text → Text → Text
  unfolding decimal
  event_id runtime_id launch_attempt event_name key =
      let prefix = event_prefix runtime_id launch_attempt event_name in
      prefix ++ take 24 (py.sha256_hex (prefix ++ key))

  abbrev make_aware : py.Moment → py.Moment
  make_aware m = if py.is_naive m then py.replace_utc m else m

  abbrev moment_or : Option (Value py.Moment py.Other) → py.Moment → py.Moment
  moment_or (some (moment m)) default = make_aware m
  moment_or _ default = default

  -- `now` is what the clock shows, if it is asked
  unfoldable pub resolve_occurred_at : Payload → py.Moment → py.Moment
  unfolding get
  resolve_occurred_at payload now =
      moment_or (get (codes "occurred_at") payload)
        (moment_or (get (codes "observed_at") payload) now)

  pub record Envelope : Type 0 where
    pub event_id : Text
    pub event_type : Text
    pub event_name : Text
    pub event_family : Text
    pub event_version : ℕ
    pub occurred_at : py.Moment
    pub correlation_id : Text
    pub producer : Text
    pub payload : Payload
    pub runtime_id : Text
    pub launch_attempt : ℕ
    pub worker_identity : Text
    pub identity_key : Text
    pub causation_id : Option Text

  abbrev pub require_non_empty : Text → Outcome EventError Text
  require_non_empty value =
      let normalized = strip value in
      if is_empty normalized then raised blank_field else returned normalized

  -- `__post_init__`
  unfoldable pub build_envelope : Envelope → Outcome EventError Envelope
  unfolding strip
  build_envelope e = do
    event_id' ← require_non_empty e.event_id
    event_type' ← require_non_empty e.event_type
    event_name' ← require_non_empty e.event_name
    event_family' ← require_non_empty e.event_family
    correlation_id' ← require_non_empty e.correlation_id
    producer' ← require_non_empty e.producer
    runtime_id' ← require_non_empty e.runtime_id
    worker_identity' ← require_non_empty e.worker_identity
    identity_key' ← require_non_empty e.identity_key
    raise_if (ltb e.event_version 1) bad_version
    raise_if (ltb e.launch_attempt 1) bad_attempt
    raise_if (py.is_naive e.occurred_at) naive_occurred_at
    returned (record e {
      event_id = event_id';
      event_type = event_type';
      event_name = event_name';
      event_family = event_family';
      correlation_id = correlation_id';
      producer = producer';
      runtime_id = runtime_id';
      worker_identity = worker_identity';
      identity_key = identity_key';
    })

  -- what the deduplication reads of an envelope
  abbrev pub key_of : Envelope → EventKey
  key_of e = record {
    runtime_id = e.runtime_id;
    launch_attempt = e.launch_attempt;
    event_family = e.event_family;
    event_name = e.event_name;
    identity_key = e.identity_key;
  }

  -- `set(payload.keys()) == {"local_state", "reason_code"}`
  abbrev only_minimal_keys : Payload → Bool
  only_minimal_keys [] = true
  only_minimal_keys ((k, v) ∷ payload) =
      (text_eq k (codes "local_state") || text_eq k (codes "reason_code"))
      && only_minimal_keys payload

  abbrev is_minimal : Payload → Bool
  is_minimal payload =
      only_minimal_keys payload
      && has (codes "local_state") payload
      && has (codes "reason_code") payload

  -- `d.setdefault(key, value)`
  abbrev set_default : Text → Value py.Moment py.Other → Payload → Payload
  set_default key value payload = if has key payload then payload else put key value payload

  abbrev with_identity : Text → ℕ → Text → Payload → Payload
  with_identity runtime_id launch_attempt worker_identity payload =
      set_default (codes "worker_identity") (text worker_identity) (
        set_default (codes "launch_attempt") (number launch_attempt)
          (set_default (codes "runtime_id") (text runtime_id) payload))

  unfoldable pub canonical_payload : SignalType → Text → ℕ → Text → Payload → Payload
  unfolding get put text_eq
  canonical_payload heartbeat runtime_id launch_attempt worker_identity payload = payload
  canonical_payload terminated runtime_id launch_attempt worker_identity payload =
      if is_minimal payload
      then payload
      else with_identity runtime_id launch_attempt worker_identity payload
  canonical_payload signal_type runtime_id launch_attempt worker_identity payload =
      with_identity runtime_id launch_attempt worker_identity payload

  -- what `create` is given of the identity and beside it
  pub record Origin : Type 0 where
    pub producer : Text
    pub runtime_id : Text
    pub launch_attempt : ℕ
    pub worker_identity : Text
    pub correlation_id : Option Text
    pub causation_id : Option Text
    pub triggering_event_id : Option Text

  -- `(correlation_id or "").strip() or ...`
  abbrev strip_or_else : Option Text → Text → Text
  strip_or_else none b = b
  strip_or_else (some s) b = or_else (some (strip s)) b

  abbrev pub envelope_of : SignalType → SignalMeta → Origin → Text → Payload → py.Moment → Envelope
  envelope_of signal_type meta o worker payload now =
      let key = identity_key signal_type payload in
      record {
        event_id = event_id o.runtime_id o.launch_attempt meta.event_name key;
        event_type = meta.event_type;
        event_name = meta.event_name;
        event_family = meta.event_family;
        event_version = meta.event_version;
        occurred_at = resolve_occurred_at payload now;
        correlation_id =
            strip_or_else o.correlation_id
              (codes "corr:" ++ o.runtime_id ++ b':' ∷ decimal o.launch_attempt);
        producer = o.producer;
        payload = canonical_payload signal_type o.runtime_id o.launch_attempt worker payload;
        runtime_id = o.runtime_id;
        launch_attempt = o.launch_attempt;
        worker_identity = worker;
        identity_key = key;
        causation_id = some (
            or_else o.triggering_event_id (
              or_else o.causation_id (
                codes "cmd_"
                ++ signal_name signal_type
                ++ b'_' ∷ o.runtime_id
                ++ b'_' ∷ decimal o.launch_attempt)));
      }

  abbrev pub create_with :
      Option SignalMeta → SignalType → Origin → Payload → py.Moment → Outcome EventError Envelope
  create_with none signal_type o payload now = raised unsupported_signal_type
  create_with (some meta) signal_type o payload now = build_envelope (
      envelope_of signal_type meta o
        (or_else (some (strip o.worker_identity))
          (codes "worker:" ++ o.runtime_id ++ b':' ∷ decimal o.launch_attempt))
        payload now)

  unfoldable pub create : SignalType → Origin → Payload → py.Moment → Outcome EventError Envelope
  unfolding signal_meta build_envelope identity_key event_id resolve_occurred_at canonical_payload
      decimal strip
  create signal_type o payload now = create_with (signal_meta signal_type) signal_type o payload now

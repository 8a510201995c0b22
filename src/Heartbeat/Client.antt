-- ===== src/Heartbeat/Client.antt =====
-- The answers of the runtime manager and the client that posts a worker's status.
use swr_ddd.Common.{
  ℕ, Bool, false, ◌||◌, Option, none, some, List, [], ◌∷◌, ◌++◌, leb, ◌==◌, if◌then◌else◌, Outcome,
  returned, raised,
}
use swr_ddd.Common.Text.{Text, codes, strip, is_empty, text_eq}
use swr_ddd.Common.Dict.{Dict, get}
use swr_ddd.Common.Decimal.{decimal}
use swr_ddd.Heartbeat.{
  Library, StatusSource, HeartbeatError, identity_missing, payload_missing, runtime_id_required,
  observed_at_required, srm_decode_failed, runtime_not_found, heartbeat_rejected, validation_error,
  auth_failed, srm_unavailable, unexpected_http_status, srm_network, unsupported_signal,
  srm_base_url_not_configured, owner_resource_id_required, Result, accepted, skipped, refused,
  Metadata, Request, Answer, answered, unreachable, breaks_off, http_call_failed, or_blank,
  details_or, normalize_srm_status_source, Status, build_srm_heartbeat_body,
  join_runtime_status_url,
}

module _ (py : Library) where
  -- `value is True`, of what `get` returns
  abbrev pub option_is_true : Option py.Value → Bool
  option_is_true none = false
  option_is_true (some value) = py.is_true value

  -- `isinstance(parsed, dict) and parsed.get("success") is True`
  abbrev pub says_success : Option (Dict py.Value) → Bool
  says_success none = false
  says_success (some parsed) = option_is_true (get (codes "success") parsed)

  -- the answer 200 or 202 with a body that is not blank
  abbrev pub result_of_success : Option py.Value → Result
  result_of_success none =
      refused srm_decode_failed (some (codes "success response is not valid JSON"))
  result_of_success (some parsed) =
      if says_success (py.as_dict parsed)
      then accepted
      else refused srm_decode_failed (some (codes "success envelope missing success=true"))

  unfoldable pub map_http_result : ℕ → Text → Result
  unfolding strip decimal get
  map_http_result status body =
      let trimmed = strip body in
      let http = some (codes "HTTP " ++ decimal status) in
      if (status == 200) || (status == 202)
      then if is_empty trimmed then accepted else result_of_success (py.loads trimmed)
      else if status == 404
      then refused runtime_not_found (details_or trimmed (codes "runtime not found"))
      else if (status == 409) || (status == 422)
      then refused heartbeat_rejected (details_or trimmed (codes "heartbeat rejected"))
      else if status == 400
      then refused validation_error (details_or trimmed (codes "validation error"))
      else if (status == 401) || (status == 403)
      then refused auth_failed (details_or trimmed (codes "authentication failed"))
      else if leb 500 status
      then refused srm_unavailable http
      else refused unexpected_http_status http

  abbrev pub result_of_answer : Answer → Outcome HeartbeatError Result
  result_of_answer (answered status body) = returned (map_http_result status body)
  result_of_answer (unreachable reason) = returned (refused srm_network (some reason))
  result_of_answer breaks_off = raised http_call_failed

  -- the entries of a signal's payload, as text where the code calls `str`; `observed_at` is `none`
  -- if it is no datetime, `retryable` if it is no Boolean
  pub record Payload : Type 0 where
    pub local_state : Option Text
    pub observed_at : Option py.Moment
    pub source : Option Text
    pub runtime_status : Option Text
    pub health_status : Option Text
    pub reason_code : Option Text
    pub message : Option Text
    pub retryable : Option Bool

  pub record SignalIdentity : Type 0 where
    pub mode : Option Text
    pub runtime_id : Option Text

  pub record Signal : Type 0 where
    pub signal_type : Text
    -- `none` if the entry is no mapping
    pub identity : Option SignalIdentity
    pub payload : Option Payload

  pub record Client : Type 0 where
    pub base_url : Text
    pub owner_resource_id : Text

  -- `__init__`
  abbrev pub new_client : Text → Text → Client
  new_client base_url owner_resource_id = record {
    base_url = strip base_url;
    owner_resource_id = strip owner_resource_id;
  }

  abbrev Sent : Type 0
  Sent = Outcome HeartbeatError Result × List Request

  abbrev pub post_status : (Request → Answer) → Text → Status py → Sent
  post_status http base_url status =
      let request : Request = record {
        url = join_runtime_status_url py base_url status.runtime_id;
        body = build_srm_heartbeat_body py status;
      } in
      (result_of_answer (http request), request ∷ [])

  -- `post_srm_runtime_status`, whose source is one of the two; `when` is `observed_at` or the clock's time
  unfoldable pub post_srm_runtime_status :
      (Request → Answer)
      → Text
      → Text
      → Text
      → Text
      → Text
      → Text
      → py.Moment
      → StatusSource
      → Metadata
      → Bool
      → Sent
  unfolding build_srm_heartbeat_body map_http_result join_runtime_status_url
  post_srm_runtime_status http base_url runtime_id mode owner_resource_id runtime_status
        health_status when source context metadata_empty =
      post_status http base_url record {
        runtime_id = runtime_id;
        mode = mode;
        owner_resource_id = owner_resource_id;
        local_state = some runtime_status;
        observed_at = when;
        source = source;
        runtime_status = some runtime_status;
        health_status = some health_status;
        reason_code = some context.reason_code;
        message = some context.message;
        retryable = context.retryable;
        metadata_empty = metadata_empty;
      }

  -- the body's source is checked before it is sent
  abbrev pub post_with_source :
      (Request → Answer)
      → Client
      → Text
      → Text
      → Payload
      → py.Moment
      → Outcome HeartbeatError StatusSource
      → Sent
  post_with_source http self mode runtime_id p observed_at (raised e) = (raised e, [])
  post_with_source http self mode runtime_id p observed_at (returned source) =
      post_status http self.base_url record {
        runtime_id = runtime_id;
        mode = mode;
        owner_resource_id = self.owner_resource_id;
        local_state = p.local_state;
        observed_at = observed_at;
        source = source;
        runtime_status = p.runtime_status;
        health_status = p.health_status;
        reason_code = p.reason_code;
        message = p.message;
        retryable = p.retryable;
        metadata_empty = false;
      }

  abbrev pub post_observed :
      (Request → Answer) → Client → Text → Text → Payload → Option py.Moment → Sent
  post_observed http self mode runtime_id p none = (raised observed_at_required, [])
  post_observed http self mode runtime_id p (some observed_at) =
      post_with_source http self mode runtime_id p observed_at
        (normalize_srm_status_source py p.source)

  -- a heartbeat with its two mappings
  abbrev pub post_heartbeat : (Request → Answer) → Client → SignalIdentity → Payload → Sent
  post_heartbeat http self identity p =
      let mode = py.upper (strip (or_blank identity.mode)) in
      let runtime_id = strip (or_blank identity.runtime_id) in
      if text_eq mode (codes "BACKTEST")
      then (returned skipped, [])
      else if is_empty self.base_url
      then (returned (refused srm_base_url_not_configured none), [])
      else if is_empty runtime_id
      then (raised runtime_id_required, [])
      else if is_empty self.owner_resource_id
      then (returned (refused owner_resource_id_required none), [])
      else post_observed http self mode runtime_id p p.observed_at

  abbrev pub post_mappings :
      (Request → Answer) → Client → Option SignalIdentity → Option Payload → Sent
  post_mappings http self none payload = (raised identity_missing, [])
  post_mappings http self (some identity) none = (raised payload_missing, [])
  post_mappings http self (some identity) (some p) = post_heartbeat http self identity p

  -- `emit_signal`, with the requests that it sends
  unfoldable pub emit_signal : (Request → Answer) → Client → Signal → Sent
  unfolding text_eq strip build_srm_heartbeat_body map_http_result join_runtime_status_url
      normalize_srm_status_source
  emit_signal http self signal =
      if text_eq signal.signal_type (codes "heartbeat")
      then post_mappings http self signal.identity signal.payload
      else (returned (refused unsupported_signal none), [])

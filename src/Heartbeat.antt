-- ===== src/Heartbeat.antt =====
-- runtime/transport/heartbeat.py: the status of a worker as it is posted to the runtime manager over
-- HTTP. `str.upper`, `urljoin`, `datetime`, `json` and the HTTP call are parameters; the headers with
-- their random request id and the log records are left out.
pub mod Client
pub mod Accepted
mod Tests
use swr_ddd.Common.{
  ℕ, Bool, true, false, ◌&&◌, ◌||◌, not, Option, none, some, List, [], ◌∷◌, ◌++◌, take, leb, ◌==◌,
  if◌then◌else◌, Outcome, returned, raised, ◌>>=◌,
}
use swr_ddd.Common.Text.{Text, codes, strip, is_empty, text_eq, member}
use swr_ddd.Common.Dict.{Dict}
use swr_ddd.Common.Decimal.{decimal}
use swr_ddd.Common.Offsets.{replace_offset}

pub record Library : Type 1 where
  pub Moment : Type 0
  pub is_naive : Moment → Bool
  pub replace_utc : Moment → Moment
  pub to_utc : Moment → Moment
  pub isoformat : Moment → Text
  pub upper : Text → Text
  pub urljoin : Text → Text → Text
  -- a value that `json.loads` returns
  pub Value : Type 0
  -- the dict that a value is, if `isinstance(value, dict)`
  pub as_dict : Value → Option (Dict Value)
  -- `value is True`
  pub is_true : Value → Bool
  -- `json.loads(body)`: `none` where it raises `JSONDecodeError`
  pub loads : Text → Option Value

pub data StatusSource : Type 0 where
  heartbeat update : StatusSource

pub data HeartbeatError : Type 0 where
  unsupported_source identity_missing payload_missing : HeartbeatError
  runtime_id_required observed_at_required http_call_failed : HeartbeatError

-- the reasons of a result that is not accepted
pub data Refusal : Type 0 where
  srm_decode_failed runtime_not_found heartbeat_rejected validation_error auth_failed : Refusal
  srm_unavailable unexpected_http_status srm_network unsupported_signal : Refusal
  srm_base_url_not_configured owner_resource_id_required : Refusal

pub data Result : Type 0 where
  accepted skipped : Result
  -- the reason and the details, if there are any
  refused : Refusal → Option Text → Result

pub record Metadata : Type 0 where
  pub reason_code : Text
  pub message : Text
  pub retryable : Option Bool

-- `runtime_type` is a constant
pub record Body : Type 0 where
  pub runtime_id : Text
  pub mode : Text
  pub owner_resource_id : Text
  pub runtime_status : Text
  pub health_status : Text
  pub source : StatusSource
  pub occurred_at : Text
  pub metadata : Option Metadata

pub record Request : Type 0 where
  pub url : Text
  pub body : Body

-- what the HTTP call gives: an answer, also as an `HTTPError`, a `URLError`, or another exception,
-- such as that of a read that times out or of a body that is not UTF-8
pub data Answer : Type 0 where
  answered : ℕ → Text → Answer
  unreachable : Text → Answer
  breaks_off : Answer

-- `a or b`
abbrev pub or_text : Text → Text → Text
or_text [] b = b
or_text (c ∷ s) b = c ∷ s

-- `value or ""`, and `value or default`
abbrev pub or_blank : Option Text → Text
or_blank none = []
or_blank (some s) = s

-- `trimmed[:256] or default`
abbrev pub details_or : Text → Text → Option Text
details_or trimmed default = some (or_text (take 256 trimmed) default)

-- `s.rstrip("/")`
unfoldable rstrip_slash : Text → Text
rstrip_slash [] = []
rstrip_slash (c ∷ s) =
    let rest = rstrip_slash s in if (c == b'/') && is_empty rest then [] else c ∷ rest

module _ (py : Library) where
  unfoldable pub health_status_for_local_state : Option Text → Text
  unfolding member
  health_status_for_local_state local_state =
      if member (py.upper (strip (or_blank local_state))) (
        codes "INITIALIZING"
        ∷ codes "READY"
        ∷ codes "RUNNING"
        ∷ codes "STOPPING"
        ∷ codes "COMPLETED"
        ∷ [])
      then codes "HEALTHY"
      else codes "UNHEALTHY"

  unfoldable pub format_occurred_at : py.Moment → Text
  unfolding replace_offset
  format_occurred_at value =
      let candidate = if py.is_naive value then py.replace_utc value else value in
      replace_offset (py.isoformat (py.to_utc candidate))

  abbrev pub build_srm_status_metadata : Option Text → Option Text → Option Bool → Metadata
  build_srm_status_metadata reason_code message retryable = record {
    reason_code = strip (or_blank reason_code);
    message = strip (or_blank message);
    retryable = retryable;
  }

  unfoldable pub normalize_srm_status_source : Option Text → Outcome HeartbeatError StatusSource
  unfolding text_eq
  normalize_srm_status_source value =
      let candidate = py.upper (strip (or_text (or_blank value) (codes "HEARTBEAT"))) in
      if text_eq candidate (codes "HEARTBEAT")
      then returned heartbeat
      else if text_eq candidate (codes "UPDATE")
      then returned update
      else raised unsupported_source

  abbrev health_or : Option Text → Text → Text
  health_or none phase = health_status_for_local_state (some phase)
  health_or (some h) phase = py.upper (strip h)

  -- what the body is made of
  pub record Status : Type 0 where
    pub runtime_id : Text
    pub mode : Text
    pub owner_resource_id : Text
    pub local_state : Option Text
    pub observed_at : py.Moment
    pub source : StatusSource
    pub runtime_status : Option Text
    pub health_status : Option Text
    pub reason_code : Option Text
    pub message : Option Text
    pub retryable : Option Bool
    pub metadata_empty : Bool

  unfoldable pub build_srm_heartbeat_body : Status → Body
  unfolding format_occurred_at health_status_for_local_state strip
  build_srm_heartbeat_body s =
      let phase = py.upper (strip (or_blank s.local_state)) in
      record {
        runtime_id = s.runtime_id;
        mode = py.upper (strip s.mode);
        owner_resource_id = s.owner_resource_id;
        runtime_status = py.upper (strip (or_text (or_blank s.runtime_status) phase));
        health_status = health_or s.health_status phase;
        source = s.source;
        occurred_at = format_occurred_at s.observed_at;
        metadata =
            if s.metadata_empty
            then none
            else some (build_srm_status_metadata s.reason_code s.message s.retryable);
      }

  unfoldable pub join_runtime_status_url : Text → Text → Text
  unfolding strip rstrip_slash
  join_runtime_status_url base_url runtime_id =
      py.urljoin (rstrip_slash (strip base_url) ++ b'/' ∷ [])
        (codes "internal/v1/runtimes/" ++ strip runtime_id ++ codes "/status")

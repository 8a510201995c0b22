-- ===== src/Gateway/Payloads.antt =====
-- The public calls of the gateway but `emit_bootstrap_failed`: the payload of each signal. Truth
-- values and details are other values of a payload.
use swr_ddd.Common.{
  Option, none, some, [], ◌∷◌, ◌++◌, if◌then◌else◌, Outcome, returned, raised, ◌>>=◌,
}
use swr_ddd.Common.Text.{Text, codes, text_eq}
use swr_ddd.Reason.{
  nothing, policy_violation, ReasonError, normalize, normalize_runtime_reason_code,
  worker_error_code_for_reason,
}
use swr_ddd.Events.{
  SignalType, bootstrap_succeeded, heartbeat, unhealthy, controlled_stop, terminated,
}
use swr_ddd.Events.Envelope.{Python, Value, null, text, moment, other, Payload}
use swr_ddd.Gateway.{
  RuntimeIdentity, GatewayError, reason_refused, Surroundings, Gateway, Emitted, emit,
}

module _ (py : Python) where
  abbrev optional_text : Option Text → Value py.Moment py.Other
  optional_text none = null
  optional_text (some s) = text s

  -- `if value is not None: payload[key] = value`
  abbrev text_entry_if : Text → Option Text → Payload py
  text_entry_if key none = []
  text_entry_if key (some s) = (key, text s) ∷ []

  abbrev moment_entry_if : Text → Option py.Moment → Payload py
  moment_entry_if key none = []
  moment_entry_if key (some m) = (key, moment m) ∷ []

  abbrev other_entry_if : Text → Option py.Other → Payload py
  other_entry_if key none = []
  other_entry_if key (some o) = (key, other o) ∷ []

  -- the normalized reason and its error code
  abbrev reason_entries : Text → Outcome ReasonError (Payload py)
  reason_entries reason = do
    error_code ← worker_error_code_for_reason reason
    returned ((codes "reason_code", text reason) ∷ (codes "error_code", text error_code) ∷ [])

  -- without a reason the default of the normalization
  abbrev given : Option Text → Text
  given none = normalize_runtime_reason_code nothing policy_violation
  given (some s) = normalize s

  -- the payload of `emit_bootstrap_succeeded`, with `dict(details or {})`
  unfoldable pub bootstrap_succeeded_payload :
      Option Text → py.Moment → py.Other → Option Text → Payload py
  bootstrap_succeeded_payload local_state occurred_at details triggering =
      (codes "local_state", optional_text local_state)
      ∷ (codes "occurred_at", moment occurred_at)
      ∷ (codes "details", other details)
      ∷ text_entry_if (codes "triggering_event_id") triggering

  -- the payload of `emit_heartbeat`
  unfoldable pub heartbeat_payload :
      Option Text
      → py.Moment
      → Option Text
      → Text
      → Option Text
      → Option Text
      → Option py.Other
      → Payload py
  heartbeat_payload local_state observed_at triggering source reason_code message retryable =
      (codes "local_state", optional_text local_state)
      ∷ (codes "observed_at", moment observed_at)
      ∷ (codes "source", text source)
      ∷ (text_entry_if (codes "triggering_event_id") triggering
          ++ text_entry_if (codes "reason_code") reason_code
          ++ text_entry_if (codes "message") message
          ++ other_entry_if (codes "retryable") retryable)

  -- the payload of `emit_unhealthy`
  unfoldable pub unhealthy_payload :
      py.Moment → py.Moment → Text → py.Other → Option Text → Outcome ReasonError (Payload py)
  unfolding normalize worker_error_code_for_reason
  unhealthy_payload occurred_at observed_at reason_code details triggering = do
    reasons ← reason_entries (normalize reason_code)
    returned (
        reasons
        ++ (codes "details", other details)
          ∷ (codes "occurred_at", moment occurred_at)
          ∷ (codes "observed_at", moment observed_at)
          ∷ text_entry_if (codes "triggering_event_id") triggering)

  -- the payload of `emit_controlled_stop`
  unfoldable pub controlled_stop_payload :
      py.Moment → Option Text → Option Text → Outcome ReasonError (Payload py)
  unfolding normalize normalize_runtime_reason_code worker_error_code_for_reason
  controlled_stop_payload occurred_at reason_code triggering = do
    reasons ← reason_entries (given reason_code)
    returned (
        reasons
        ++ (codes "occurred_at", moment occurred_at)
          ∷ text_entry_if (codes "triggering_event_id") triggering)

  -- the payload of a local termination, and that of any other
  abbrev terminated_entries :
      py.Moment
      → Text
      → Text
      → Option Text
      → Option py.Moment
      → Option Text
      → Payload py
      → Payload py
  terminated_entries occurred_at local_state reason message observed_at triggering reasons =
      let minimal : Payload py = (codes "local_state", text local_state) ∷ reasons in
      if text_eq reason (codes "LOCAL_TERMINATION_OBSERVED")
      then minimal
      else ((codes "occurred_at", moment occurred_at)
          ∷ (minimal
              ++ text_entry_if (codes "message") message
              ++ moment_entry_if (codes "observed_at") observed_at
              ++ text_entry_if (codes "triggering_event_id") triggering))

  -- the payload of `emit_terminated`
  unfoldable pub terminated_payload :
      py.Moment
      → Text
      → Text
      → Option Text
      → Option py.Moment
      → Option Text
      → Outcome ReasonError (Payload py)
  unfolding normalize worker_error_code_for_reason text_eq
  terminated_payload occurred_at local_state reason_code message observed_at triggering = do
    reasons ← reason_entries (normalize reason_code)
    returned (
        terminated_entries occurred_at local_state (normalize reason_code) message observed_at
          triggering reasons)

  module _ (w : Surroundings py) (r : RuntimeIdentity) (now : py.Moment) where
    -- `return self._emit(...)` once the payload is made
    abbrev emit_made :
        SignalType
        → Outcome ReasonError (Payload py)
        → Gateway py
        → Outcome GatewayError Emitted × Gateway py
    emit_made signal_type (raised e) g = (raised reason_refused, g)
    emit_made signal_type (returned payload) g = emit py w r signal_type payload now g

    unfoldable pub emit_bootstrap_succeeded :
        Option Text
        → py.Moment
        → py.Other
        → Option Text
        → Gateway py
        → Outcome GatewayError Emitted × Gateway py
    unfolding emit bootstrap_succeeded_payload
    emit_bootstrap_succeeded local_state occurred_at details triggering =
        emit_made bootstrap_succeeded
          (returned (bootstrap_succeeded_payload local_state occurred_at details triggering))

    unfoldable pub emit_heartbeat :
        Option Text
        → py.Moment
        → Option Text
        → Text
        → Option Text
        → Option Text
        → Option py.Other
        → Gateway py
        → Outcome GatewayError Emitted × Gateway py
    unfolding emit heartbeat_payload
    emit_heartbeat local_state observed_at triggering source reason_code message retryable =
        emit_made heartbeat (
          returned (
            heartbeat_payload local_state observed_at triggering source reason_code message
              retryable))

    unfoldable pub emit_unhealthy :
        py.Moment
        → py.Moment
        → Text
        → py.Other
        → Option Text
        → Gateway py
        → Outcome GatewayError Emitted × Gateway py
    unfolding emit unhealthy_payload
    emit_unhealthy occurred_at observed_at reason_code details triggering =
        emit_made unhealthy
          (unhealthy_payload occurred_at observed_at reason_code details triggering)

    unfoldable pub emit_controlled_stop :
        py.Moment
        → Option Text
        → Option Text
        → Gateway py
        → Outcome GatewayError Emitted × Gateway py
    unfolding emit controlled_stop_payload
    emit_controlled_stop occurred_at reason_code triggering =
        emit_made controlled_stop (controlled_stop_payload occurred_at reason_code triggering)

    unfoldable pub emit_terminated :
        py.Moment
        → Text
        → Text
        → Option Text
        → Option py.Moment
        → Option Text
        → Gateway py
        → Outcome GatewayError Emitted × Gateway py
    unfolding emit terminated_payload
    emit_terminated occurred_at local_state reason_code message observed_at triggering =
        emit_made terminated
          (terminated_payload occurred_at local_state reason_code message observed_at triggering)

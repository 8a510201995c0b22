-- ===== src/Gateway/Tests.antt =====
-- The theorems on the manager gateway at a small client.
use swr_ddd.Common.{ℕ, ◌≤◌, true, false, none, some, List, [], ◌∷◌, ◌≡◌, refl, returned}
use swr_ddd.Common.Text.{Text, codes, strip, text_eq}
use native.Mathlib.Decide.{dec_lt}
use swr_ddd.Common.Decimal.{decimal}
use swr_ddd.Common.Dict.{get, put}
use swr_ddd.Events.{SignalType, bootstrap_failed, signal_meta}
use swr_ddd.Events.Dedupe.{empty, drop_duplicate, decide, seen_before}
use swr_ddd.Events.Envelope.{
  Python, text, moment, number, Payload, Envelope, create, identity_key, event_id,
  canonical_payload, build_envelope, resolve_occurred_at,
}
use swr_ddd.Gateway.{
  RuntimeIdentity, Surroundings, Gateway, suppressed, prepare, emit, validate_required_fields,
  identity_payload,
}
use swr_ddd.Gateway.Failed.{count_failed, emit_all, failed_launch_once}
use swr_ddd.Gateway.Retry.{lost_when_client_fails}

abbrev small_python : Python
small_python = record {
  Moment = ℕ;
  Other = Text;
  is_true = λ o. true;
  is_naive = λ m. false;
  replace_utc = λ m. m;
  str_of = λ value. codes "value";
  canonical_json = λ d. codes "{}";
  sha256_hex = λ s. s;
}

abbrev small_worker : RuntimeIdentity
small_worker = record {
  runtime_id = codes "r1";
  tenant_id = codes "t";
  trader_id = none;
  account_id = none;
  strategy_version_id = codes "v";
  mode = codes "PAPER";
  launch_attempt = 1;
  worker_identity = some (codes "w");
  correlation_id = none;
  causation_id = none;
}

-- a client that raises every time
abbrev broken_client : Surroundings small_python
broken_client = record {
  observer_raises = λ e. false;
  has_emit_signal = true;
  client_raises = λ sent. true;
}

abbrev failure : Text → Payload small_python
failure detail = (codes "occurred_at", moment 7) ∷ (codes "details", text detail) ∷ []

abbrev failures : List (SignalType × Payload small_python × ℕ)
failures =
    (bootstrap_failed, failure (codes "a"), 8) ∷ (bootstrap_failed, failure (codes "b"), 9) ∷ []

failed_once_example :
    count_failed small_python
      (emit_all small_python small_worker broken_client failures
        (record { dedupe = empty; sent = [] })).sent
    ≤ 1
failed_once_example = failed_launch_once small_python small_worker broken_client failures

abbrev new_gateway : Gateway small_python
new_gateway = record { dedupe = empty; sent = [] }

-- the event of the first failure
abbrev first_event : Envelope small_python
first_event = record {
  event_id = codes "r1:1:runtime.launch_failed:r1:1:runtime.launch_fail";
  event_type = codes "worker.lifecycle.bootstrap_failed";
  event_name = codes "runtime.launch_failed";
  event_family = codes "bootstrap";
  event_version = 1;
  occurred_at = 7;
  correlation_id = codes "corr:r1:1";
  producer = codes "strategy-worker-runtime";
  payload =
      (codes "occurred_at", moment 7)
      ∷ (codes "details", text (codes "a"))
      ∷ (codes "runtime_id", text (codes "r1"))
      ∷ (codes "launch_attempt", number 1)
      ∷ (codes "worker_identity", text (codes "w"))
      ∷ [];
  runtime_id = codes "r1";
  launch_attempt = 1;
  worker_identity = codes "w";
  identity_key = codes "bootstrap_failed";
  causation_id = some (codes "cmd_bootstrap_failed_r1_1");
}

lost_example :
    emit small_python broken_client small_worker bootstrap_failed
      (failure (codes "a"))
      8
      (emit small_python broken_client small_worker bootstrap_failed
        (failure (codes "a"))
        8
        new_gateway).1
    ≡ (
      returned (suppressed drop_duplicate),
      (emit small_python broken_client small_worker bootstrap_failed
          (failure (codes "a"))
          8
          new_gateway).1,
    )
unfolding emit prepare strip decimal get put text_eq create validate_required_fields
    identity_payload identity_key event_id canonical_payload build_envelope resolve_occurred_at
    signal_meta decide seen_before dec_lt
lost_example =
    lost_when_client_fails small_python broken_client small_worker bootstrap_failed
      (failure (codes "a")) 8 new_gateway first_event refl refl

-- ===== src/Heartbeat/Tests.antt =====
-- The theorem on the heartbeat client at a small manager.
use swr_ddd.Common.{ℕ, Bool, false, [], ◌∷◌, none, some, ◌++◌}
use swr_ddd.Common.Text.{codes, upper, text_eq}
use swr_ddd.Heartbeat.Client.{Signal, new_client, emit_signal}
use swr_ddd.Heartbeat.{Library, Request, Answer, answered}
use swr_ddd.Heartbeat.Accepted.{Accepts, is_backtest, emit_signal-Accepts}

abbrev small_library : Library
small_library = record {
  Moment = ℕ;
  is_naive = λ m. false;
  replace_utc = λ m. m;
  to_utc = λ m. m;
  isoformat = λ m. codes "2024-01-02T03:04:05+00:00";
  upper = upper;
  urljoin = λ base path. base ++ path;
  Value = Bool;
  as_dict = λ value. some ((codes "success", value) ∷ []);
  is_true = λ value. value;
  loads = λ body. some (text_eq body (codes "ok"));
}

abbrev live_heartbeat : Signal small_library
live_heartbeat = record {
  signal_type = codes "heartbeat";
  identity = some (record { mode = some (codes "LIVE"); runtime_id = some (codes "r1") });
  payload = some (record {
    local_state = some (codes "RUNNING");
    observed_at = some 7;
    source = none;
    runtime_status = none;
    health_status = none;
    reason_code = none;
    message = none;
    retryable = none;
  });
}

abbrev taken : Request → Answer
taken request = answered 202 (codes "ok")

heartbeat_sent_example : Accepts small_library taken (is_backtest small_library live_heartbeat) (
    emit_signal small_library taken
      (new_client small_library (codes "http://srm") (codes "pod"))
      live_heartbeat)
heartbeat_sent_example =
    emit_signal-Accepts small_library taken
      (new_client small_library (codes "http://srm") (codes "pod")) live_heartbeat

-- ===== src/MarketData/Decoding/Agreement.antt =====
-- `classify_stream_payload_failure` against `stream_payload_to_tick`.
use swr_ddd.Common.{
  Bool, true, false, not, Option, none, some, ◌≡◌, refl, arith, Outcome, returned, raised, ◌>>=◌,
  is_some,
}
use swr_ddd.Common.Text.{Text, is_empty, strip}
use swr_ddd.MarketData.Streams.{MarketDataRedisKeys}
use swr_ddd.MarketData.Decoding.{
  IngressError, Python, Document, object, not_object, Tick, DropReason, stream_payload_to_tick,
  classify_stream_payload_failure, reason_if_dropped, classify_document, tick_of_document,
  tick_of_object,
}

module _ (py : Python) (keys : MarketDataRedisKeys) (bar_timeframe : Text) where
  -- a tick was made
  abbrev pub makes_tick : Outcome IngressError (Option (Tick py.Number)) → Outcome IngressError Bool
  makes_tick m = m >>= λ tick. returned (is_some tick)

  -- no reason was given
  abbrev pub gives_no_reason : Outcome IngressError (Option DropReason) → Outcome IngressError Bool
  gives_no_reason m = m >>= λ reason. returned (not (is_some reason))

  reason_of_tick :
      (m : Outcome IngressError (Option (Tick py.Number)))
      → gives_no_reason (m >>= λ tick. returned (reason_if_dropped py keys bar_timeframe tick))
        ≡ makes_tick m
  reason_of_tick (returned none) = refl
  reason_of_tick (returned (some tick)) = refl
  reason_of_tick (raised e) = refl

  document_agrees :
      (stream field raw message_id : Text) (d : Option (Document py.Value))
      → py.loads raw ≡ d
      → gives_no_reason (classify_document py keys bar_timeframe stream field raw message_id d)
        ≡ makes_tick (tick_of_document py keys bar_timeframe stream field message_id d)
  unfolding stream_payload_to_tick
  document_agrees stream field raw message_id none e = refl
  document_agrees stream field raw message_id (some not_object) e = refl
  document_agrees stream field raw message_id (some (object obj)) e = rw e (
      ground
        (arith, reason_of_tick (tick_of_object py keys bar_timeframe stream field message_id obj)))

  blank_agrees :
      (stream field raw message_id : Text)
      → py.loads raw ≡ none
      → makes_tick (stream_payload_to_tick py keys bar_timeframe stream field raw message_id)
        ≡ returned false
  unfolding stream_payload_to_tick
  blank_agrees stream field raw message_id e = rw e refl

  -- When `json.loads` refuses a blank text, a payload gets a reason exactly when it gives no tick, and
  -- both raise alike.
  pub classify-Agrees :
      (stream field raw message_id : Text)
      → (is_empty (strip raw) ≡ true → py.loads raw ≡ none)
      → gives_no_reason
          (classify_stream_payload_failure py keys bar_timeframe stream field raw message_id)
        ≡ makes_tick (stream_payload_to_tick py keys bar_timeframe stream field raw message_id)
  unfolding classify_stream_payload_failure stream_payload_to_tick
  classify-Agrees stream field raw message_id blank = ground (
    arith,
    document_agrees stream field raw message_id (py.loads raw) refl,
    blank_agrees stream field raw message_id,
    blank,
  )

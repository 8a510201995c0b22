-- ===== src/MarketData/Decoding.antt =====
-- From a field of a stream entry to a tick: `stream_payload_to_tick`,
-- `classify_stream_payload_failure` and the three `*_message_to_tick`. Python's `json`, `float`,
-- `str`, `str.upper` and `datetime` are parameters.
pub mod Agreement
use swr_ddd.Common.{
  ℕ, Bool, true, false, not, ◌&&◌, ◌||◌, Option, none, some, List, [], ◌∷◌, ◌++◌, ◌==◌,
  if◌then◌else◌, ℤ, Outcome, returned, raised, ◌>>=◌, is_some,
}
use swr_ddd.Common.Text.{Text, codes, is_empty, strip}
use swr_ddd.Common.Offsets.{replace_z}
use swr_ddd.Common.Dict.{Dict, get}
use swr_ddd.MarketData.Names.{or_text}
use swr_ddd.MarketData.Streams.{MarketDataRedisKeys, stream_feed_matches}

-- what `json.loads` returns
pub data Document {ℓ} (V : Type ℓ) : Type ℓ where
  object : Dict V → Document V
  not_object : Document V

-- the exceptions that leave the ingress
pub data IngressError : Type 0 where
  bad_number redis_failed : IngressError

pub record Python : Type 1 where
  -- the values of a JSON object, and `float`
  pub Value : Type 0
  pub Number : Type 0
  pub Moment : Type 0
  -- `none` where `json.loads` raises `JSONDecodeError`
  pub loads : Text → Option (Document Value)
  pub truthy : Value → Bool
  pub str : Value → Text
  -- `float(value)`; `none` where it raises
  pub float : Value → Option Number
  pub zero_float : Number
  pub upper : Text → Text
  -- `datetime.fromisoformat`; `none` where it raises `ValueError`
  pub fromisoformat : Text → Option Moment
  pub is_aware : Moment → Bool
  pub replace_utc : Moment → Moment
  -- `int((aware.astimezone(timezone.utc) - UTC_EPOCH).total_seconds() * 1000)`
  pub millis_since_epoch : Moment → ℤ

-- `s.endswith("+00")`, and then `s[:-3] + "+00:00"`. A text that ends so has no `+00:00` at its end.
unfoldable pub complete_offset : Text → Text
complete_offset [] = []
complete_offset (a ∷ []) = a ∷ []
complete_offset (a ∷ b ∷ []) = a ∷ b ∷ []
complete_offset (a ∷ b ∷ c ∷ []) =
    if (a == b'+') && (b == b'0') && (c == b'0') then codes "+00:00" else a ∷ b ∷ c ∷ []
complete_offset (a ∷ b ∷ c ∷ d ∷ s) = a ∷ complete_offset (b ∷ c ∷ d ∷ s)

pub record Bar (N : Type 0) : Type 0 where
  pub timeframe : Text
  -- `open` in the source
  pub open_price : N
  pub high : N
  pub low : N
  pub close : N
  pub volume : N

pub record Trade (N : Type 0) : Type 0 where
  pub price : N
  pub size : N

pub record Quote (N : Type 0) : Type 0 where
  pub bid : N
  pub ask : N
  pub bid_size : N
  pub ask_size : N

pub data Payload (N : Type 0) : Type 0 where
  bar : Bar N → Payload N
  trade : Trade N → Payload N
  quote : Quote N → Payload N

-- The dict that is handed to the strategy. `type` and `event_type` follow from the payload, and
-- `instrument_id` is the symbol.
pub record Tick (N : Type 0) : Type 0 where
  pub event_id : Text
  pub symbol : Text
  pub ts_ms : ℤ
  pub event_time : Text
  pub payload : Payload N

pub data DropReason : Type 0 where
  empty_payload json_decode_error payload_not_object : DropReason
  unknown_stream_family validation_failed_time_or_symbol : DropReason

module _ (py : Python) where
  -- runtime/integration/epoch_time.py
  abbrev utc_datetime_to_epoch_millis : py.Moment → ℤ
  utc_datetime_to_epoch_millis m =
      py.millis_since_epoch (if py.is_aware m then m else py.replace_utc m)

  abbrev parsed_millis : Option py.Moment → Option ℤ
  parsed_millis none = none
  parsed_millis (some m) =
      some (utc_datetime_to_epoch_millis (if py.is_aware m then m else py.replace_utc m))

  unfoldable pub time_utc_to_epoch_ms : Text → Option ℤ
  unfolding replace_z complete_offset
  time_utc_to_epoch_ms time_utc =
      let raw = strip time_utc in
      if is_empty raw
      then none
      else parsed_millis (py.fromisoformat (complete_offset (replace_z raw)))

  -- `str(obj.get(key) or default)`
  abbrev text_or : Option py.Value → Text → Text
  text_or none default = default
  text_or (some v) default = if py.truthy v then py.str v else default

  -- `float(value)`
  abbrev float_or_raise : Option py.Number → Outcome IngressError py.Number
  float_or_raise none = raised bad_number
  float_or_raise (some x) = returned x

  -- `float(obj.get(key) or 0.0)`
  abbrev float_or_zero : Option py.Value → Outcome IngressError py.Number
  float_or_zero none = returned py.zero_float
  float_or_zero (some v) =
      if py.truthy v then float_or_raise (py.float v) else returned py.zero_float

  -- the numbers of a bar, in the order in which they are converted
  abbrev bar_payload : Dict py.Value → Text → Outcome IngressError (Payload py.Number)
  bar_payload obj timeframe = do
    open_price ← float_or_zero (get (codes "open") obj)
    high ← float_or_zero (get (codes "high") obj)
    low ← float_or_zero (get (codes "low") obj)
    close ← float_or_zero (get (codes "close") obj)
    volume ← float_or_zero (get (codes "volume") obj)
    returned (
        bar record {
          timeframe = or_text (strip timeframe) (codes "1m");
          open_price = open_price;
          high = high;
          low = low;
          close = close;
          volume = volume;
        })

  abbrev trade_payload : Dict py.Value → Outcome IngressError (Payload py.Number)
  trade_payload obj = do
    price ← float_or_zero (get (codes "price") obj)
    size ← float_or_zero (get (codes "size") obj)
    returned (trade record { price = price; size = size })

  abbrev quote_payload : Dict py.Value → Outcome IngressError (Payload py.Number)
  quote_payload obj = do
    bid ← float_or_zero (get (codes "bid_price") obj)
    ask ← float_or_zero (get (codes "ask_price") obj)
    bid_size ← float_or_zero (get (codes "bid_size") obj)
    ask_size ← float_or_zero (get (codes "ask_size") obj)
    returned (quote record { bid = bid; ask = ask; bid_size = bid_size; ask_size = ask_size })

  abbrev Decoded : Type 0
  Decoded = Outcome IngressError (Option (Tick py.Number))

  -- What the three functions share. The numbers are converted only when the time and the symbol are
  -- good; `name` is `bar`, `trade` or `quote`.
  unfoldable pub message_to_tick :
      Text → Dict py.Value → Text → Text → Outcome IngressError (Payload py.Number) → Decoded
  unfolding get time_utc_to_epoch_ms
  message_to_tick name obj stream_id field payload =
      let time_utc = strip (text_or (get (codes "time_utc") obj) []) in
      let sym = strip (text_or (get (codes "symbol") obj) field) in
      let event_id = codes "md:" ++ name ++ b':' ∷ stream_id ++ b':' ∷ field in
      elim (time_utc_to_epoch_ms time_utc) [
        | none ↦ returned none
        | some ts_ms ↦
            if is_empty sym
            then returned none
            else payload >>= λ p. returned (
                some record {
                  event_id = event_id;
                  symbol = sym;
                  ts_ms = ts_ms;
                  event_time = time_utc;
                  payload = p;
                })
      ]

  abbrev pub bar_message_to_tick : Dict py.Value → Text → Text → Text → Decoded
  bar_message_to_tick obj stream_id field bar_timeframe =
      message_to_tick (codes "bar") obj stream_id field (bar_payload obj bar_timeframe)

  abbrev pub trade_message_to_tick : Dict py.Value → Text → Text → Decoded
  trade_message_to_tick obj stream_id field =
      message_to_tick (codes "trade") obj stream_id field (trade_payload obj)

  abbrev pub quote_message_to_tick : Dict py.Value → Text → Text → Decoded
  quote_message_to_tick obj stream_id field =
      message_to_tick (codes "quote") obj stream_id field (quote_payload obj)

  module _ (keys : MarketDataRedisKeys) (bar_timeframe : Text) where
    -- the family's function, by the stream's name
    abbrev tick_of_object : Text → Text → Text → Dict py.Value → Decoded
    tick_of_object stream field message_id obj =
        if stream_feed_matches stream keys.stream_bars_1m
        then bar_message_to_tick obj message_id field bar_timeframe
        else if stream_feed_matches stream keys.stream_trades
        then trade_message_to_tick obj message_id field
        else if stream_feed_matches stream keys.stream_quotes
        then quote_message_to_tick obj message_id field
        else returned none

    abbrev tick_of_document : Text → Text → Text → Option (Document py.Value) → Decoded
    tick_of_document stream field message_id none = returned none
    tick_of_document stream field message_id (some not_object) = returned none
    tick_of_document stream field message_id (some (object obj)) =
        tick_of_object stream field message_id obj

    unfoldable pub stream_payload_to_tick : Text → Text → Text → Text → Decoded
    unfolding message_to_tick
    stream_payload_to_tick stream field raw_json message_id =
        tick_of_document stream field message_id (py.loads raw_json)

    abbrev reason_if_dropped : Option (Tick py.Number) → Option DropReason
    reason_if_dropped none = some validation_failed_time_or_symbol
    reason_if_dropped (some tick) = none

    abbrev classify_document :
        Text
        → Text
        → Text
        → Text
        → Option (Document py.Value)
        → Outcome IngressError (Option DropReason)
    classify_document stream field raw message_id none = returned (some json_decode_error)
    classify_document stream field raw message_id (some not_object) =
        returned (some payload_not_object)
    classify_document stream field raw message_id (some (object obj)) =
        if not (
          stream_feed_matches stream keys.stream_bars_1m
          || stream_feed_matches stream keys.stream_trades
          || stream_feed_matches stream keys.stream_quotes)
        then returned (some unknown_stream_family)
        else stream_payload_to_tick stream field raw message_id >>= λ tick.
            returned (reason_if_dropped tick)

    unfoldable pub classify_stream_payload_failure :
        Text → Text → Text → Text → Outcome IngressError (Option DropReason)
    unfolding stream_payload_to_tick
    classify_stream_payload_failure stream field raw message_id =
        if is_empty (strip raw)
        then returned (some empty_payload)
        else classify_document stream field raw message_id (py.loads raw)

-- ===== src/MarketData/Streams.antt =====
-- The Redis streams that a worker reads: `resolve_stream_names`, `expand_market_data_stream_keys`,
-- `partitions_for_realtime_subscribe` and `_stream_feed_matches`, with `market_data_partition` and
-- the time frames of bar_timeframe.py. zlib's CRC is a parameter. A set is the list of its elements
-- in the order in which it is iterated.
pub mod Partitions
pub mod Known
use swr_ddd.Common.{
  ℕ, zero, suc, ◌%◌, ◌^◌, Bool, true, false, ◌&&◌, ◌||◌, not, Option, none, some, List, [], ◌∷◌,
  ◌++◌, map, leb, ◌==◌, if◌then◌else◌, ◌≡◌, refl, ℤ, pos, negsuc, below_one,
}
use swr_ddd.Common.Text.{Text, codes, text_eq, is_empty, strip, lower, starts_with, member}
use swr_ddd.Common.Decimal.{decimal}
use swr_ddd.Common.Dict.{Dict, get}
use swr_ddd.MarketData.Names.{or_text, strip_or_blank}

pub record MarketDataRedisKeys : Type 0 where
  pub stream_trades : Text
  pub stream_quotes : Text
  pub stream_bars_1m : Text

abbrev pub default_market_data_redis_keys : MarketDataRedisKeys
default_market_data_redis_keys = record {
  stream_trades = codes "md:stream:trades";
  stream_quotes = codes "md:stream:quotes";
  stream_bars_1m = codes "md:stream:am";
}

-- `_PUBSUB_PREFIX_TO_STREAM`
abbrev pubsub_prefix_to_stream : Dict Text
pubsub_prefix_to_stream =
    (codes "md:realtime:trades", codes "md:stream:trades")
    ∷ (codes "md:realtime:quotes", codes "md:stream:quotes")
    ∷ (codes "md:realtime:bars", codes "md:stream:am")
    ∷ []

module _ (casefold : Text → Text) where
  -- the loop over the table, for a text that is not blank
  abbrev stream_for_prefix : Text → Text → Dict Text → Text
  stream_for_prefix s low [] = s
  stream_for_prefix s low ((channel, stream) ∷ table) =
      let rest = stream_for_prefix s low table in
      if text_eq low (casefold channel) then stream else rest

  unfoldable pub normalize_stream_prefix_for_xread : Text → Text
  normalize_stream_prefix_for_xread raw =
      let s = strip raw in
      if is_empty s then s else stream_for_prefix s (casefold s) pubsub_prefix_to_stream

  -- the three settings, each of which may be missing
  unfoldable pub market_data_redis_keys_from_settings :
      Option Text → Option Text → Option Text → MarketDataRedisKeys
  unfolding normalize_stream_prefix_for_xread
  market_data_redis_keys_from_settings trades quotes bars =
      let d = default_market_data_redis_keys in
      record {
        stream_trades =
            normalize_stream_prefix_for_xread (or_text (strip_or_blank trades) d.stream_trades);
        stream_quotes =
            normalize_stream_prefix_for_xread (or_text (strip_or_blank quotes) d.stream_quotes);
        stream_bars_1m =
            normalize_stream_prefix_for_xread (or_text (strip_or_blank bars) d.stream_bars_1m);
      }

abbrev timeframe_aliases : Dict Text
timeframe_aliases =
    (codes "1min", codes "1m")
    ∷ (codes "60s", codes "1m")
    ∷ (codes "60sec", codes "1m")
    ∷ (codes "m1", codes "1m")
    ∷ []

-- `d.get(key, default)`
abbrev get_or : Option Text → Text → Text
get_or none default = default
get_or (some v) default = v

unfoldable pub normalize_bar_timeframe_label : Text → Text
unfolding get
normalize_bar_timeframe_label raw = let t = lower (strip raw) in get_or (get t timeframe_aliases) t

unfoldable pub redis_md_stream_am_supports_timeframe : Text → Bool
unfolding normalize_bar_timeframe_label
redis_md_stream_am_supports_timeframe bar_timeframe =
    text_eq (normalize_bar_timeframe_label bar_timeframe) (codes "1m")

abbrev feed_to_stream : MarketDataRedisKeys → Dict Text
feed_to_stream keys =
    (codes "trades", keys.stream_trades)
    ∷ (codes "quotes", keys.stream_quotes)
    ∷ (codes "bars", keys.stream_bars_1m)
    ∷ []

-- `(bar_timeframe or "1m").strip() or "1m"`
abbrev pub timeframe_or_1m : Option Text → Text
timeframe_or_1m none = codes "1m"
timeframe_or_1m (some []) = codes "1m"
timeframe_or_1m (some (c ∷ s)) = or_text (strip (c ∷ s)) (codes "1m")

-- `if key is not None and key not in out: out.append(key)`
unfoldable pub append_new : Option Text → List Text → List Text
append_new none out = out
append_new (some key) out = if member key out then out else out ++ key ∷ []

-- the stream of one feed of the loop, if it is not left out
unfoldable pub stream_of_feed : MarketDataRedisKeys → Text → Text → Option Text
unfolding redis_md_stream_am_supports_timeframe get
stream_of_feed keys tf f =
    let fl = lower (strip f) in
    if text_eq fl (codes "bars") && not (redis_md_stream_am_supports_timeframe tf)
    then none
    else get fl (feed_to_stream keys)

unfoldable pub resolve_loop : MarketDataRedisKeys → Text → List Text → List Text → List Text
unfolding stream_of_feed append_new
resolve_loop keys tf [] out = out
resolve_loop keys tf (f ∷ feeds) out =
    resolve_loop keys tf feeds (append_new (stream_of_feed keys tf f) out)

unfoldable pub resolve_stream_names : List Text → Option Text → MarketDataRedisKeys → List Text
unfolding resolve_loop
resolve_stream_names feeds bar_timeframe keys =
    resolve_loop keys (timeframe_or_1m bar_timeframe) feeds []

-- `_stream_feed_matches`
unfoldable pub stream_feed_matches : Text → Text → Bool
stream_feed_matches stream_name stream_base =
    text_eq stream_name stream_base || starts_with stream_name (stream_base ++ b':' ∷ [])

-- `p in values`
unfoldable pub among : ℕ → List ℕ → Bool
among p [] = false
among p (q ∷ qs) = (p == q) || among p qs

-- `sorted(values)`
unfoldable pub insert_sorted : ℕ → List ℕ → List ℕ
insert_sorted p [] = p ∷ []
insert_sorted p (q ∷ qs) = let rest = insert_sorted p qs in if leb p q then p ∷ q ∷ qs else q ∷ rest

unfoldable pub sorted : List ℕ → List ℕ
unfolding insert_sorted
sorted [] = []
sorted (p ∷ ps) = insert_sorted p (sorted ps)

-- `range(start, start + n)`
unfoldable pub range_from : ℕ → ℕ → List ℕ
range_from start zero = []
range_from start (suc n) = start ∷ range_from (suc start) n

-- `f"{base}:{p}"`
abbrev pub partitioned : Text → ℕ → Text
partitioned base p = base ++ b':' ∷ decimal p

abbrev pub expand_bases : List Text → List ℕ → List Text
expand_bases [] parts = []
expand_bases (base ∷ bases) parts = map (partitioned base) parts ++ expand_bases bases parts

-- `if not parts: return bases`, and the loop
abbrev pub expand_or_keep : List Text → List ℕ → List Text
expand_or_keep bases [] = bases
expand_or_keep bases (p ∷ ps) = expand_bases bases (p ∷ ps)

-- `zlib.crc32(symbol.encode("utf-8"))`, from a text
module _ (crc32 : Text → ℕ) where
  -- for a count that is at least one, where it does not raise
  unfoldable pub market_data_partition : Text → ℕ → ℕ
  market_data_partition symbol partition_count = crc32 (strip symbol) % 2 ^ 32 % partition_count

  -- the loop over the symbols; `seen` holds what `ordered` holds
  unfoldable pub distinct_partitions : List Text → ℕ → List ℕ → List ℕ
  unfolding market_data_partition among
  distinct_partitions [] n ordered = ordered
  distinct_partitions (sym ∷ symbols) n ordered =
      let p = market_data_partition sym n in
      distinct_partitions symbols n (if among p ordered then ordered else ordered ++ p ∷ [])

  unfoldable pub partitions_for_realtime_subscribe : ℤ → Option (List Text) → List ℕ
  unfolding distinct_partitions sorted range_from
  partitions_for_realtime_subscribe (pos (suc n)) (some (sym ∷ symbols)) =
      sorted (distinct_partitions (sym ∷ symbols) (suc n) [])
  partitions_for_realtime_subscribe (pos n) _ = range_from 0 n
  partitions_for_realtime_subscribe (negsuc n) _ = []

  unfoldable pub expand_market_data_stream_keys : List Text → ℤ → Option (List Text) → List Text
  unfolding partitions_for_realtime_subscribe
  expand_market_data_stream_keys bases partition_count symbol_filter =
      let parts = partitions_for_realtime_subscribe partition_count symbol_filter in
      if below_one partition_count then bases else expand_or_keep bases parts

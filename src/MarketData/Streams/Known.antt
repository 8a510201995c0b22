-- ===== src/MarketData/Streams/Known.antt =====
-- The streams of the feeds, and how a message's stream is recognised again.
use swr_ddd.Common.{
  ℕ, Bool, true, false, ◌&&◌, ◌||◌, not, Option, none, some, List, [], ◌∷◌, ◌++◌, map, ◌≡◌, refl,
  arith, ℤ,
}
use swr_ddd.Common.Text.{Text, text_eq, text_eq_iff, text_eq_refl, starts_with, member}
use mathlib.Core.List.{append_assoc}
use swr_ddd.Common.Decimal.{decimal}
use swr_ddd.Common.Dict.{get}
use swr_ddd.MarketData.Streams.{
  MarketDataRedisKeys, append_new, stream_of_feed, resolve_loop, resolve_stream_names,
  timeframe_or_1m, stream_feed_matches, partitioned, expand_bases, expand_or_keep,
  partitions_for_realtime_subscribe, expand_market_data_stream_keys,
}

abbrev pub all_distinct : List Text → Bool
all_distinct [] = true
all_distinct (s ∷ ss) = not (member s ss) && all_distinct ss

-- the optional text is this one
abbrev pub is_text : Option Text → Text → Bool
is_text none s = false
is_text (some t) s = text_eq t s

-- a feed of the list has the stream `s`
abbrev pub feeds_have : MarketDataRedisKeys → Text → List Text → Text → Bool
feeds_have keys tf [] s = false
feeds_have keys tf (f ∷ feeds) s =
    is_text (stream_of_feed keys tf f) s || feeds_have keys tf feeds s

member-append :
    (s t : Text) (ss : List Text) → member s (ss ++ t ∷ []) ≡ (member s ss || text_eq t s)
unfolding member
member-append s t [] = ground (arith, text_eq_iff s t, text_eq_iff t s)
member-append s t (u ∷ ss) = ground (arith, member-append s t ss)

all_distinct-append :
    (t : Text) (ss : List Text)
    → member t ss ≡ false
    → all_distinct ss ≡ true
    → all_distinct (ss ++ t ∷ []) ≡ true
unfolding member
all_distinct-append t [] m d = refl
all_distinct-append t (s ∷ ss) m d =
    ground (arith, member-append s t ss, all_distinct-append t ss, text_eq_iff s t, text_eq_iff t s)

member_same : (s t : Text) (ss : List Text) → text_eq t s ≡ true → member t ss ≡ member s ss
member_same s t ss h = rw ((text_eq_iff t s).0 h)

member-append_new :
    (s : Text) (o : Option Text) (out : List Text)
    → member s (append_new o out) ≡ (member s out || is_text o s)
unfolding append_new
member-append_new s none out = ground arith
member-append_new s (some t) out = ground (arith, member-append s t out, member_same s t out)

append_new-distinct :
    (o : Option Text) (out : List Text)
    → all_distinct out ≡ true
    → all_distinct (append_new o out) ≡ true
unfolding append_new
append_new-distinct none out d = d
append_new-distinct (some t) out d = ground (arith, all_distinct-append t out)

resolve_loop-distinct :
    (keys : MarketDataRedisKeys) (tf : Text) (feeds out : List Text)
    → all_distinct out ≡ true
    → all_distinct (resolve_loop keys tf feeds out) ≡ true
unfolding resolve_loop
resolve_loop-distinct keys tf [] out d = d
resolve_loop-distinct keys tf (f ∷ feeds) out d =
    resolve_loop-distinct keys tf feeds _ (append_new-distinct (stream_of_feed keys tf f) out d)

or_assoc : (a b c : Bool) → ((a || b) || c) ≡ (a || (b || c))
or_assoc true b c = refl
or_assoc false b c = refl

member-resolve_loop :
    (s : Text) (keys : MarketDataRedisKeys) (tf : Text) (feeds out : List Text)
    → member s (resolve_loop keys tf feeds out) ≡ (member s out || feeds_have keys tf feeds s)
unfolding resolve_loop
member-resolve_loop s keys tf [] out = ground arith
member-resolve_loop s keys tf (f ∷ feeds) out =
    rw
      (
        member-resolve_loop s keys tf feeds (append_new (stream_of_feed keys tf f) out),
        member-append_new s (stream_of_feed keys tf f) out,
      )
      (or_assoc (member s out) _ _)

-- the stream is one of the three families, as `classify_stream_payload_failure` asks
abbrev pub is_known : MarketDataRedisKeys → Text → Bool
is_known keys s =
    stream_feed_matches s keys.stream_bars_1m
    || stream_feed_matches s keys.stream_trades
    || stream_feed_matches s keys.stream_quotes

starts_with-append : (p s : Text) → starts_with (p ++ s) p ≡ true
unfolding starts_with
starts_with-append [] s = refl
starts_with-append (c ∷ p) s = ground (arith, starts_with-append p s)

abbrev is_base : MarketDataRedisKeys → Text → Bool
is_base keys b =
    text_eq b keys.stream_bars_1m || text_eq b keys.stream_trades || text_eq b keys.stream_quotes

abbrev OptionBase : MarketDataRedisKeys → Option Text → Type 0
OptionBase keys none = Unit
OptionBase keys (some b) = is_base keys b ≡ true

stream_of_feed-Base :
    (keys : MarketDataRedisKeys) (tf f : Text) → OptionBase keys (stream_of_feed keys tf f)
unfolding stream_of_feed get
stream_of_feed-Base keys tf f = ground (
  arith,
  text_eq_refl keys.stream_bars_1m,
  text_eq_refl keys.stream_trades,
  text_eq_refl keys.stream_quotes,
)

abbrev all_bases : MarketDataRedisKeys → List Text → Bool
all_bases keys [] = true
all_bases keys (b ∷ bs) = is_base keys b && all_bases keys bs

append-bases :
    (keys : MarketDataRedisKeys) (b : Text) (bs : List Text)
    → all_bases keys (bs ++ b ∷ []) ≡ (all_bases keys bs && is_base keys b)
append-bases keys b [] = ground arith
append-bases keys b (c ∷ bs) = ground (arith, append-bases keys b bs)

append_new-bases :
    (keys : MarketDataRedisKeys) (o : Option Text) (out : List Text)
    → OptionBase keys o
    → all_bases keys out ≡ true
    → all_bases keys (append_new o out) ≡ true
unfolding append_new
append_new-bases keys none out h a = a
append_new-bases keys (some b) out h a = ground (arith, append-bases keys b out)

resolve_loop-bases :
    (keys : MarketDataRedisKeys) (tf : Text) (feeds out : List Text)
    → all_bases keys out ≡ true
    → all_bases keys (resolve_loop keys tf feeds out) ≡ true
unfolding resolve_loop
resolve_loop-bases keys tf [] out a = a
resolve_loop-bases keys tf (f ∷ feeds) out a =
    resolve_loop-bases keys tf feeds _
      (append_new-bases keys (stream_of_feed keys tf f) out (stream_of_feed-Base keys tf f) a)

matches_self : (s : Text) → stream_feed_matches s s ≡ true
unfolding stream_feed_matches
matches_self s = ground (arith, text_eq_refl s)

matches_partition : (base : Text) (p : ℕ) → stream_feed_matches (partitioned base p) base ≡ true
unfolding stream_feed_matches
matches_partition base p = ground (
  arith,
  starts_with-append (base ++ b':' ∷ []) (decimal p),
  append_assoc base (b':' ∷ []) (decimal p),
)

-- a key of a family, with or without a partition
base-Known :
    (keys : MarketDataRedisKeys) (base s : Text)
    → stream_feed_matches s base ≡ true
    → is_base keys base ≡ true
    → is_known keys s ≡ true
base-Known keys base s m h = ground (
  arith,
  text_eq_iff base keys.stream_bars_1m,
  text_eq_iff base keys.stream_trades,
  text_eq_iff base keys.stream_quotes,
)

abbrev pub all_known : MarketDataRedisKeys → List Text → Bool
all_known keys [] = true
all_known keys (s ∷ ss) = is_known keys s && all_known keys ss

append-known :
    (keys : MarketDataRedisKeys) (ss ts : List Text)
    → all_known keys (ss ++ ts) ≡ (all_known keys ss && all_known keys ts)
append-known keys [] ts = refl
append-known keys (s ∷ ss) ts = ground (arith, append-known keys ss ts)

bases-known :
    (keys : MarketDataRedisKeys) (bs : List Text)
    → all_bases keys bs ≡ true
    → all_known keys bs ≡ true
bases-known keys [] h = refl
bases-known keys (b ∷ bs) h =
    ground (arith, base-Known keys b b (matches_self b), bases-known keys bs)

partitions-known :
    (keys : MarketDataRedisKeys) (base : Text) (parts : List ℕ)
    → is_base keys base ≡ true
    → all_known keys (map (partitioned base) parts) ≡ true
partitions-known keys base [] h = refl
partitions-known keys base (p ∷ parts) h =
    let here = base-Known keys base (partitioned base p) (matches_partition base p) h in
    ground (arith, partitions-known keys base parts h)

expand_bases-known :
    (keys : MarketDataRedisKeys) (bs : List Text) (parts : List ℕ)
    → all_bases keys bs ≡ true
    → all_known keys (expand_bases bs parts) ≡ true
expand_bases-known keys [] parts h = refl
expand_bases-known keys (b ∷ bs) parts h = ground (
  arith,
  append-known keys (map (partitioned b) parts) (expand_bases bs parts),
  partitions-known keys b parts,
  expand_bases-known keys bs parts,
)

expand_or_keep-known :
    (keys : MarketDataRedisKeys) (bs : List Text) (parts : List ℕ)
    → all_bases keys bs ≡ true
    → all_known keys (expand_or_keep bs parts) ≡ true
expand_or_keep-known keys bs [] h = bases-known keys bs h
expand_or_keep-known keys bs (p ∷ parts) h = expand_bases-known keys bs (p ∷ parts) h

-- what the worker opens for its feeds
pub record Subscribes (keys : MarketDataRedisKeys) (tf : Text) (feeds names physical : List Text)
    : Type 0 where
  pub distinct : all_distinct names ≡ true
  pub complete : (s : Text) → member s names ≡ feeds_have keys tf feeds s
  pub known : all_known keys physical ≡ true

-- The stream names of the feeds hold each name once and are exactly the streams of the feeds, and
-- every key that they expand to, with or without partitions, is recognised as one of the three
-- families.
pub resolve_stream_names-Subscribes :
    (crc32 : Text → ℕ) (feeds : List Text) (bar_timeframe : Option Text)
    (keys : MarketDataRedisKeys) (count : ℤ) (filter : Option (List Text))
    → Subscribes keys
        (timeframe_or_1m bar_timeframe)
        feeds
        (resolve_stream_names feeds bar_timeframe keys)
        (expand_market_data_stream_keys crc32
          (resolve_stream_names feeds bar_timeframe keys)
          count
          filter)
unfolding resolve_stream_names expand_market_data_stream_keys member
resolve_stream_names-Subscribes crc32 feeds bar_timeframe keys count filter =
    let tf = timeframe_or_1m bar_timeframe in
    let bases = resolve_loop-bases keys tf feeds [] refl in
    let names = resolve_loop keys tf feeds [] in
    record {
      distinct = resolve_loop-distinct keys tf feeds [] refl;
      complete = λ s. member-resolve_loop s keys tf feeds [];
      known = ground (
        arith,
        bases-known keys names bases,
        expand_or_keep-known keys names (partitions_for_realtime_subscribe crc32 count filter)
            bases,
      );
    }

-- ===== src/MarketData/Tests.antt =====
-- The theorems on the market data ingress at a small Redis.
use swr_ddd.Common.{
  true, false, not, Option, none, some, [], ◌∷◌, leb, ◌≡◌, refl, pos, if◌then◌else◌, length,
}
use swr_ddd.Common.Text.{Text, member, codes, strip, is_empty, upper, text_eq}
use swr_ddd.MarketData.Names.{build_market_data_consumer_group_name}
use swr_ddd.MarketData.Names.Groups.{NamesGroup, group_name-NamesGroup}
use swr_ddd.MarketData.Streams.{
  default_market_data_redis_keys, partitions_for_realtime_subscribe, resolve_stream_names,
  expand_market_data_stream_keys,
}
use swr_ddd.MarketData.Streams.Known.{Subscribes, resolve_stream_names-Subscribes}
use swr_ddd.MarketData.Streams.Partitions.{IsSubscription, partitions-IsSubscription}
use swr_ddd.MarketData.Decoding.{
  Python, Document, object, stream_payload_to_tick, classify_stream_payload_failure,
}
use swr_ddd.MarketData.Decoding.Agreement.{gives_no_reason, makes_tick, classify-Agrees}
use swr_ddd.MarketData.Ingress.{
  Redis, open_client, Message, Fields, not_a_dict, dict, disconnected, messages, group_ready,
  handle_group_message,
}
use swr_ddd.MarketData.Ingress.Messages.{pass_fields, fields_of, handle_group_message-pass}
use swr_ddd.MarketData.Reading
use swr_ddd.MarketData.Reading.Acknowledged.{Owes}
use swr_ddd.MarketData.Reading.Acknowledged.Run.{run_xreadgroup_loop-Owes}
use swr_ddd.MarketData.Reading.Positions.{asks_after_last}
use swr_ddd.MarketData.Reading.Positions.Run.{xread_loop-AsksAfterLast}

-- every text that is not blank is an object with a time, a symbol and the text itself as its price
abbrev small_loads : Text → Option (Document Text)
small_loads s =
    if is_empty (strip s)
    then none
    else some (
        object (
          (codes "time_utc", codes "2024-01-02T03:04:05Z")
          ∷ (codes "symbol", codes "AAPL")
          ∷ (codes "price", s)
          ∷ []))

abbrev small_python : Python
small_python = record {
  Value = Text;
  Number = Text;
  Moment = Text;
  loads = small_loads;
  truthy = λ v. not (is_empty v);
  str = λ v. v;
  float = λ v. if text_eq v (codes "x") then none else some v;
  zero_float = codes "0.0";
  upper = upper;
  fromisoformat = λ s. some s;
  is_aware = λ m. true;
  replace_utc = λ m. m;
  millis_since_epoch = λ m. pos (length m);
}

abbrev trade_fields : Fields
trade_fields = dict ((codes "AAPL", codes "101.5") ∷ (codes "MSFT", codes "99") ∷ [])

-- two messages in the first reply, and a lost connection after it
abbrev small_redis : Redis Text
small_redis = record {
  stop_is_set = λ t. leb 12 (length t);
  wait_is_set = λ t. false;
  reads = λ t.
      if leb (length t) 2
      then messages (
          (codes "md:stream:trades:0", (codes "1-0", trade_fields) ∷ (codes "1-1", not_a_dict) ∷ [])
          ∷ [])
      else disconnected;
  ack_raises = λ t. false;
  creates = λ t. group_ready;
}

abbrev trade_message : Message
trade_message = record {
  stream_name = codes "md:stream:trades:0";
  msg_id = codes "1-0";
  fields = trade_fields;
}

group_name_example :
    NamesGroup
      (codes "swr")
      (codes "run 7")
      (build_market_data_consumer_group_name (codes "swr") none (some (codes "run 7")))
unfolding strip
group_name_example = group_name-NamesGroup (codes "swr") none (some (codes "run 7"))

Subscribes-example :
    Subscribes default_market_data_redis_keys
      (codes "5m")
      (codes "bars" ∷ codes " Trades" ∷ [])
      (resolve_stream_names
        (codes "bars" ∷ codes " Trades" ∷ [])
        (some (codes "5m"))
        default_market_data_redis_keys)
      (expand_market_data_stream_keys length
        (resolve_stream_names
          (codes "bars" ∷ codes " Trades" ∷ [])
          (some (codes "5m"))
          default_market_data_redis_keys)
        (pos 4)
        (some (codes "AAPL" ∷ [])))
unfolding strip
Subscribes-example =
    resolve_stream_names-Subscribes length (codes "bars" ∷ codes " Trades" ∷ []) (some (codes "5m"))
      default_market_data_redis_keys (pos 4) (some (codes "AAPL" ∷ []))

partitions_example :
    IsSubscription length 4
      (some (codes "AAPL" ∷ codes "IBM" ∷ []))
      (partitions_for_realtime_subscribe length (pos 4) (some (codes "AAPL" ∷ codes "IBM" ∷ [])))
partitions_example = partitions-IsSubscription length 3 (some (codes "AAPL" ∷ codes "IBM" ∷ []))

classify_example :
    gives_no_reason small_python default_market_data_redis_keys (codes "1m") (
      classify_stream_payload_failure small_python default_market_data_redis_keys
        (codes "1m")
        (codes "md:stream:trades:0")
        (codes "AAPL")
        (codes " ")
        (codes "1-0"))
    ≡ makes_tick small_python default_market_data_redis_keys (codes "1m") (
        stream_payload_to_tick small_python default_market_data_redis_keys
          (codes "1m")
          (codes "md:stream:trades:0")
          (codes "AAPL")
          (codes " ")
          (codes "1-0"))
unfolding strip
classify_example =
    classify-Agrees small_python default_market_data_redis_keys (codes "1m")
      (codes "md:stream:trades:0") (codes "AAPL") (codes " ") (codes "1-0") (λ h. refl)

group_message_example :
    handle_group_message small_python small_redis default_market_data_redis_keys
      (codes "1m")
      (some (codes "aapl"))
      trade_message
      (open_client ∷ [])
    ≡ pass_fields small_python small_redis default_market_data_redis_keys
        (codes "1m")
        (some (codes "aapl"))
        (codes "md:stream:trades:0")
        (codes "1-0")
        (fields_of small_python small_redis default_market_data_redis_keys
          (codes "1m")
          (some (codes "aapl"))
          trade_fields)
        (open_client ∷ [])
group_message_example =
    handle_group_message-pass small_python small_redis default_market_data_redis_keys (codes "1m")
      (some (codes "aapl")) trade_message (open_client ∷ [])

acknowledged_example : Owes {N = Text} [] (
    Reading.run_xreadgroup_loop small_python small_redis default_market_data_redis_keys
      (codes "1m")
      (some (codes "aapl"))
      (codes "md:stream:trades:0" ∷ [])
      5)
acknowledged_example =
    run_xreadgroup_loop-Owes small_python small_redis default_market_data_redis_keys (codes "1m")
      (some (codes "aapl")) (codes "md:stream:trades:0" ∷ []) 5

positions_example :
    asks_after_last
      (codes "$")
      (codes "md:stream:trades:0")
      (Reading.xread_loop small_python small_redis default_market_data_redis_keys
        (codes "1m")
        (some (codes "aapl"))
        (codes "$")
        5
        0
        (Reading.start_positions small_python small_redis default_market_data_redis_keys
          (codes "1m")
          (some (codes "aapl"))
          (codes "$")
          (codes "md:stream:trades:0" ∷ [])
          [])
        (open_client ∷ [])).1
      (codes "$")
    ≡ true
unfolding member text_eq
positions_example =
    xread_loop-AsksAfterLast small_python small_redis (codes "$") (codes "md:stream:trades:0")
      default_market_data_redis_keys (codes "1m") (some (codes "aapl"))
      (codes "md:stream:trades:0" ∷ []) 5 refl

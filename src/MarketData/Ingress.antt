-- ===== src/MarketData/Ingress.antt =====
-- The consumer loops: `run_market_data_redis_loop` and `_run_xreadgroup_loop`, with
-- `_process_one_stream_field`. Redis, the strategy's callback and the stop event answer as the
-- parameter `Redis` says, from the calls made so far, so their answers may change in time. A loop is
-- run for a number of rounds and may be left running. Log records and stdout are left out.
pub mod Messages
use swr_ddd.Common.{
  ℕ, suc, Bool, true, false, not, ◌&&◌, ◌||◌, Option, none, some, List, [], ◌∷◌, ◌++◌,
  if◌then◌else◌, leb, ◌^◌, Outcome, NoneType, returned, raised, ◌>>=◌, ◌>>◌,
}
use swr_ddd.Common.Text.{Text, text_eq, is_empty, strip}
use swr_ddd.Common.Dict.{Dict}
use swr_ddd.MarketData.Names.{strip_or_blank}
use swr_ddd.MarketData.Streams.{MarketDataRedisKeys}
use swr_ddd.MarketData.Decoding.{Python, Tick, IngressError, redis_failed, stream_payload_to_tick}

-- what a stream entry holds; `not_a_dict` is the reply's `fields` when it is no dict
pub data Fields : Type 0 where
  not_a_dict : Fields
  dict : Dict Text → Fields

pub record Message : Type 0 where
  pub stream_name : Text
  pub msg_id : Text
  pub fields : Fields

-- a reply holds the messages stream by stream
pub data Reply : Type 0 where
  -- `redis.ConnectionError`, `redis.TimeoutError` or `OSError`
  disconnected : Reply
  messages : List (Text × List (Text × Fields)) → Reply

pub data GroupReply : Type 0 where
  -- created, or `BUSYGROUP`
  group_ready : GroupReply
  -- any other exception
  group_failed : GroupReply

pub data Call (N : Type 0) : Type 0 where
  open_client : Call N
  close_client : Call N
  xgroup_create : Text → Call N
  -- the positions that are asked for, and the reply
  xread : Dict Text → Reply → Call N
  xreadgroup : Reply → Call N
  on_tick : Tick N → Call N
  -- the stream and the message
  xack : Text → Text → Call N
  -- seconds
  wait : ℕ → Call N

pub record Redis (N : Type 0) : Type 0 where
  pub stop_is_set : List (Call N) → Bool
  pub wait_is_set : List (Call N) → Bool
  pub reads : List (Call N) → Reply
  pub ack_raises : List (Call N) → Bool
  pub creates : List (Call N) → GroupReply

-- `_reconnect_backoff_seconds`
unfoldable pub reconnect_backoff_seconds : ℕ → ℕ
reconnect_backoff_seconds attempt =
    let seconds = 2 ^ (if leb attempt 5 then attempt else 5) in
    if leb 30 seconds then 30 else seconds

abbrev pub Result {ℓ} : Type 0 → Type ℓ → Type ℓ
Result N A = Outcome IngressError A × List (Call N)

-- `positions` and the like: the keys of a dict
abbrev pub keys_of {ℓ} : {V : Type ℓ} → Dict V → List Text
keys_of [] = []
keys_of ((k, v) ∷ d) = k ∷ keys_of d

-- `pending.remove(f)`; `none` where it raises `ValueError`
unfoldable pub remove_one : Text → List Text → Option (List Text)
remove_one f [] = none
remove_one f (g ∷ gs) =
    let rest = remove_one f gs in
    if text_eq f g then some gs else elim rest [ none ↦ none | some hs ↦ some (g ∷ hs) ]

module _ (py : Python) (w : Redis py.Number) where
  abbrev Trace : Type 0
  Trace = List (Call py.Number)

  -- a message's unprocessed fields, and the calls
  abbrev pub Pending : Type 0
  Pending = List Text × Trace

  abbrev pub Step : Type 0
  Step = Outcome IngressError NoneType × Pending

  -- `client.xack(...)`
  unfoldable pub ack : Text → Text → Trace → Result py.Number NoneType
  ack stream_name msg_id t =
      let t' = t ++ xack stream_name msg_id ∷ [] in
      (if w.ack_raises t' then raised redis_failed else returned tt, t')

  abbrev with_pending : List Text → Result py.Number NoneType → Step
  with_pending pending (o, t) = (o, (pending, t))

  -- `_make_ack_one(f)`
  unfoldable pub ack_one : Text → Text → Text → Pending → Step
  unfolding ack remove_one
  ack_one stream_name msg_id f (pending, t) = elim (remove_one f pending) [
    | none ↦ (returned tt, (pending, t))
    | some [] ↦ with_pending [] (ack stream_name msg_id t)
    | some (g ∷ gs) ↦ (returned tt, (g ∷ gs, t))
  ]

  -- `on_parse_failure`, which XREAD leaves out
  abbrev pub Callback : Type 0
  Callback = Pending → Step

  abbrev pub no_callback : Callback
  no_callback s = (returned tt, s)

  -- `try: on_tick(tick)`, whose exceptions are swallowed, with `finally: on_parse_failure()`
  unfoldable pub dispatch_tick : Tick py.Number → Callback → Callback
  dispatch_tick tick done (pending, t) = done (pending, t ++ on_tick tick ∷ [])

  module _ (keys : MarketDataRedisKeys) (bar_timeframe : Text) (strategy_symbol : Option Text) where
    -- `not traded or sym_key == traded`
    unfoldable pub matches_strategy : Text → Bool
    matches_strategy field_sym =
        let sym_key = py.upper (strip field_sym) in
        let traded = py.upper (strip_or_blank strategy_symbol) in
        is_empty traded || text_eq sym_key traded

    -- what is done once the field is decoded
    abbrev pub after_decoding :
        Text → Outcome IngressError (Option (Tick py.Number)) → Callback → Callback
    after_decoding field_sym (raised e) done s = (raised e, s)
    after_decoding field_sym (returned none) done s = done s
    after_decoding field_sym (returned (some tick)) done s =
        if matches_strategy field_sym then dispatch_tick tick done s else done s

    unfoldable pub process_one_stream_field : Text → Text → Text → Text → Callback → Callback
    unfolding matches_strategy dispatch_tick
    process_one_stream_field stream_name msg_id field_sym payload done =
        after_decoding field_sym
          (stream_payload_to_tick py keys bar_timeframe stream_name field_sym payload msg_id) done

    -- `next` when the step returned
    abbrev pub then_step : Step → (Pending → Step) → Step
    then_step (returned u, s) next = next s
    then_step (raised e, s) next = (raised e, s)

    -- the loop over a message's fields; `done` makes each field's callback
    unfoldable pub process_fields : Text → Text → (Text → Callback) → Dict Text → Callback
    unfolding process_one_stream_field
    process_fields stream_name msg_id done [] s = (returned tt, s)
    process_fields stream_name msg_id done ((field, payload) ∷ fields) s =
        then_step (process_one_stream_field stream_name msg_id field payload (done field) s)
          (λ s'. process_fields stream_name msg_id done fields s')

    -- `if pending: client.xack(...)`
    abbrev pub ack_leftover : Text → Text → Pending → Step
    ack_leftover stream_name msg_id ([], t) = (returned tt, ([], t))
    ack_leftover stream_name msg_id (f ∷ fs, t) = with_pending (f ∷ fs) (ack stream_name msg_id t)

    abbrev pub drop_pending : Step → Result py.Number NoneType
    drop_pending (o, (pending, t)) = (o, t)

    -- the `isinstance` and emptiness tests, then the loop
    unfoldable pub handle_group_fields : Text → Text → Fields → Trace → Result py.Number NoneType
    unfolding ack ack_one process_fields
    handle_group_fields s m not_a_dict t = ack s m t
    handle_group_fields s m (dict []) t = ack s m t
    handle_group_fields s m (dict (f ∷ fs)) t = drop_pending (
        then_step (process_fields s m (ack_one s m) (f ∷ fs) (keys_of (f ∷ fs), t))
          (ack_leftover s m))

    -- one message that XREADGROUP delivered
    unfoldable pub handle_group_message : Message → Trace → Result py.Number NoneType
    unfolding handle_group_fields
    handle_group_message m t = handle_group_fields m.stream_name m.msg_id m.fields t

    -- one message that XREAD returned
    unfoldable pub handle_read_fields : Text → Text → Fields → Trace → Result py.Number NoneType
    unfolding process_fields
    handle_read_fields s m not_a_dict t = (returned tt, t)
    handle_read_fields s m (dict fields) t =
        drop_pending (process_fields s m (λ field. no_callback) fields ([], t))

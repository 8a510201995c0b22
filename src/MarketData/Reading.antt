-- ===== src/MarketData/Reading.antt =====
-- The two loops around the messages. `still_reading` is no end of the source's loop: the number of
-- rounds that are looked at is over. What XREAD and XREADGROUP reply is kept with the call.
pub mod Acknowledged
pub mod Positions
pub mod Reconnect
use swr_ddd.Common.{
  ℕ, zero, suc, Bool, true, false, Option, none, some, List, [], ◌∷◌, ◌++◌, if◌then◌else◌, ◌||◌,
  Outcome, NoneType, returned, raised,
}
use swr_ddd.Common.Text.{Text, is_empty, strip, codes}
use swr_ddd.Common.Dict.{Dict, get, put}
use swr_ddd.MarketData.Names.{or_text, strip_or_blank}
use swr_ddd.MarketData.Streams.{MarketDataRedisKeys}
use swr_ddd.MarketData.Decoding.{Python, IngressError, redis_failed}
use swr_ddd.MarketData.Ingress.{
  Redis, Call, open_client, close_client, xgroup_create, xread, xreadgroup, wait, Result, Fields,
  Reply, disconnected, messages, GroupReply, group_ready, group_failed, reconnect_backoff_seconds,
  handle_group_fields, handle_read_fields,
}

pub data Ending : Type 0 where
  stop_requested still_reading nothing_to_read : Ending

-- `ValueError`, or what left the loop
pub data RunError : Type 0 where
  group_name_required : RunError
  ingress_failed : IngressError → RunError

-- the messages of a stream, and the streams of a reply
abbrev pub Batch : Type 0
Batch = List (Text × List (Text × Fields))

-- `positions.get(stream_name, start_id)`
abbrev pub position_or : Option Text → Text → Text
position_or none start_id = start_id
position_or (some p) start_id = p

module _ (py : Python) (w : Redis py.Number) where
  abbrev Trace : Type 0
  Trace = List (Call py.Number)

  -- the next call, if this one returned
  abbrev pub then_call {ℓ κ} :
      {A : Type ℓ} {B : Type κ}
      → Result py.Number A
      → (A → Trace → Result py.Number B)
      → Result py.Number B
  then_call (returned a, t) next = next a t
  then_call (raised e, t) next = (raised e, t)

  -- `_ensure_consumer_groups`
  unfoldable pub ensure_consumer_groups : List Text → Trace → Result py.Number NoneType
  ensure_consumer_groups [] t = (returned tt, t)
  ensure_consumer_groups (sn ∷ names) t =
      let t' = t ++ xgroup_create sn ∷ [] in
      let rest = ensure_consumer_groups names t' in
      elim (w.creates t') [ group_ready ↦ rest | group_failed ↦ (raised redis_failed, t') ]

  -- the wait before a reconnect, and what follows it when no stop came
  abbrev pub wait_and_reopen :
      ℕ → Trace → (Trace → Result py.Number Ending) → Result py.Number Ending
  wait_and_reopen attempt t reopened =
      let t' = t ++ wait (reconnect_backoff_seconds attempt) ∷ [] in
      if w.wait_is_set t'
      then (returned stop_requested, t')
      else reopened (t' ++ close_client ∷ open_client ∷ [])

  -- `finally: client.close()`
  abbrev pub close_after : Result py.Number Ending → Result py.Number Ending
  close_after (o, t) = (o, t ++ close_client ∷ [])

  module _ (keys : MarketDataRedisKeys) (bar_timeframe : Text) (strategy_symbol : Option Text) where
    unfoldable pub group_messages : Text → List (Text × Fields) → Trace → Result py.Number NoneType
    unfolding handle_group_fields
    group_messages s [] t = (returned tt, t)
    group_messages s ((m, fields) ∷ rest) t =
        then_call (handle_group_fields py w keys bar_timeframe strategy_symbol s m fields t)
          (λ u t'. group_messages s rest t')

    unfoldable pub group_batch : Batch → Trace → Result py.Number NoneType
    unfolding group_messages
    group_batch [] t = (returned tt, t)
    group_batch ((s, ms) ∷ rest) t = then_call (group_messages s ms t) (λ u t'. group_batch rest t')

    -- after a reply; `again` is the next round, with the number of reconnects since the last reply
    abbrev pub after_group_reply :
        List Text
        → ℕ
        → (ℕ → Trace → Result py.Number Ending)
        → Reply
        → Trace
        → Result py.Number Ending
    after_group_reply names attempt again disconnected t =
        wait_and_reopen attempt t
          (λ t'. then_call (ensure_consumer_groups names t') (λ u t''. again (suc attempt) t''))
    after_group_reply names attempt again (messages batch) t =
        then_call (group_batch batch t) (λ u t'. again 0 t')

    -- the loop of `_run_xreadgroup_loop`
    unfoldable pub xreadgroup_loop : List Text → ℕ → ℕ → Trace → Result py.Number Ending
    unfolding group_batch ensure_consumer_groups reconnect_backoff_seconds
    xreadgroup_loop names zero attempt t = (returned still_reading, t)
    xreadgroup_loop names (suc rounds) attempt t =
        if w.stop_is_set t
        then (returned stop_requested, t)
        else after_group_reply names attempt (λ a t'. xreadgroup_loop names rounds a t') (w.reads t)
            (t ++ xreadgroup (w.reads t) ∷ [])

    -- `_run_xreadgroup_loop`
    unfoldable pub run_xreadgroup_loop : List Text → ℕ → Result py.Number Ending
    unfolding xreadgroup_loop
    run_xreadgroup_loop names rounds = close_after (
        then_call (ensure_consumer_groups names (open_client ∷ []))
          (λ u t. xreadgroup_loop names rounds 0 t))

    -- one stream of a reply to XREAD: its messages, with the last one's id
    unfoldable pub read_messages :
        Text → List (Text × Fields) → Text → Trace → Result py.Number Text
    unfolding handle_read_fields
    read_messages s [] last_id t = (returned last_id, t)
    read_messages s ((m, fields) ∷ rest) last_id t =
        then_call (handle_read_fields py w keys bar_timeframe strategy_symbol s m fields t)
          (λ u t'. read_messages s rest m t')

    unfoldable pub read_batch : Text → Batch → Dict Text → Trace → Result py.Number (Dict Text)
    unfolding read_messages get put
    read_batch start_id [] positions t = (returned positions, t)
    read_batch start_id ((s, ms) ∷ rest) positions t =
        then_call (read_messages s ms (position_or (get s positions) start_id) t)
          (λ last_id t'. read_batch start_id rest (put s last_id positions) t')

    abbrev pub after_read_reply :
        Text
        → ℕ
        → Dict Text
        → (ℕ → Dict Text → Trace → Result py.Number Ending)
        → Reply
        → Trace
        → Result py.Number Ending
    after_read_reply start_id attempt positions again disconnected t =
        wait_and_reopen attempt t (λ t'. again (suc attempt) positions t')
    after_read_reply start_id attempt positions again (messages batch) t =
        then_call (read_batch start_id batch positions t) (λ positions' t'. again 0 positions' t')

    -- the loop of `run_market_data_redis_loop`
    unfoldable pub xread_loop : Text → ℕ → ℕ → Dict Text → Trace → Result py.Number Ending
    unfolding read_batch reconnect_backoff_seconds
    xread_loop start_id zero attempt positions t = (returned still_reading, t)
    xread_loop start_id (suc rounds) attempt positions t =
        if w.stop_is_set t
        then (returned stop_requested, t)
        else after_read_reply start_id attempt positions
            (λ a positions' t'. xread_loop start_id rounds a positions' t') (w.reads t)
            (t ++ xread positions (w.reads t) ∷ [])

    -- `{s: start_id for s in stream_names}`
    abbrev pub start_positions : Text → List Text → Dict Text → Dict Text
    start_positions start_id [] d = d
    start_positions start_id (s ∷ names) d = start_positions start_id names (put s start_id d)

    abbrev pub as_run : Result py.Number Ending → Outcome RunError Ending × Trace
    as_run (returned a, t) = (returned a, t)
    as_run (raised e, t) = (raised (ingress_failed e), t)

    unfoldable pub run_market_data_redis_loop :
        List Text → Text → Bool → Option Text → Option Text → ℕ → Outcome RunError Ending × Trace
    unfolding run_xreadgroup_loop xread_loop put
    run_market_data_redis_loop [] stream_start_id use_consumer_group group consumer rounds =
        (returned nothing_to_read, [])
    run_market_data_redis_loop (s ∷ names) stream_start_id true group consumer rounds =
        if is_empty (strip_or_blank group) || is_empty (strip_or_blank consumer)
        then (raised group_name_required, [])
        else as_run (run_xreadgroup_loop (s ∷ names) rounds)
    run_market_data_redis_loop (s ∷ names) stream_start_id false group consumer rounds =
        let start_id = or_text (strip stream_start_id) (codes "$") in
        as_run (
          close_after (
            xread_loop start_id rounds 0 (start_positions start_id (s ∷ names) [])
              (open_client ∷ [])))

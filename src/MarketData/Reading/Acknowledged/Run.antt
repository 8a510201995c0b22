-- ===== src/MarketData/Reading/Acknowledged/Run.antt =====
-- The calls of a run keep the balance of the delivered and the acknowledged messages.
use mathlib.Core.List.{append-nil}
use swr_ddd.Common.{
  ℕ, zero, suc, true, false, Option, none, some, List, [], ◌∷◌, ◌++◌, if◌then◌else◌, refl, sym, ap,
  subst, ◌∙◌, arith, Outcome, NoneType, returned, raised,
}
use swr_ddd.Common.Text.{Text}
use swr_ddd.Common.Dict.{Dict}
use swr_ddd.MarketData.Streams.{MarketDataRedisKeys}
use swr_ddd.MarketData.Decoding.{Python, Tick, IngressError, redis_failed}
use swr_ddd.MarketData.Ingress.{
  Redis, Call, open_client, close_client, xgroup_create, xreadgroup, on_tick, xack, wait, Result,
  Fields, Reply, disconnected, messages, group_ready, group_failed, ack, handle_group_fields,
  reconnect_backoff_seconds,
}
use swr_ddd.MarketData.Ingress.Messages.{
  pass_fields, pass_decoded, pass_tick, fields_of, handle_group_fields-pass,
}
use swr_ddd.MarketData.Reading
use swr_ddd.MarketData.Reading.Acknowledged.{
  Entry, entries_of_stream, entries_of_batch, entries_of_reply, Balanced, Owes, quiet_call,
  ack_call, acked, delivered-append, acked-append,
}

module _ (py : Python) (w : Redis py.Number) where
  then_call-Owes {ℓ κ} :
      {A : Type ℓ} {B : Type κ} (owed owed' : List Entry) (r : Result py.Number A)
      (next : A → List (Call py.Number) → Result py.Number B)
      → Owes owed r
      → ((a : A) (t : List (Call py.Number)) → Balanced owed t → Owes owed' (next a t))
      → Owes owed' (Reading.then_call py w r next)
  then_call-Owes owed owed' (returned a, t) next b h = h a t b
  then_call-Owes owed owed' (raised e, t) next b h = b

  ack-Owes :
      (s m : Text) (owed : List Entry) (t : List (Call py.Number))
      → Balanced ((s, m) ∷ owed) t
      → Owes owed (ack py w s m t)
  unfolding ack
  ack-Owes s m owed t b =
      let b' : Balanced owed (t ++ xack s m ∷ []) = ack_call s m owed t b in
      elim (w.ack_raises (t ++ xack s m ∷ []))
        as (λ r.
          Owes {A = Unit {0}} owed
            (if r then raised redis_failed else returned tt, t ++ xack s m ∷ [])) [
              | true ↦ (owed, b')
              | false ↦ b'
            ]

  ensure-Owes :
      (names : List Text) (owed : List Entry) (t : List (Call py.Number))
      → Balanced owed t
      → Owes owed (Reading.ensure_consumer_groups py w names t)
  unfolding Reading.ensure_consumer_groups
  ensure-Owes [] owed t b = b
  ensure-Owes (sn ∷ names) owed t b =
      let t' : List (Call py.Number) = t ++ xgroup_create sn ∷ [] in
      let b' : Balanced owed t' = quiet_call owed t (xgroup_create sn ∷ []) refl refl b in
      elim (w.creates t')
        as (λ r. Owes {A = Unit {0}} owed (elim r [
          | group_ready ↦ Reading.ensure_consumer_groups py w names t'
          | group_failed ↦ (raised redis_failed, t')
        ])) [ group_ready ↦ ensure-Owes names owed t' b' | group_failed ↦ (owed, b') ]

  module _ (keys : MarketDataRedisKeys) (bar_timeframe : Text) (strategy_symbol : Option Text) where
    pass_tick-Balanced :
        (owed : List Entry) (field : Text) (tick : Tick py.Number) (t : List (Call py.Number))
        → Balanced owed t
        → Balanced owed (pass_tick py w keys bar_timeframe strategy_symbol field tick t)
    pass_tick-Balanced owed field tick t b =
        ground (arith, quiet_call owed t (on_tick tick ∷ []) refl refl)

    pass_decoded-Owes :
        (owed owed' : List Entry) (field : Text)
        (d : Outcome IngressError (Option (Tick py.Number))) (t : List (Call py.Number))
        (next : List (Call py.Number) → Result py.Number NoneType)
        → Balanced owed t
        → ((t' : List (Call py.Number)) → Balanced owed t' → Owes owed' (next t'))
        → Owes owed' (pass_decoded py w keys bar_timeframe strategy_symbol field d t next)
    pass_decoded-Owes owed owed' field (raised e) t next b h = (owed, b)
    pass_decoded-Owes owed owed' field (returned none) t next b h = h t b
    pass_decoded-Owes owed owed' field (returned (some tick)) t next b h =
        h _ (pass_tick-Balanced owed field tick t b)

    pass_fields-Owes :
        (s m : Text) (fields : Dict Text) (owed : List Entry) (t : List (Call py.Number))
        → Balanced ((s, m) ∷ owed) t
        → Owes owed (pass_fields py w keys bar_timeframe strategy_symbol s m fields t)
    unfolding pass_fields
    pass_fields-Owes s m [] owed t b = ack-Owes s m owed t b
    pass_fields-Owes s m ((field, payload) ∷ fields) owed t b =
        pass_decoded-Owes ((s, m) ∷ owed) owed field _ t _ b
          (λ t' b'. pass_fields-Owes s m fields owed t' b')

    handle_group_fields-Owes :
        (s m : Text) (fields : Fields) (owed : List Entry) (t : List (Call py.Number))
        → Balanced ((s, m) ∷ owed) t
        → Owes owed (handle_group_fields py w keys bar_timeframe strategy_symbol s m fields t)
    handle_group_fields-Owes s m fields owed t b =
        subst (λ r. Owes owed r)
          (sym (handle_group_fields-pass py w keys bar_timeframe strategy_symbol s m fields t))
          (pass_fields-Owes s m (fields_of py w keys bar_timeframe strategy_symbol fields) owed t b)

    group_messages-Owes :
        (s : Text) (ms : List (Text × Fields)) (owed : List Entry) (t : List (Call py.Number))
        → Balanced (entries_of_stream s ms ++ owed) t
        → Owes owed (Reading.group_messages py w keys bar_timeframe strategy_symbol s ms t)
    unfolding Reading.group_messages
    group_messages-Owes s [] owed t b = b
    group_messages-Owes s ((m, fields) ∷ ms) owed t b =
        then_call-Owes (entries_of_stream s ms ++ owed) owed _ _
          (handle_group_fields-Owes s m fields (entries_of_stream s ms ++ owed) t b)
          (λ u t' b'. group_messages-Owes s ms owed t' b')

    group_batch-Owes :
        (batch : Reading.Batch) (t : List (Call py.Number))
        → Balanced (entries_of_batch batch) t
        → Owes [] (Reading.group_batch py w keys bar_timeframe strategy_symbol batch t)
    unfolding Reading.group_batch
    group_batch-Owes [] t b = b
    group_batch-Owes ((s, ms) ∷ batch) t b =
        then_call-Owes (entries_of_batch batch) [] _ _
          (group_messages-Owes s ms (entries_of_batch batch) t b)
          (λ u t' b'. group_batch-Owes batch t' b')

    reply_call :
        (reply : Reply) (t : List (Call py.Number))
        → Balanced [] t
        → Balanced (entries_of_reply reply) (t ++ xreadgroup reply ∷ [])
    reply_call reply t b =
        rw
          (
            delivered-append t (xreadgroup reply ∷ []),
            acked-append t (xreadgroup reply ∷ []),
            append-nil (entries_of_reply reply),
            append-nil (acked t),
          )
          (ap (λ d. d ++ entries_of_reply reply) (b ∙ append-nil (acked t)))

    wait_and_reopen-Owes :
        (attempt : ℕ) (t : List (Call py.Number))
        (next : List (Call py.Number) → Result py.Number Reading.Ending)
        → Balanced [] t
        → ((t' : List (Call py.Number)) → Balanced [] t' → Owes [] (next t'))
        → Owes [] (Reading.wait_and_reopen py w attempt t next)
    wait_and_reopen-Owes attempt t next b h =
        let call : List (Call py.Number) = wait (reconnect_backoff_seconds attempt) ∷ [] in
        let b' : Balanced [] (t ++ call) = quiet_call [] t call refl refl b in
        let reopened = quiet_call [] (t ++ call) (close_client ∷ open_client ∷ []) refl refl b' in
        elim (w.wait_is_set (t ++ call))
          as (λ r. Owes [] (
            if r
            then (returned Reading.stop_requested, t ++ call)
            else next ((t ++ call) ++ close_client ∷ open_client ∷ []))) [
              | true ↦ b'
              | false ↦ h _ reopened
            ]

    after_group_reply-Owes :
        (names : List Text) (attempt : ℕ)
        (again : ℕ → List (Call py.Number) → Result py.Number Reading.Ending) (reply : Reply)
        (t : List (Call py.Number))
        → ((a : ℕ) (t' : List (Call py.Number)) → Balanced [] t' → Owes [] (again a t'))
        → Balanced (entries_of_reply reply) t
        → Owes [] (
            Reading.after_group_reply py w keys bar_timeframe strategy_symbol names attempt again
              reply t)
    after_group_reply-Owes names attempt again disconnected t h b =
        wait_and_reopen-Owes attempt t _ b (λ t' b'.
          then_call-Owes [] [] (Reading.ensure_consumer_groups py w names t') _
            (ensure-Owes names [] t' b') (λ u t'' b''. h (suc attempt) t'' b''))
    after_group_reply-Owes names attempt again (messages batch) t h b =
        then_call-Owes [] [] _ _ (group_batch-Owes batch t b) (λ u t' b'. h 0 t' b')

    xreadgroup_loop-Owes :
        (names : List Text) (rounds attempt : ℕ) (t : List (Call py.Number))
        → Balanced [] t
        → Owes []
            (Reading.xreadgroup_loop py w keys bar_timeframe strategy_symbol names rounds attempt t)
    unfolding Reading.xreadgroup_loop
    xreadgroup_loop-Owes names zero attempt t b = b
    xreadgroup_loop-Owes names (suc rounds) attempt t b =
        let again : ℕ → List (Call py.Number) → Result py.Number Reading.Ending = λ a t'.
          Reading.xreadgroup_loop py w keys bar_timeframe strategy_symbol names rounds a t' in
        elim (w.stop_is_set t)
          as (λ r. Owes [] (
            if r
            then (returned Reading.stop_requested, t)
            else Reading.after_group_reply py w keys bar_timeframe strategy_symbol names attempt
                again (w.reads t) (t ++ xreadgroup (w.reads t) ∷ []))) [
                  | true ↦ b
                  | false ↦
                      after_group_reply-Owes names attempt _ (w.reads t) _
                        (λ a t' b'. xreadgroup_loop-Owes names rounds a t' b')
                        (reply_call (w.reads t) t b)
                ]

    close_after-Owes :
        (r : Result py.Number Reading.Ending) → Owes [] r → Owes [] (Reading.close_after py w r)
    close_after-Owes (returned a, t) b = quiet_call [] t (close_client ∷ []) refl refl b
    close_after-Owes (raised e, t) (backlog, b) =
        (backlog, quiet_call backlog t (close_client ∷ []) refl refl b)

    -- Over a run of the consumer group's loop, the messages that were acknowledged are the messages
    -- that were delivered, in order and each once; only when an exception ends the run may some last
    -- ones lack.
    pub run_xreadgroup_loop-Owes :
        (names : List Text) (rounds : ℕ)
        → Owes [] (Reading.run_xreadgroup_loop py w keys bar_timeframe strategy_symbol names rounds)
    unfolding Reading.run_xreadgroup_loop
    run_xreadgroup_loop-Owes names rounds = close_after-Owes _ (
        then_call-Owes [] [] (Reading.ensure_consumer_groups py w names (open_client ∷ [])) _
          (ensure-Owes names [] (open_client ∷ []) refl)
          (λ u t b. xreadgroup_loop-Owes names rounds 0 t b))

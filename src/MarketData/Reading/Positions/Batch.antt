-- ===== src/MarketData/Reading/Positions/Batch.antt =====
-- The messages of a reply leave the positions as they are.
use swr_ddd.Common.{
  true, false, Option, none, some, List, [], ◌∷◌, ◌++◌, if◌then◌else◌, ◌≡◌, refl, Outcome, returned,
  raised,
}
use swr_ddd.Common.Text.{Text}
use swr_ddd.Common.Dict.{Dict}
use swr_ddd.MarketData.Streams.{MarketDataRedisKeys}
use swr_ddd.MarketData.Decoding.{Python, Tick, IngressError, stream_payload_to_tick}
use swr_ddd.MarketData.Ingress.{
  Redis, Call, on_tick, Result, Fields, not_a_dict, dict, handle_read_fields, process_fields,
  process_one_stream_field, after_decoding, dispatch_tick, Pending, Step, no_callback, then_step,
  drop_pending, matches_strategy,
}
use swr_ddd.MarketData.Reading
use swr_ddd.MarketData.Reading.{position_or}
use swr_ddd.MarketData.Reading.Positions.{asks_after_last, Asked, quiet_call, AskedResult}

module _ (py : Python) (w : Redis py.Number) (start_id s : Text) where
  pub then_call-Asked {ℓ κ} :
      {A : Type ℓ} {B : Type κ} (last_id : A → Text) (last_id' : B → Text) (r : Result py.Number A)
      (next : A → List (Call py.Number) → Result py.Number B)
      → AskedResult start_id s last_id r
      → ((a : A) (t : List (Call py.Number))
          → Asked start_id s (last_id a) t
          → AskedResult start_id s last_id' (next a t))
      → AskedResult start_id s last_id' (Reading.then_call py w r next)
  then_call-Asked last_id last_id' (returned a, t) next b h = h a t b
  then_call-Asked last_id last_id' (raised e, t) next b h = b

  module _ (keys : MarketDataRedisKeys) (bar_timeframe : Text) (strategy_symbol : Option Text) where
    abbrev AskedStep : Text → Step py w → Type 0
    AskedStep last_id (returned u, (pending, t)) = Asked start_id s last_id t
    AskedStep last_id (raised e, (pending, t)) = asks_after_last start_id s t start_id ≡ true

    field-Asked :
        (last_id field : Text) (d : Outcome IngressError (Option (Tick py.Number)))
        (pending : List Text) (t : List (Call py.Number))
        → Asked start_id s last_id t
        → AskedStep last_id (
            after_decoding py w keys bar_timeframe strategy_symbol field d
              (no_callback py w)
              (pending, t))
    unfolding dispatch_tick
    field-Asked last_id field (raised e) pending t h = h.asked
    field-Asked last_id field (returned none) pending t h = h
    field-Asked last_id field (returned (some tick)) pending t h =
        let passed : Asked start_id s last_id (t ++ on_tick tick ∷ []) =
          quiet_call start_id s last_id t (on_tick tick ∷ []) (λ l. refl) (λ l. refl) h in
        elim (matches_strategy py w keys bar_timeframe strategy_symbol field)
          as (λ r. AskedStep last_id (
            if r
            then dispatch_tick py w tick (no_callback py w) (pending, t)
            else (returned tt, (pending, t)))) [ true ↦ passed | false ↦ h ]

    then_step-Asked :
        (last_id : Text) (r : Step py w) (next : Pending py w → Step py w)
        → AskedStep last_id r
        → ((pending : List Text) (t : List (Call py.Number))
            → Asked start_id s last_id t
            → AskedStep last_id (next (pending, t)))
        → AskedStep last_id (then_step py w keys bar_timeframe strategy_symbol r next)
    then_step-Asked last_id (returned u, (pending, t)) next b h = h pending t b
    then_step-Asked last_id (raised e, (pending, t)) next b h = b

    pub process_fields-Asked :
        (last_id r m : Text) (fields : Dict Text) (pending : List Text) (t : List (Call py.Number))
        → Asked start_id s last_id t
        → AskedStep last_id (
            process_fields py w keys bar_timeframe strategy_symbol r m
              (λ field. no_callback py w)
              fields
              (pending, t))
    unfolding process_fields process_one_stream_field
    process_fields-Asked last_id r m [] pending t h = h
    process_fields-Asked last_id r m ((field, payload) ∷ fields) pending t h =
        then_step-Asked last_id _ _
          (field-Asked last_id field
            (stream_payload_to_tick py keys bar_timeframe r field payload m) pending t h)
          (λ pending' t' h'. process_fields-Asked last_id r m fields pending' t' h')

    drop_pending-Asked :
        (last_id : Text) (r : Step py w)
        → AskedStep last_id r
        → AskedResult start_id s
            (λ u. last_id)
            (drop_pending py w keys bar_timeframe strategy_symbol r)
    drop_pending-Asked last_id (returned u, (pending, t)) h = h
    drop_pending-Asked last_id (raised e, (pending, t)) h = h

    handle_read_fields-Asked :
        (last_id r m : Text) (fields : Fields) (t : List (Call py.Number))
        → Asked start_id s last_id t
        → AskedResult start_id s
            (λ u. last_id)
            (handle_read_fields py w keys bar_timeframe strategy_symbol r m fields t)
    unfolding handle_read_fields
    handle_read_fields-Asked last_id r m not_a_dict t h = h
    handle_read_fields-Asked last_id r m (dict fields) t h =
        drop_pending-Asked last_id _ (process_fields-Asked last_id r m fields [] t h)

    -- the trace keeps its last entry, and the id that comes back is that of the last message
    pub read_messages-Asked :
        (last_id r : Text) (ms : List (Text × Fields)) (p : Text) (t : List (Call py.Number))
        → Asked start_id s last_id t
        → AskedResult start_id s
            (λ q. last_id)
            (Reading.read_messages py w keys bar_timeframe strategy_symbol r ms p t)
    unfolding Reading.read_messages
    read_messages-Asked last_id r [] p t h = h
    read_messages-Asked last_id r ((m, fields) ∷ ms) p t h =
        then_call-Asked (λ u. last_id) (λ q. last_id) _ _
          (handle_read_fields-Asked last_id r m fields t h)
          (λ u t' h'. read_messages-Asked last_id r ms m t' h')

-- ===== src/MarketData/Ingress/Messages.antt =====
-- What becomes of one message that XREADGROUP delivered.
use swr_ddd.Common.{
  Bool-cases, inl, inr, Option, none, some, List, [], ◌∷◌, ◌++◌, if◌then◌else◌, ◌≡◌, refl, ◌∙◌,
  arith, Outcome, NoneType, returned, raised,
}
use swr_ddd.Common.Text.{Text, text_eq_refl}
use swr_ddd.Common.Dict.{Dict}
use swr_ddd.MarketData.Streams.{MarketDataRedisKeys}
use swr_ddd.MarketData.Decoding.{Python, Tick, IngressError, stream_payload_to_tick}
use swr_ddd.MarketData.Ingress.{
  Redis, Call, on_tick, Result, Message, Fields, not_a_dict, dict, keys_of, remove_one, Pending,
  Step, ack, ack_one, with_pending, dispatch_tick, matches_strategy, after_decoding,
  process_one_stream_field, process_fields, then_step, ack_leftover, drop_pending,
  handle_group_fields, handle_group_message,
}

module _ (py : Python) (w : Redis py.Number) where
  module _ (keys : MarketDataRedisKeys) (bar_timeframe : Text) (strategy_symbol : Option Text) where
    -- What the fields of a message come to, without the callbacks: each decoded tick of the
    -- strategy's symbol goes to the strategy, in order, an exception ends it, and after the last
    -- field the message is acknowledged.
    abbrev pub pass_tick : Text → Tick py.Number → List (Call py.Number) → List (Call py.Number)
    pass_tick field tick t =
        if matches_strategy py w keys bar_timeframe strategy_symbol field
        then t ++ on_tick tick ∷ []
        else t

    abbrev pub pass_decoded {ℓ} :
        {A : Type ℓ}
        → Text
        → Outcome IngressError (Option (Tick py.Number))
        → List (Call py.Number)
        → (List (Call py.Number) → Result py.Number A)
        → Result py.Number A
    pass_decoded field (raised e) t next = (raised e, t)
    pass_decoded field (returned none) t next = next t
    pass_decoded field (returned (some tick)) t next = next (pass_tick field tick t)

    unfoldable pub pass_fields :
        Text → Text → Dict Text → List (Call py.Number) → Result py.Number NoneType
    unfolding ack
    pass_fields s m [] t = ack py w s m t
    pass_fields s m ((field, payload) ∷ fields) t =
        pass_decoded field (stream_payload_to_tick py keys bar_timeframe s field payload m) t
          (λ t'. pass_fields s m fields t')

    abbrev pub fields_of : Fields → Dict Text
    fields_of not_a_dict = []
    fields_of (dict fields) = fields

    ack_one-more :
        (s m f g : Text) (gs : List Text) (t : List (Call py.Number))
        → ack_one py w s m f (f ∷ g ∷ gs, t) ≡ (returned tt, (g ∷ gs, t))
    unfolding ack_one remove_one
    ack_one-more s m f g gs t = ground (arith, text_eq_refl f)

    ack_one-last :
        (s m f : Text) (t : List (Call py.Number))
        → ack_one py w s m f (f ∷ [], t) ≡ with_pending py w [] (ack py w s m t)
    unfolding ack_one remove_one
    ack_one-last s m f t = ground (arith, text_eq_refl f)

    -- the whole of a message's loop, from its first field
    abbrev group_fields :
        Text → Text → Dict Text → List (Call py.Number) → Result py.Number NoneType
    group_fields s m fields t = drop_pending py w keys bar_timeframe strategy_symbol (
        then_step py w keys bar_timeframe strategy_symbol
          (process_fields py w keys bar_timeframe strategy_symbol s m (ack_one py w s m) fields
            (keys_of fields, t))
          (ack_leftover py w keys bar_timeframe strategy_symbol s m))

    -- the same from a decoded field on, with what follows it
    abbrev after_field :
        Text
        → Text
        → Text
        → Outcome IngressError (Option (Tick py.Number))
        → Pending py w
        → (Pending py w → Step py w)
        → Result py.Number NoneType
    after_field s m field d p next = drop_pending py w keys bar_timeframe strategy_symbol (
        then_step py w keys bar_timeframe strategy_symbol
          (then_step py w keys bar_timeframe strategy_symbol
            (after_decoding py w keys bar_timeframe strategy_symbol field d (ack_one py w s m field)
              p)
            next)
          (ack_leftover py w keys bar_timeframe strategy_symbol s m))

    last_field :
        (s m field : Text) (d : Outcome IngressError (Option (Tick py.Number)))
        (t : List (Call py.Number))
        → after_field s m field d (field ∷ [], t) (λ p. (returned tt, p))
          ≡ pass_decoded field d t (ack py w s m)
    unfolding ack dispatch_tick
    last_field s m field (raised e) t = refl
    last_field s m field (returned none) t = ground (arith, ack_one-last s m field t)
    last_field s m field (returned (some tick)) t =
        ground (arith, ack_one-last s m field t, ack_one-last s m field (t ++ on_tick tick ∷ []))

    more_fields :
        (s m field g : Text) (gs : List Text) (d : Outcome IngressError (Option (Tick py.Number)))
        (t : List (Call py.Number)) (next : Pending py w → Step py w)
        → after_field s m field d (field ∷ g ∷ gs, t) next
          ≡ pass_decoded field d t (λ t'. drop_pending py w keys bar_timeframe strategy_symbol (
              then_step py w keys bar_timeframe strategy_symbol
                (next (g ∷ gs, t'))
                (ack_leftover py w keys bar_timeframe strategy_symbol s m)))
    unfolding dispatch_tick
    more_fields s m field g gs (raised e) t next = refl
    more_fields s m field g gs (returned none) t next = rw (ack_one-more s m field g gs t) refl
    more_fields s m field g gs (returned (some tick)) t next =
        elim (Bool-cases (matches_strategy py w keys bar_timeframe strategy_symbol field)) [
          | inl h ↦ rw (h, ack_one-more s m field g gs (t ++ on_tick tick ∷ [])) refl
          | inr h ↦ rw (h, ack_one-more s m field g gs t) refl
        ]

    pass_decoded-next :
        (field : Text) (d : Outcome IngressError (Option (Tick py.Number)))
        (t : List (Call py.Number)) (f g : List (Call py.Number) → Result py.Number NoneType)
        → ((t' : List (Call py.Number)) → f t' ≡ g t')
        → pass_decoded field d t f ≡ pass_decoded field d t g
    pass_decoded-next field (raised e) t f g h = refl
    pass_decoded-next field (returned none) t f g h = h t
    pass_decoded-next field (returned (some tick)) t f g h = h (pass_tick field tick t)

    group_fields-pass :
        (s m field payload : Text) (fields : Dict Text) (t : List (Call py.Number))
        → group_fields s m ((field, payload) ∷ fields) t
          ≡ pass_fields s m ((field, payload) ∷ fields) t
    unfolding process_fields pass_fields process_one_stream_field
    group_fields-pass s m field payload [] t =
        last_field s m field (stream_payload_to_tick py keys bar_timeframe s field payload m) t
    group_fields-pass s m field payload ((g, p) ∷ fields) t =
        let d = stream_payload_to_tick py keys bar_timeframe s field payload m in
        more_fields s m field g (keys_of fields) d t _
        ∙ pass_decoded-next field d t _ _ (group_fields-pass s m g p fields)

    pub handle_group_fields-pass :
        (s m : Text) (fields : Fields) (t : List (Call py.Number))
        → handle_group_fields py w keys bar_timeframe strategy_symbol s m fields t
          ≡ pass_fields s m (fields_of fields) t
    unfolding handle_group_fields pass_fields
    handle_group_fields-pass s m not_a_dict t = refl
    handle_group_fields-pass s m (dict []) t = refl
    handle_group_fields-pass s m (dict ((field, payload) ∷ fields)) t =
        group_fields-pass s m field payload fields t

    -- The handler of a message that XREADGROUP delivered does what `pass_fields` says: each decoded
    -- tick of the strategy's symbol goes to the strategy, in order, a failed conversion ends it with
    -- nothing acknowledged, and after the last field the message is acknowledged once.
    pub handle_group_message-pass :
        (m : Message) (t : List (Call py.Number))
        → handle_group_message py w keys bar_timeframe strategy_symbol m t
          ≡ pass_fields m.stream_name m.msg_id (fields_of m.fields) t
    unfolding handle_group_message
    handle_group_message-pass m t = handle_group_fields-pass m.stream_name m.msg_id m.fields t

-- ===== src/MarketData/Reading/Positions/Known.antt =====
-- The position of a stream after a reply, and that every stream of the loop has one.
use swr_ddd.Common.{
  true, Option, List, [], ◌∷◌, if◌then◌else◌, ◌≡◌, refl, ap, subst, ◌∙◌, is_some, Bool-cases, inl,
  inr, arith, Yields, returned, raised,
}
use swr_ddd.Common.Text.{Text, member, text_eq, text_eq_iff}
use swr_ddd.Common.Dict.{Dict, get, put, get-put}
use swr_ddd.MarketData.Streams.{MarketDataRedisKeys}
use swr_ddd.MarketData.Decoding.{Python}
use swr_ddd.MarketData.Ingress.{Redis, Call, Result, Fields, handle_read_fields}
use swr_ddd.MarketData.Reading
use swr_ddd.MarketData.Reading.{position_or}
use swr_ddd.MarketData.Reading.Positions.{last_of_messages, last_in_batch}

module _ (py : Python) (w : Redis py.Number) (start_id s : Text) where
  module _ (keys : MarketDataRedisKeys) (bar_timeframe : Text) (strategy_symbol : Option Text) where
    pub then_call-Yields {ℓ κ ν μ} :
        {A : Type ℓ} {B : Type κ} (P : A → Type ν) (Q : B → Type μ) (r : Result py.Number A)
        (next : A → List (Call py.Number) → Result py.Number B)
        → Yields P (r.0)
        → ((a : A) (t : List (Call py.Number)) → P a → Yields Q (next a t).0)
        → Yields Q (Reading.then_call py w r next).0
    then_call-Yields P Q (returned a, t) next p h = h a t p
    then_call-Yields P Q (raised e, t) next p h = tt

    pub any_result : {A : Type 0} (r : Result py.Number A) → Yields (λ a. Unit {0}) (r.0)
    any_result (returned a, t) = tt
    any_result (raised e, t) = tt

    pub read_messages-last :
        (r : Text) (ms : List (Text × Fields)) (p : Text) (t : List (Call py.Number))
        → Yields
            (λ q. q ≡ last_of_messages ms p)
            (Reading.read_messages py w keys bar_timeframe strategy_symbol r ms p t).0
    unfolding Reading.read_messages
    read_messages-last r [] p t = refl
    read_messages-last r ((m, fields) ∷ ms) p t =
        then_call-Yields _ _
          (handle_read_fields py w keys bar_timeframe strategy_symbol r m fields t) _
          (any_result (handle_read_fields py w keys bar_timeframe strategy_symbol r m fields t))
          (λ u t' v. read_messages-last r ms m t')

    abbrev pub position : Dict Text → Text
    position positions = position_or (get s positions) start_id

    pub position-put :
        (r : Text) (ms : List (Text × Fields)) (positions : Dict Text)
        → position (put r (last_of_messages ms (position_or (get r positions) start_id)) positions)
          ≡ (if text_eq r s then last_of_messages ms (position positions) else position positions)
    position-put r ms positions =
        let value = last_of_messages ms (position_or (get r positions) start_id) in
        ground (arith, get-put r s value positions, text_eq_iff r s)

    pub put_read :
        (r : Text) (ms : List (Text × Fields)) (q : Text) (positions : Dict Text)
        → q ≡ last_of_messages ms (position_or (get r positions) start_id)
        → position (put r q positions)
          ≡ (if text_eq r s then last_of_messages ms (position positions) else position positions)
    put_read r ms q positions e =
        ap (λ x. position (put r x positions)) e ∙ position-put r ms positions

    pub read_batch-last :
        (batch : Reading.Batch) (positions : Dict Text) (t : List (Call py.Number))
        → Yields
            (λ d. position d ≡ last_in_batch s batch (position positions))
            (Reading.read_batch py w keys bar_timeframe strategy_symbol start_id batch positions
              t).0
    unfolding Reading.read_batch
    read_batch-last [] positions t = refl
    read_batch-last ((r, ms) ∷ batch) positions t =
        then_call-Yields _ _
          (Reading.read_messages py w keys bar_timeframe strategy_symbol r ms _ t) _
          (read_messages-last r ms _ t)
          (λ q t' e.
            subst
              (λ l.
                Yields (λ d. position d ≡ last_in_batch s batch l)
                  (Reading.read_batch py w keys bar_timeframe strategy_symbol start_id batch
                    (put r q positions) t').0)
              (put_read r ms q positions e) (read_batch-last batch (put r q positions) t'))

    pub put_known :
        (r q : Text) (d : Dict Text) → is_some (get s d) ≡ true → is_some (get s (put r q d)) ≡ true
    put_known r q d h = ground (arith, get-put r s q d)

    pub read_batch-known :
        (batch : Reading.Batch) (positions : Dict Text) (t : List (Call py.Number))
        → is_some (get s positions) ≡ true
        → Yields
            (λ d. is_some (get s d) ≡ true)
            (Reading.read_batch py w keys bar_timeframe strategy_symbol start_id batch positions
              t).0
    unfolding Reading.read_batch
    read_batch-known [] positions t h = h
    read_batch-known ((r, ms) ∷ batch) positions t h =
        then_call-Yields _ _
          (Reading.read_messages py w keys bar_timeframe strategy_symbol r ms _ t) _
          (any_result (Reading.read_messages py w keys bar_timeframe strategy_symbol r ms _ t))
          (λ q t' e. read_batch-known batch (put r q positions) t' (put_known r q positions h))

    abbrev pub starts : List Text → Dict Text → Dict Text
    starts = Reading.start_positions py w keys bar_timeframe strategy_symbol start_id

    pub starts-keep :
        (names : List Text) (d : Dict Text)
        → is_some (get s d) ≡ true
        → is_some (get s (starts names d)) ≡ true
    starts-keep [] d h = h
    starts-keep (n ∷ names) d h = starts-keep names (put n start_id d) (put_known n start_id d h)

    pub starts-known :
        (names : List Text) (d : Dict Text)
        → member s names ≡ true
        → is_some (get s (starts names d)) ≡ true
    unfolding member
    starts-known [] d h = cc
    starts-known (n ∷ names) d h = elim (Bool-cases (text_eq s n)) [
      | inl same ↦
          let known : is_some (get s (put n start_id d)) ≡ true =
            ground (arith, get-put n s start_id d, text_eq_iff s n, text_eq_iff n s) in
          starts-keep names (put n start_id d) known
      | inr differs ↦ starts-known names (put n start_id d) (ground arith)
    ]

    pub start_positions-start :
        (names : List Text) (d : Dict Text)
        → position d ≡ start_id
        → position
            (Reading.start_positions py w keys bar_timeframe strategy_symbol start_id names d)
          ≡ start_id
    start_positions-start [] d h = h
    start_positions-start (r ∷ names) d h =
        start_positions-start names (put r start_id d) (ground (arith, get-put r s start_id d, h))

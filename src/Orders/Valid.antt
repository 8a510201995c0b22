-- ===== src/Orders/Valid.antt =====
-- What holds of every order intent that is built.
use swr_ddd.Common.{
  ◌≡◌, refl, Bool, true, false, ◌&&◌, Option, none, some, returned, is_some, Yields, Yields-bind,
  arith,
}
use swr_ddd.Common.Text.{Text, strip_idem}
use swr_ddd.Mode.{GivenMode, typed, named}
use swr_ddd.Launch.Fields.{IsName, IsOptionalName, IsTyped}
use swr_ddd.Orders.{
  limit, stop, stop_limit, market, GivenSide, side_member, side_text, GivenType, type_member,
  type_text, Number, decimal, written, Moment, datetime, other_value, GivenId, int_id, str_id,
  other_id, OrderIntent, require_name, normalize_name, intent_mode, intent_side, intent_type,
  check_moment, intent_id, check_prices, to_decimal, positive, positive_price, build_intent,
}

abbrev pub IsSide : GivenSide → Type 0
IsSide (side_member s) = Unit
IsSide (side_text t) = false ≡ true

abbrev pub IsMoment : Option Moment → Type 0
IsMoment none = Unit
IsMoment (some (datetime n)) = Unit
IsMoment (some (other_value n)) = false ≡ true

abbrev pub IsId : Option GivenId → Type 0
IsId (some other_id) = false ≡ true
IsId (some (int_id t)) = false ≡ true
IsId _ = Unit

-- whether the prices are there that a type asks for; a string is no type
abbrev pub priced : GivenType → Bool → Bool → Bool
priced (type_member market) has_limit has_stop = true
priced (type_member limit) has_limit has_stop = has_limit
priced (type_member stop) has_limit has_stop = has_stop
priced (type_member stop_limit) has_limit has_stop = has_limit && has_stop
priced (type_text t) has_limit has_stop = false

abbrev pub IsMember : GivenType → Type 0
IsMember (type_member k) = Unit
IsMember (type_text t) = false ≡ true

require_name-IsName : (v f : Text) → Yields IsName (require_name v f)
unfolding require_name
require_name-IsName v f = ground (arith, strip_idem v)

normalize_name-IsOptionalName :
    (v : Option Text) (f : Text) → Yields IsOptionalName (normalize_name v f)
unfolding normalize_name
normalize_name-IsOptionalName none f = tt
normalize_name-IsOptionalName (some v) f = ground (arith, strip_idem v)

intent_mode-IsTyped : (m : GivenMode) → Yields IsTyped (intent_mode m)
unfolding intent_mode
intent_mode-IsTyped (typed m) = tt
intent_mode-IsTyped (named t) = ground arith

intent_side-IsSide : (s : GivenSide) → Yields IsSide (intent_side s)
unfolding intent_side
intent_side-IsSide (side_member s) = tt
intent_side-IsSide (side_text t) = ground arith

intent_type-IsMember : (k : GivenType) → Yields IsMember (intent_type k)
unfolding intent_type
intent_type-IsMember (type_member k) = tt
intent_type-IsMember (type_text t) = ground arith

check_moment-IsMoment : (m : Option Moment) (f : Text) → Yields (λ _. IsMoment m) (check_moment m f)
unfolding check_moment
check_moment-IsMoment none f = tt
check_moment-IsMoment (some (datetime n)) f = tt
check_moment-IsMoment (some (other_value n)) f = tt

intent_id-IsId : (i : Option GivenId) → Yields IsId (intent_id i)
unfolding intent_id
intent_id-IsId none = tt
intent_id-IsId (some (int_id t)) = tt
intent_id-IsId (some (str_id t)) = ground arith
intent_id-IsId (some other_id) = tt

check_prices-priced :
    (k : GivenType) (l s : Bool)
    → IsMember k
    → Yields (λ _. priced k l s ≡ true) (check_prices k l s)
unfolding check_prices
check_prices-priced (type_member market) l s h = refl
check_prices-priced (type_member limit) l s h = ground arith
check_prices-priced (type_member stop) l s h = ground arith
check_prices-priced (type_member stop_limit) l s h = ground arith
check_prices-priced (type_text t) l s h = cc

module _ {D : Type 0} (decimal_of : Text → Option D) (at_most_zero : D → Option Bool) where
  abbrev pub IsPositive : Number D → Type 0
  IsPositive (decimal d) = at_most_zero d ≡ some false
  IsPositive (written t) = false ≡ true

  abbrev pub IsOptionalPositive : Option (Number D) → Type 0
  IsOptionalPositive none = Unit
  IsOptionalPositive (some n) = IsPositive n

  -- Every name is stripped and not blank, the enums are members, the numbers are positive decimals,
  -- the prices are there that the order type asks for, and the times are datetimes.
  pub record IsSubmittable (i : OrderIntent D) : Type 0 where
    pub idempotency_key : IsName i.idempotency_key
    pub runtime_id : IsName i.runtime_id
    pub strategy_version_id : IsName i.strategy_version_id
    pub instrument_id : IsName i.instrument_id
    pub time_in_force : IsOptionalName i.time_in_force
    pub correlation_id : IsOptionalName i.correlation_id
    pub causation_id : IsOptionalName i.causation_id
    pub mode : IsTyped i.mode
    pub side : IsSide i.side
    pub quantity : IsPositive i.quantity
    pub limit_price : IsOptionalPositive i.limit_price
    pub stop_price : IsOptionalPositive i.stop_price
    pub prices : priced i.order_type (is_some i.limit_price) (is_some i.stop_price) ≡ true
    pub created_at : IsMoment i.created_at
    pub requested_at : IsMoment i.requested_at
    pub order_intent_id : IsId i.order_intent_id

  positive-IsPositive :
      (n : Number D) (f r : Text) → Yields IsPositive (positive decimal_of at_most_zero n f r)
  unfolding positive to_decimal
  positive-IsPositive (decimal d) f r = ground arith
  positive-IsPositive (written t) f r = ground arith

  positive_price-IsOptionalPositive :
      (n : Option (Number D)) (f : Text)
      → Yields IsOptionalPositive (positive_price decimal_of at_most_zero n f)
  unfolding positive_price
  positive_price-IsOptionalPositive none f = tt
  positive_price-IsOptionalPositive (some n) f =
      Yields-bind IsPositive IsOptionalPositive (positive decimal_of at_most_zero n f _)
        (λ p. returned (some p)) (positive-IsPositive n f _) (λ p h. h)

  -- An order intent that is built is submittable: its names are stripped and not blank, its mode,
  -- side and type are members of their enums, its quantity and its prices are positive decimals, it
  -- has the prices that its type asks for, and its times are datetimes.
  pub build_intent-IsSubmittable :
      (i : OrderIntent D) → Yields IsSubmittable (build_intent decimal_of at_most_zero i)
  unfolding build_intent
  build_intent-IsSubmittable i =
      Yields-bind _ IsSubmittable _ _ (require_name-IsName i.idempotency_key _) λ key h1.
        Yields-bind _ IsSubmittable _ _ (require_name-IsName i.runtime_id _) λ runtime h2.
          Yields-bind _ IsSubmittable _ _ (require_name-IsName i.strategy_version_id _)
            λ version h3.
              Yields-bind _ IsSubmittable _ _ (require_name-IsName i.instrument_id _)
                λ instrument h4.
                  Yields-bind _ IsSubmittable _ _ (normalize_name-IsOptionalName i.time_in_force _)
                    λ force h5.
                      Yields-bind _ IsSubmittable _ _
                        (normalize_name-IsOptionalName i.correlation_id _)
                        λ correlation h6.
                          Yields-bind _ IsSubmittable _ _
                            (normalize_name-IsOptionalName i.causation_id _)
                            λ causation h7.
                              Yields-bind _ IsSubmittable _ _ (intent_mode-IsTyped i.mode)
                                λ mode h8.
                                  Yields-bind _ IsSubmittable _ _ (intent_side-IsSide i.side)
                                    λ side h9.
                                      Yields-bind _ IsSubmittable _ _
                                        (intent_type-IsMember i.order_type)
                                        λ kind h10.
                                          Yields-bind _ IsSubmittable _ _
                                            (positive-IsPositive i.quantity _ _)
                                            λ quantity h11.
                                              Yields-bind _ IsSubmittable _ _
                                                (positive_price-IsOptionalPositive i.limit_price _)
                                                λ limit_price h12.
                                                  Yields-bind _ IsSubmittable _ _
                                                    (positive_price-IsOptionalPositive i.stop_price
                                                      _)
                                                    λ stop_price h13.
                                                      Yields-bind _ IsSubmittable _ _
                                                        (check_prices-priced kind
                                                          (is_some limit_price) (is_some stop_price)
                                                          h10)
                                                        λ _ h14.
                                                          Yields-bind _ IsSubmittable _ _
                                                            (check_moment-IsMoment i.created_at _)
                                                            λ _ h15.
                                                            Yields-bind _ IsSubmittable _ _
                                                            (check_moment-IsMoment i.requested_at _)
                                                            λ _ h16.
                                                            Yields-bind _ IsSubmittable _ _
                                                            (intent_id-IsId i.order_intent_id)
                                                            λ id h17.
                                                            let built : OrderIntent D = record {
                                                            idempotency_key = key;
                                                            runtime_id = runtime;
                                                            strategy_version_id = version;
                                                            mode = mode;
                                                            instrument_id = instrument;
                                                            side = side;
                                                            order_type = kind;
                                                            quantity = quantity;
                                                            limit_price = limit_price;
                                                            stop_price = stop_price;
                                                            time_in_force = force;
                                                            correlation_id = correlation;
                                                            causation_id = causation;
                                                            created_at = i.created_at;
                                                            requested_at = i.requested_at;
                                                            order_intent_id = id;
                                                            } in
                                                            let submittable : IsSubmittable built =
                                                            record {
                                                            idempotency_key = h1;
                                                            runtime_id = h2;
                                                            strategy_version_id = h3;
                                                            instrument_id = h4;
                                                            time_in_force = h5;
                                                            correlation_id = h6;
                                                            causation_id = h7;
                                                            mode = h8;
                                                            side = h9;
                                                            quantity = h11;
                                                            limit_price = h12;
                                                            stop_price = h13;
                                                            prices = h14;
                                                            created_at = h15;
                                                            requested_at = h16;
                                                            order_intent_id = h17;
                                                            } in
                                                            submittable

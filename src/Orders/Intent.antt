-- ===== src/Orders/Intent.antt =====
-- `OrderIntent`, with what its `__post_init__` checks and rewrites. `Decimal` is a parameter: the
-- type, what `Decimal(str(value))` parses, and `value <= 0`.
use swr_ddd.Common.{
  ℕ, Bool, true, false, not, ◌||◌, Option, none, some, Outcome, returned, raised, raise_if, is_some,
  ◌>>=◌, ◌>>◌, NoneType, if◌then◌else◌,
}
use swr_ddd.Common.Text.{Text, codes, strip, is_empty, text_eq}
use swr_ddd.Mode.{GivenMode, typed, named, mode_of}

pub data OrderIntentSide : Type 0 where
  buy sell : OrderIntentSide

pub data OrderIntentType : Type 0 where
  market limit stop stop_limit : OrderIntentType

-- a member of an enum, or a string
pub data GivenSide : Type 0 where
  side_member : OrderIntentSide → GivenSide
  side_text : Text → GivenSide

pub data GivenType : Type 0 where
  type_member : OrderIntentType → GivenType
  type_text : Text → GivenType

-- a decimal, or another value as the text that `str` makes of it
pub data Number (D : Type 0) : Type 0 where
  decimal : D → Number D
  written : Text → Number D

-- whether a value is a `datetime`; the value itself is only stored
pub data Moment : Type 0 where
  datetime other_value : ℕ → Moment

-- an id: an `int` as the text that `str` makes of it, a `str`, or another value
pub data GivenId : Type 0 where
  int_id str_id : Text → GivenId
  other_id : GivenId

pub data IntentError : Type 0 where
  unsupported_mode : Text → IntentError
  invalid_field : Text → Text → IntentError
  invalid_operation : IntentError

pub record OrderIntent (D : Type 0) : Type 0 where
  pub idempotency_key : Text
  pub runtime_id : Text
  pub strategy_version_id : Text
  pub mode : GivenMode
  pub instrument_id : Text
  pub side : GivenSide
  pub order_type : GivenType
  pub quantity : Number D
  pub limit_price : Option (Number D)
  pub stop_price : Option (Number D)
  pub time_in_force : Option Text
  pub correlation_id : Option Text
  pub causation_id : Option Text
  pub created_at : Option Moment
  pub requested_at : Option Moment
  pub order_intent_id : Option GivenId

unfoldable pub require_name : Text → Text → Outcome IntentError Text
require_name value field =
    if is_empty (strip value)
    then raised (invalid_field field (codes "must_not_be_blank"))
    else returned (strip value)

unfoldable pub normalize_name : Option Text → Text → Outcome IntentError (Option Text)
normalize_name none field = returned none
normalize_name (some value) field =
    if is_empty (strip value)
    then raised (invalid_field field (codes "must_not_be_blank_if_provided"))
    else returned (some (strip value))

unfoldable pub intent_mode : GivenMode → Outcome IntentError GivenMode
intent_mode (typed m) = returned (typed m)
intent_mode (named t) = elim (mode_of t) [
  | none ↦ raised (unsupported_mode t)
  | some m ↦ returned (typed m)
]

-- `OrderIntentSide(side)`
unfoldable pub intent_side : GivenSide → Outcome IntentError GivenSide
intent_side (side_member s) = returned (side_member s)
intent_side (side_text t) =
    if text_eq t (codes "BUY")
    then returned (side_member buy)
    else if text_eq t (codes "SELL")
    then returned (side_member sell)
    else raised (invalid_field (codes "side") (codes "invalid_side"))

-- `OrderIntentType(order_type)`
unfoldable pub intent_type : GivenType → Outcome IntentError GivenType
intent_type (type_member k) = returned (type_member k)
intent_type (type_text t) =
    if text_eq t (codes "MARKET")
    then returned (type_member market)
    else if text_eq t (codes "LIMIT")
    then returned (type_member limit)
    else if text_eq t (codes "STOP")
    then returned (type_member stop)
    else if text_eq t (codes "STOP_LIMIT")
    then returned (type_member stop_limit)
    else raised (invalid_field (codes "order_type") (codes "invalid_order_type"))

abbrev is_datetime : Moment → Bool
is_datetime (datetime n) = true
is_datetime (other_value n) = false

unfoldable pub check_moment : Option Moment → Text → Outcome IntentError NoneType
check_moment none field = returned tt
check_moment (some m) field =
    raise_if (not (is_datetime m)) (invalid_field field (codes "must_be_datetime_or_none"))

unfoldable pub intent_id : Option GivenId → Outcome IntentError (Option GivenId)
intent_id none = returned none
intent_id (some (int_id t)) = returned (some (str_id t))
intent_id (some (str_id t)) =
    if is_empty (strip t)
    then raised
        (invalid_field (codes "order_intent_id") (codes "must_be_non_empty_string_when_provided"))
    else returned (some (str_id (strip t)))
intent_id (some other_id) =
    raised
      (invalid_field (codes "order_intent_id") (codes "must_be_non_empty_string_when_provided"))

-- the prices that the order type asks for
unfoldable pub check_prices : GivenType → Bool → Bool → Outcome IntentError NoneType
check_prices (type_member limit) has_limit has_stop =
    raise_if (not has_limit)
      (invalid_field (codes "limit_price") (codes "required_for_limit_order"))
check_prices (type_member stop) has_limit has_stop =
    raise_if (not has_stop) (invalid_field (codes "stop_price") (codes "required_for_stop_order"))
check_prices (type_member stop_limit) has_limit has_stop =
    raise_if (not has_stop || not has_limit)
      (invalid_field (codes "prices") (codes "limit_and_stop_prices_required_for_stop_limit_order"))
check_prices _ has_limit has_stop = returned tt

module _ {D : Type 0} (decimal_of : Text → Option D) (at_most_zero : D → Option Bool) where
  -- `if d <= 0: raise e`; comparing a NaN raises `InvalidOperation`
  abbrev pub raise_at_most_zero : Option Bool → IntentError → Outcome IntentError NoneType
  raise_at_most_zero none e = raised invalid_operation
  raise_at_most_zero (some b) e = raise_if b e

  abbrev parsed : Text → Option D → Outcome IntentError D
  parsed field none = raised (invalid_field field (codes "invalid_decimal"))
  parsed field (some d) = returned d

  -- `_to_decimal`
  unfoldable pub to_decimal : Number D → Text → Outcome IntentError D
  to_decimal (decimal d) field = returned d
  to_decimal (written t) field = parsed field (decimal_of t)

  -- a number that must be positive
  unfoldable pub positive : Number D → Text → Text → Outcome IntentError (Number D)
  unfolding to_decimal
  positive value field reason = do
    d ← to_decimal value field
    raise_at_most_zero (at_most_zero d) (invalid_field field reason)
    returned (decimal d)

  unfoldable pub positive_price : Option (Number D) → Text → Outcome IntentError (Option (Number D))
  positive_price none field = returned none
  positive_price (some value) field = do
    price ← positive value field (codes "must_be_positive_when_provided")
    returned (some price)

  -- `__post_init__`
  unfoldable pub build_intent : OrderIntent D → Outcome IntentError (OrderIntent D)
  build_intent i = do
    idempotency_key ← require_name i.idempotency_key (codes "idempotency_key")
    runtime_id ← require_name i.runtime_id (codes "runtime_id")
    version ← require_name i.strategy_version_id (codes "strategy_version_id")
    instrument_id ← require_name i.instrument_id (codes "instrument_id")
    time_in_force ← normalize_name i.time_in_force (codes "time_in_force")
    correlation_id ← normalize_name i.correlation_id (codes "correlation_id")
    causation_id ← normalize_name i.causation_id (codes "causation_id")
    mode ← intent_mode i.mode
    side ← intent_side i.side
    order_type ← intent_type i.order_type
    quantity ← positive i.quantity (codes "quantity") (codes "must_be_positive")
    limit_price ← positive_price i.limit_price (codes "limit_price")
    stop_price ← positive_price i.stop_price (codes "stop_price")
    check_prices order_type (is_some limit_price) (is_some stop_price)
    check_moment i.created_at (codes "created_at")
    check_moment i.requested_at (codes "requested_at")
    order_intent_id ← intent_id i.order_intent_id
    returned (record {
      idempotency_key = idempotency_key;
      runtime_id = runtime_id;
      strategy_version_id = version;
      mode = mode;
      instrument_id = instrument_id;
      side = side;
      order_type = order_type;
      quantity = quantity;
      limit_price = limit_price;
      stop_price = stop_price;
      time_in_force = time_in_force;
      correlation_id = correlation_id;
      causation_id = causation_id;
      created_at = i.created_at;
      requested_at = i.requested_at;
      order_intent_id = order_intent_id;
    })

-- ===== src/Orders/Tests.antt =====
-- The theorem on order intents at a limit order, with decimals as numbers of cents.
use swr_ddd.Common.{ℕ, ◌==◌, Bool, Option, none, some, Yields, [], ◌∷◌}
use swr_ddd.Common.Text.{Text, codes}
use swr_ddd.Mode.{named}
use swr_ddd.Orders.{OrderIntent, side_text, type_text, decimal, written, int_id, build_intent}
use swr_ddd.Orders.Valid.{IsSubmittable, build_intent-IsSubmittable}

-- a text of one digit, as its value
abbrev cents_of : Text → Option ℕ
cents_of [] = none
cents_of (d ∷ rest) = some d

abbrev is_zero : ℕ → Option Bool
is_zero d = some (d == 0)

abbrev limit_order : OrderIntent ℕ
limit_order = record {
  idempotency_key = codes "k-1";
  runtime_id = codes " rt-1 ";
  strategy_version_id = codes "sv-1";
  mode = named (codes "LIVE");
  instrument_id = codes "BTC";
  side = side_text (codes "BUY");
  order_type = type_text (codes "LIMIT");
  quantity = written (codes "1");
  limit_price = some (decimal 250);
  stop_price = none;
  time_in_force = none;
  correlation_id = none;
  causation_id = none;
  created_at = none;
  requested_at = none;
  order_intent_id = some (int_id (codes "7"));
}

IsSubmittable-example :
    Yields (IsSubmittable cents_of is_zero) (build_intent cents_of is_zero limit_order)
IsSubmittable-example = build_intent-IsSubmittable cents_of is_zero limit_order

-- ===== src/Strategy/Boundary.antt =====
-- `StrategyErrorBoundary` and `StrategyCallResult`, without the diagnostics.
use swr_ddd.Common.{Bool, true, false, Option, none, some, Outcome, returned, raised, if◌then◌else◌}
use swr_ddd.Common.Text.{Text, codes, strip, upper, is_empty}
use swr_ddd.Reason.{error_value, internal_error_code}

-- what a callback can raise: an error of the worker with its code, a `ValueError` or `TypeError`,
-- or anything else
pub data StrategyExn : Type 0 where
  worker_error : Text → StrategyExn
  value_or_type_error other_exception : StrategyExn

pub record StrategyCallResult (A : Type 0) : Type 0 where
  pub ok : Bool
  pub value : Option A
  pub error_code : Option Text
  pub reason_code : Option Text
  pub exception : Option StrategyExn

-- `str(code).strip().upper() or None`
unfoldable pub clean_code : Option Text → Option Text
clean_code none = none
clean_code (some t) = if is_empty (upper (strip t)) then none else some (upper (strip t))

unfoldable pub is_contract_exception : StrategyExn → Bool
is_contract_exception (worker_error code) = true
is_contract_exception value_or_type_error = true
is_contract_exception other_exception = false

-- `get_machine_error_code`
unfoldable pub get_machine_error_code : StrategyExn → Text
get_machine_error_code (worker_error code) = code
get_machine_error_code _ = error_value internal_error_code

unfoldable pub boundary_reason : Bool → Bool → Text
boundary_reason true true = codes "STRATEGY_CLEANUP_CONTRACT_VIOLATION"
boundary_reason true false = codes "STRATEGY_CALLBACK_CONTRACT_VIOLATION"
boundary_reason false true = codes "STRATEGY_CLEANUP_UNHANDLED_EXCEPTION"
boundary_reason false false = codes "STRATEGY_CALLBACK_UNHANDLED_EXCEPTION"

unfoldable pub boundary_error_code : StrategyExn → Text
boundary_error_code e =
    if is_contract_exception e then get_machine_error_code e else error_value internal_error_code

module _ {A : Type 0} where
  -- the result of a call that did nothing or that returned
  abbrev pub ok_result : Option A → StrategyCallResult A
  ok_result v = record {
    ok = true;
    value = v;
    error_code = none;
    reason_code = none;
    exception = none;
  }

  -- `_invoke`, of a call with this outcome
  unfoldable pub invoke : Bool → Outcome StrategyExn A → StrategyCallResult A
  invoke is_cleanup (returned v) = ok_result (some v)
  invoke is_cleanup (raised e) = record {
    ok = false;
    value = none;
    error_code = clean_code (some (boundary_error_code e));
    reason_code = clean_code (some (boundary_reason (is_contract_exception e) is_cleanup));
    exception = some e;
  }

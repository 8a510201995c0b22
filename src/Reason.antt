-- ===== src/Reason.antt =====
-- runtime/domain/errors.py: the canonical reason codes of the worker (Codes), the worker error codes
-- (ErrorCodes), and the two functions from raw reasons to them.
mod Codes
mod ErrorCodes
pub mod Canonical
pub mod Stop
mod Tests
unfoldable pub use Codes.*
unfoldable pub use ErrorCodes.*
use swr_ddd.Common.{
  Bool, Option, none, some, List, [], ◌∷◌, if◌then◌else◌, Outcome, returned, raised, map,
}
use swr_ddd.Common.Text.{Text, strip, lower, is_empty, text_eq, member}
use swr_ddd.Common.Dict.{get}

-- an argument of type `str | None`, which may also be a member of the enum
pub data GivenReason : Type 0 where
  nothing : GivenReason
  text : Text → GivenReason
  code : RuntimeWorkerReasonCode → GivenReason

-- `RUNTIME_WORKER_REASON_CODES`
abbrev pub runtime_worker_reason_codes : List Text
runtime_worker_reason_codes = map reason_value all_reason_codes

abbrev value_or : Option RuntimeWorkerReasonCode → RuntimeWorkerReasonCode → Text
value_or none default = reason_value default
value_or (some mapped) default = reason_value mapped

-- the part of `normalize_runtime_reason_code` after `raw = str(value or "").strip()`
normalize_raw : Text → RuntimeWorkerReasonCode → Text
unfolding lower member reason_value legacy_runtime_reason_map get
normalize_raw raw default =
    if is_empty raw
    then reason_value default
    else if member raw runtime_worker_reason_codes
    then raw
    else value_or (get (lower raw) legacy_runtime_reason_map) default

unfoldable pub normalize_runtime_reason_code : GivenReason → RuntimeWorkerReasonCode → Text
unfolding strip normalize_raw reason_value
normalize_runtime_reason_code (code c) default = reason_value c
normalize_runtime_reason_code nothing default = normalize_raw [] default
normalize_runtime_reason_code (text value) default = normalize_raw (strip value) default

-- the call with the default `POLICY_VIOLATION`
unfoldable pub normalize : Text → Text
unfolding normalize_runtime_reason_code
normalize value = normalize_runtime_reason_code (text value) policy_violation

-- `RuntimeWorkerReasonCode(value)`, which raises `ValueError` on any other text
find_code : Text → List RuntimeWorkerReasonCode → Option RuntimeWorkerReasonCode
find_code value [] = none
find_code value (c ∷ cs) = if text_eq value (reason_value c) then some c else find_code value cs

pub data ReasonError : Type 0 where
  value_error : Text → ReasonError

abbrev error_of : Text → Option RuntimeWorkerReasonCode → Outcome ReasonError Text
error_of value none = raised (value_error value)
error_of value (some c) = returned (error_value (error_for_reason c))

unfoldable pub worker_error_code_for_reason : Text → Outcome ReasonError Text
unfolding find_code
worker_error_code_for_reason reason_code =
    error_of (normalize reason_code) (find_code (normalize reason_code) all_reason_codes)

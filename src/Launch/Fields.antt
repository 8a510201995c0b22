-- ===== src/Launch/Fields.antt =====
-- The checks of single fields, which the two files declare alike.
use swr_ddd.Common.{
  ◌≡◌, true, false, Option, none, some, Outcome, returned, raised, if◌then◌else◌, refl, ◌++◌,
  Yields, arith,
}
use swr_ddd.Common.Text.{Text, codes, strip, is_empty, strip_idem}
use swr_ddd.Mode.{GivenMode, typed, named, mode_of}

-- an error on a field: `MalformedWorkerIdentityError`, `InvalidLaunchContextError` or, without a
-- field, `SingleAssignmentViolationError`
pub record FieldError : Type 0 where
  pub field_name : Option Text
  pub reason : Text

abbrev pub field_error : Text → Text → FieldError
field_error f r = record { field_name = some f; reason = r }

-- `_require_non_empty`
unfoldable pub require_non_empty : Text → Text → Outcome FieldError Text
require_non_empty value field =
    if is_empty (strip value)
    then raised (field_error field (codes "must_not_be_blank"))
    else returned (strip value)

-- `_normalize_optional`
unfoldable pub normalize_optional : Option Text → Text → Outcome FieldError (Option Text)
normalize_optional none field = returned none
normalize_optional (some value) field =
    if is_empty (strip value)
    then raised (field_error field (codes "must_not_be_blank_if_provided"))
    else returned (some (strip value))

-- the mode of the enum; the reason carries the string that names none
unfoldable pub require_mode : GivenMode → Outcome FieldError GivenMode
require_mode (typed m) = returned (typed m)
require_mode (named t) = elim (mode_of t) [
  | none ↦ raised (field_error (codes "mode") (codes "invalid_mode:" ++ t))
  | some m ↦ returned (typed m)
]

-- the value passes the check of a required field unchanged
abbrev pub IsName : Text → Type 0
IsName t = (strip t ≡ t) × (is_empty t ≡ false)

abbrev pub IsOptionalName : Option Text → Type 0
IsOptionalName none = Unit
IsOptionalName (some t) = IsName t

abbrev pub IsTyped : GivenMode → Type 0
IsTyped (typed m) = Unit
IsTyped (named t) = false ≡ true

pub require_non_empty-IsName : (v f : Text) → Yields IsName (require_non_empty v f)
unfolding require_non_empty
require_non_empty-IsName v f = ground (arith, strip_idem v)

pub normalize_optional-IsOptionalName :
    (v : Option Text) (f : Text) → Yields IsOptionalName (normalize_optional v f)
unfolding normalize_optional
normalize_optional-IsOptionalName none f = tt
normalize_optional-IsOptionalName (some v) f = ground (arith, strip_idem v)

pub require_mode-IsTyped : (m : GivenMode) → Yields IsTyped (require_mode m)
unfolding require_mode
require_mode-IsTyped (typed m) = tt
require_mode-IsTyped (named t) = ground arith

pub require_IsName : (t f : Text) → IsName t → require_non_empty t f ≡ returned t
unfolding require_non_empty
require_IsName t f h = ground arith

pub normalize_IsOptionalName :
    (t : Option Text) (f : Text) → IsOptionalName t → normalize_optional t f ≡ returned t
unfolding normalize_optional
normalize_IsOptionalName none f h = refl
normalize_IsOptionalName (some t) f h = ground arith

pub require_IsTyped : (m : GivenMode) → IsTyped m → require_mode m ≡ returned m
unfolding require_mode
require_IsTyped (typed m) h = refl
require_IsTyped (named t) h = cc

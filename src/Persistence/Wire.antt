-- ===== src/Persistence/Wire.antt =====
-- Times as they are stored: `_require_utc`, `_to_wire_ts` and `_from_wire_ts`. Python's `datetime`
-- is a parameter.
use swr_ddd.Common.{
  Bool, true, false, Option, none, some, List, [], ◌∷◌, ◌≡◌, refl, ap, ◌∙◌, Outcome, returned,
  raised, ◌>>=◌, if◌then◌else◌,
}
use swr_ddd.Common.Text.{Text}
use swr_ddd.Common.Offsets.{replace_z, replace_offset, has_z, replace_z-replace_offset}

pub record Datetime : Type 1 where
  pub Moment : Type 0
  -- `value.tzinfo.utcoffset(value) is not None`
  pub is_aware : Moment → Bool
  pub to_utc : Moment → Moment
  pub isoformat : Moment → Text
  -- `none` where it raises `ValueError`
  pub fromisoformat : Text → Option Moment
  -- `a <= b`
  pub at_most : Moment → Moment → Bool

-- What the standard library says of a time in UTC.
pub record IsLawful (d : Datetime) : Type 0 where
  pub is_aware-to_utc : (m : d.Moment) → d.is_aware (d.to_utc m) ≡ true
  pub to_utc_idem : (m : d.Moment) → d.to_utc (d.to_utc m) ≡ d.to_utc m
  pub fromisoformat-isoformat :
      (m : d.Moment) → d.fromisoformat (d.isoformat (d.to_utc m)) ≡ some (d.to_utc m)
  -- the offset is written `+00:00`
  pub isoformat-NoZ : (m : d.Moment) → has_z (d.isoformat (d.to_utc m)) ≡ false

pub data StoreError : Type 0 where
  naive_datetime integrity_error malformed_time unserialisable malformed_json : StoreError

abbrev pub some_or : {A : Type 0} → StoreError → Option A → Outcome StoreError A
some_or e none = raised e
some_or e (some a) = returned a

-- a row after the other, until one raises
abbrev pub read_all :
    {A B : Type 0} → (A → Outcome StoreError B) → List A → Outcome StoreError (List B)
read_all read [] = returned []
read_all read (a ∷ rest) = read a >>= λ b. (read_all read rest >>= λ bs. returned (b ∷ bs))

abbrev pub read_option :
    {A B : Type 0} → (A → Outcome StoreError B) → Option A → Outcome StoreError (Option B)
read_option read none = returned none
read_option read (some a) = read a >>= λ b. returned (some b)

module _ (d : Datetime) where
  abbrev pub require_utc : d.Moment → Outcome StoreError d.Moment
  require_utc value = if d.is_aware value then returned (d.to_utc value) else raised naive_datetime

  unfoldable pub to_wire_ts : d.Moment → Outcome StoreError Text
  to_wire_ts value = require_utc value >>= λ m. returned (replace_offset (d.isoformat m))

  unfoldable pub from_wire_ts : Text → Outcome StoreError d.Moment
  from_wire_ts value =
      some_or malformed_time (d.fromisoformat (replace_z value)) >>= λ m. returned (d.to_utc m)

  -- `_to_wire_ts(value) if value is not None else None`
  abbrev pub optional_to_wire : Option d.Moment → Outcome StoreError (Option Text)
  optional_to_wire none = returned none
  optional_to_wire (some m) = to_wire_ts m >>= λ t. returned (some t)

  abbrev pub optional_from_wire : Option Text → Outcome StoreError (Option d.Moment)
  optional_from_wire o = read_option from_wire_ts o

  -- every time that is there is aware
  abbrev pub is_aware_option : Option d.Moment → Bool
  is_aware_option none = true
  is_aware_option (some m) = d.is_aware m

  -- the text of a time
  abbrev pub wire_of : d.Moment → Text
  wire_of m = replace_offset (d.isoformat (d.to_utc m))

  pub to_wire_ts-aware : (m : d.Moment) → d.is_aware m ≡ true → to_wire_ts m ≡ returned (wire_of m)
  unfolding to_wire_ts
  to_wire_ts-aware m h = rw h refl

  module _ (laws : IsLawful d) where
    -- A time is read back as the same time in UTC.
    pub from_wire_ts-wire : (m : d.Moment) → from_wire_ts (wire_of m) ≡ returned (d.to_utc m)
    unfolding from_wire_ts
    from_wire_ts-wire m =
        ap (λ t. some_or malformed_time (d.fromisoformat t) >>= λ m. returned (d.to_utc m))
          (replace_z-replace_offset (d.isoformat (d.to_utc m)) (laws.isoformat-NoZ m))
        ∙ ap (λ o. some_or malformed_time o >>= λ m. returned (d.to_utc m))
            (laws.fromisoformat-isoformat m)
        ∙ ap returned (laws.to_utc_idem m)

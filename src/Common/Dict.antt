-- ===== src/Common/Dict.antt =====
-- A Python `dict` with string keys, as the list of its entries in insertion order.
use mathlib.Core.Path.{◌≡◌, refl}
use mathlib.Core.Option.{Option, none, some}
use mathlib.Core.List.{List, [], ◌∷◌}
use native.Mathlib.Omega.{arith}
use swr_ddd.Common.Tests.{if◌then◌else◌}
use swr_ddd.Common.Text.{Text, text_eq, text_eq_iff}

abbrev pub Dict {ℓ} : Type ℓ → Type ℓ
Dict V = List (Text × V)

module _ {ℓ} {V : Type ℓ} where
  -- `d.get(key)`
  unfoldable pub get : Text → Dict V → Option V
  get key [] = none
  get key ((k, v) ∷ d) = if text_eq k key then some v else get key d

  -- `d[key] = value`
  unfoldable pub put : Text → V → Dict V → Dict V
  put key value [] = (key, value) ∷ []
  put key value ((k, v) ∷ d) = if text_eq k key then (k, value) ∷ d else (k, v) ∷ put key value d

  pub get-put :
      (key other : Text) (value : V) (d : Dict V)
      → get other (put key value d) ≡ (if text_eq key other then some value else get other d)
  unfolding get put
  get-put key other value [] = refl
  get-put key other value ((k, v) ∷ d) = ground (
    arith,
    text_eq_iff k key,
    text_eq_iff k other,
    text_eq_iff key other,
    get-put key other value d,
  )

-- ===== src/Common/Offsets.antt =====
-- The two ways to write the offset of UTC at the end of an ISO time: `Z` and `+00:00`.
use mathlib.Core.Path.{◌≡◌, refl}
use mathlib.Core.Bool.{Bool, false, ◌&&◌, ◌||◌}
use mathlib.Core.List.{[], ◌∷◌, ◌++◌}
use native.Mathlib.Omega.{arith}
use swr_ddd.Common.Tests.{◌==◌, if◌then◌else◌}
use swr_ddd.Common.Text.{Text, codes}

-- `text.replace("Z", "+00:00")`
unfoldable pub replace_z : Text → Text
replace_z [] = []
replace_z (c ∷ s) = let rest = replace_z s in if c == b'Z' then codes "+00:00" ++ rest else c ∷ rest

-- `text.replace("+00:00", "Z")`
unfoldable pub replace_offset : Text → Text
replace_offset [] = []
replace_offset (a ∷ b ∷ c ∷ d ∷ e ∷ f ∷ s) =
    let replaced = replace_offset s in
    let rest = replace_offset (b ∷ c ∷ d ∷ e ∷ f ∷ s) in
    if (a == b'+') && (b == b'0') && (c == b'0') && (d == b':') && (e == b'0') && (f == b'0')
    then b'Z' ∷ replaced
    else a ∷ rest
replace_offset (a ∷ s) = a ∷ replace_offset s

abbrev pub has_z : Text → Bool
has_z [] = false
has_z (c ∷ s) = (c == b'Z') || has_z s

-- In a text without a `Z` both replacements give the text back.
pub replace_z-replace_offset : (s : Text) → has_z s ≡ false → replace_z (replace_offset s) ≡ s
unfolding replace_z replace_offset
replace_z-replace_offset [] h = refl
replace_z-replace_offset (a ∷ []) h = ground arith
replace_z-replace_offset (a ∷ b ∷ []) h = ground arith
replace_z-replace_offset (a ∷ b ∷ c ∷ []) h = ground arith
replace_z-replace_offset (a ∷ b ∷ c ∷ d ∷ []) h = ground arith
replace_z-replace_offset (a ∷ b ∷ c ∷ d ∷ e ∷ []) h = ground arith
replace_z-replace_offset (a ∷ b ∷ c ∷ d ∷ e ∷ f ∷ s) h =
    ground (arith, replace_z-replace_offset s, replace_z-replace_offset (b ∷ c ∷ d ∷ e ∷ f ∷ s))

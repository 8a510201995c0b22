-- ===== src/Common/Text.antt =====
-- Python's `str` as its list of code points. `lower` and `upper` map the ASCII letters and leave
-- every other code point alone; `strip` removes the code points for which `str.isspace` holds.
use Prim.Native.Nat.{ℕ, ◌+◌, ◌-◌}
use Prim.Native.Char.{code}
use Prim.Native.String.{String}
use mathlib.Core.Path.{◌≡◌, refl, ap₂}
use mathlib.Core.Logic.{◌↔◌}
use mathlib.Core.Bool.{Bool, true, false, ◌&&◌, ◌||◌}
use mathlib.Core.List.{List, [], ◌∷◌, map}
use native.Mathlib.Omega.{arith}
use swr_ddd.Common.Tests.{leb, ◌==◌, if◌then◌else◌}

abbrev pub Text : Type 0
Text = List ℕ

-- The code points of a literal. `String` has its own `[]` and `∷`.
abbrev pub codes : String → Text
codes String.[] = []
codes (String.◌∷◌ c s) = code c ∷ codes s

unfoldable pub text_eq : Text → Text → Bool
text_eq [] [] = true
text_eq (a ∷ s) (b ∷ t) = (a == b) && text_eq s t
text_eq _ _ = false

-- the value is the empty string
abbrev pub is_empty : Text → Bool
is_empty [] = true
is_empty (c ∷ s) = false

abbrev between : ℕ → ℕ → ℕ → Bool
between lo hi c = leb lo c && leb c hi

unfoldable pub is_space : ℕ → Bool
is_space c =
    between 9 13 c
    || between 28 32 c
    || (c == 0x85)
    || (c == 0xa0)
    || (c == 0x1680)
    || between 0x2000 0x200a c
    || between 0x2028 0x2029 c
    || (c == 0x202f)
    || (c == 0x205f)
    || (c == 0x3000)

lstrip : Text → Text
lstrip [] = []
lstrip (c ∷ s) = let rest = lstrip s in if is_space c then rest else c ∷ s

rstrip : Text → Text
rstrip [] = []
rstrip (c ∷ s) = let rest = rstrip s in if is_space c && is_empty rest then [] else c ∷ rest

unfoldable pub strip : Text → Text
unfolding is_space lstrip rstrip
strip s = rstrip (lstrip s)

abbrev lower_code : ℕ → ℕ
lower_code c = if between b'A' b'Z' c then c + 32 else c

abbrev upper_code : ℕ → ℕ
upper_code c = if between b'a' b'z' c then c - 32 else c

unfoldable pub lower : Text → Text
lower s = map lower_code s

unfoldable pub upper : Text → Text
upper s = map upper_code s

-- `s.startswith(p)`
unfoldable pub starts_with : Text → Text → Bool
starts_with s [] = true
starts_with [] (b ∷ p) = false
starts_with (a ∷ s) (b ∷ p) = (a == b) && starts_with s p

-- `value in values`, on texts
unfoldable pub member : Text → List Text → Bool
unfolding text_eq
member s [] = false
member s (t ∷ ts) = text_eq s t || member s ts

-- Two texts are equal exactly when the comparison says so.
text_eq_sound : (s t : Text) → text_eq s t ≡ true → s ≡ t
unfolding text_eq
text_eq_sound [] [] h = refl
text_eq_sound [] (b ∷ t) h = ground arith
text_eq_sound (a ∷ s) [] h = ground arith
text_eq_sound (a ∷ s) (b ∷ t) h = ap₂ ◌∷◌ (ground arith) (text_eq_sound s t (ground arith))

pub text_eq_refl : (s : Text) → text_eq s s ≡ true
unfolding text_eq
text_eq_refl [] = refl
text_eq_refl (a ∷ s) = ground (arith, text_eq_refl s)

pub text_eq_iff : (s t : Text) → (text_eq s t ≡ true) ↔ (s ≡ t)
text_eq_iff s t = (text_eq_sound s t, λ e. rw e (text_eq_refl t))

strip_example : strip (codes " \t a b \n") ≡ codes "a b"
unfolding strip
strip_example = refl

case_example : (lower (codes "aB_1") ≡ codes "ab_1") × (upper (codes "aB_1") ≡ codes "AB_1")
unfolding lower upper
case_example = (refl, refl)

lstrip-rstrip : (s : Text) → lstrip (rstrip (lstrip s)) ≡ rstrip (lstrip s)
unfolding lstrip rstrip
lstrip-rstrip [] = refl
lstrip-rstrip (c ∷ s) = ground (arith, lstrip-rstrip s)

rstrip_idem : (s : Text) → rstrip (rstrip s) ≡ rstrip s
unfolding rstrip
rstrip_idem [] = refl
rstrip_idem (c ∷ s) = ground (arith, rstrip_idem s)

pub strip_idem : (s : Text) → strip (strip s) ≡ strip s
unfolding strip
strip_idem s = rw (lstrip-rstrip s, rstrip_idem (lstrip s))

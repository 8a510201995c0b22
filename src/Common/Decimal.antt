-- ===== src/Common/Decimal.antt =====
-- `str(n)` of a Python `int` that is not negative.
use Prim.Native.Nat.{ℕ, zero, suc, ◌+◌, ◌/◌, ◌%◌, ◌<◌}
use mathlib.Core.Path.{◌≡◌, refl}
use mathlib.Core.Logic.{dite}
use mathlib.Core.WellFounded.{Acc, WellFounded}
use mathlib.Core.List.{[], ◌∷◌}
use native.Mathlib.Decide.{dec_lt}
use native.Mathlib.Omega.{arith}
use swr_ddd.Common.Text.{Text, codes}

acc_below : (k n : ℕ) → n < k → Acc ◌<◌ n
acc_below zero n h = absurd (omega arith)
acc_below (suc k) n h = Acc.intro n (λ m hm. acc_below k m (omega arith))

lt_wf : WellFounded ◌<◌
unfolding acc_below
lt_wf = record { apply = λ n. acc_below (suc n) n (omega arith) }

tenth_lt : {n : ℕ} → 9 < n → n / 10 < n
tenth_lt h = omega arith

-- the digits of `n`, before `out`
write_digits : (n : ℕ) → Acc ◌<◌ n → Text → Text
write_digits n (Acc.intro _ smaller) out =
    dite (dec_lt 9 n)
      (λ h. write_digits (n / 10) (smaller (n / 10) (tenth_lt h)) ((b'0' + n % 10) ∷ out))
      (λ _. (b'0' + n) ∷ out)

unfoldable pub decimal : ℕ → Text
unfolding write_digits lt_wf tenth_lt acc_below
decimal n = write_digits n (lt_wf.apply n) []

decimal_example : (decimal 0 ≡ codes "0") × (decimal 1207 ≡ codes "1207")
unfolding decimal dec_lt
decimal_example = (refl, refl)

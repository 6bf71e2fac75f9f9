-- ===== src/Base/Strings/Digits.antt =====
-- The decimal digits of a number.
use Prim.Native.Nat.{ℕ, zero, suc, ◌+◌, ◌/◌, ◌%◌, ◌≤◌, ◌<◌}
use mathlib.Core.Path.{◌≡◌, refl}
use mathlib.Core.Bool.{true}
use mathlib.Core.List.{[], ◌∷◌}
use native.Mathlib.Omega.{arith}
use kiro_usage_pipeline.Base.Strings.{Text, all_digits, decimal_value, decimal_from, show_nat}

-- Digits, the first of which is no zero.
abbrev pub IsPlain : Text → Type 0
IsPlain [] = ⊥
IsPlain (c ∷ s) = (49 ≤ c) × (c ≤ 57) × (all_digits s ≡ true)

decimal_from-IsPlain :
    (f n : ℕ) (out : Text) → 1 ≤ n → n < f → all_digits out ≡ true → IsPlain (decimal_from f n out)
unfolding decimal_from all_digits
decimal_from-IsPlain zero n out l h d = absurd (omega arith)
decimal_from-IsPlain (suc f) n out l h d =
    ground (arith, decimal_from-IsPlain f (n / 10) ((b'0' + n % 10) ∷ out))

decimal_value-decimal_from :
    (f n : ℕ) (out : Text) → n < f → decimal_value 0 (decimal_from f n out) ≡ decimal_value n out
unfolding decimal_from decimal_value
decimal_value-decimal_from zero n out h = absurd (omega arith)
decimal_value-decimal_from (suc f) n out h =
    ground (arith, decimal_value-decimal_from f (n / 10) ((b'0' + n % 10) ∷ out))

pub show_nat-IsPlain : (n : ℕ) → 1 ≤ n → IsPlain (show_nat n)
unfolding show_nat all_digits
show_nat-IsPlain n h = decimal_from-IsPlain (suc n) n [] h (omega arith) refl

pub decimal_value-show_nat : (n : ℕ) → decimal_value 0 (show_nat n) ≡ n
unfolding show_nat decimal_value
decimal_value-show_nat n = decimal_value-decimal_from (suc n) n [] (omega arith)

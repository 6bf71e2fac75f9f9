-- ===== src/Decimals.antt =====
-- The digits of Python's texts, as the scripts' `str.isdigit` and `int` read them (Unicode 14).
use mathlib.Core.List.{reverse}
use kiro_usage_pipeline.Base.{
  ℕ, ◌+◌, ◌-◌, ◌*◌, Bool, true, false, ◌&&◌, ◌||◌, not, Option, none, some, List, [], ◌∷◌, Text,
  leb, ◌==◌, nat_eq, is_space, ℤ, pos, negsuc, zero, suc, if◌then◌else◌,
}

-- The zeros of the decimal digits: each is followed by the digits up to nine.
abbrev zeros : List ℕ
zeros =
    48 ∷ 1632 ∷ 1776 ∷ 1984 ∷ 2406 ∷ 2534 ∷ 2662 ∷ 2790 ∷ 2918 ∷ 3046 ∷ 3174 ∷ 3302 ∷ 3430 ∷ 3558
    ∷ 3664 ∷ 3792 ∷ 3872 ∷ 4160 ∷ 4240 ∷ 6112 ∷ 6160 ∷ 6470 ∷ 6608 ∷ 6784 ∷ 6800 ∷ 6992 ∷ 7088
    ∷ 7232 ∷ 7248 ∷ 42528 ∷ 43216 ∷ 43264 ∷ 43472 ∷ 43504 ∷ 43600 ∷ 44016 ∷ 65296 ∷ 66720 ∷ 68912
    ∷ 69734 ∷ 69872 ∷ 69942 ∷ 70096 ∷ 70384 ∷ 70736 ∷ 70864 ∷ 71248 ∷ 71360 ∷ 71472 ∷ 71904 ∷ 72016
    ∷ 72784 ∷ 73040 ∷ 73120 ∷ 92768 ∷ 92864 ∷ 93008 ∷ 120782 ∷ 120792 ∷ 120802 ∷ 120812 ∷ 120822
    ∷ 123200 ∷ 123632 ∷ 125264 ∷ 130032 ∷ []

digit_from : List ℕ → ℕ → Option ℕ
digit_from [] c = none
digit_from (z ∷ zs) c =
    let later = digit_from zs c in if leb z c && leb c (z + 9) then some (c - z) else later

-- The value of a decimal digit, which `int` reads.
unfoldable pub decimal_digit : ℕ → Option ℕ
unfolding digit_from
decimal_digit c = digit_from zeros c

abbrev pub is_given : Option ℕ → Bool
is_given none = false
is_given (some _) = true

abbrev pub is_decimal_digit : ℕ → Bool
is_decimal_digit c = is_given (decimal_digit c)

-- The digits that are not decimal, such as superscripts, which `int` refuses.
abbrev other_digits : List (ℕ × ℕ)
other_digits =
    (178, 179)
    ∷ (185, 185)
    ∷ (4969, 4977)
    ∷ (6618, 6618)
    ∷ (8304, 8304)
    ∷ (8308, 8313)
    ∷ (8320, 8329)
    ∷ (9312, 9320)
    ∷ (9332, 9340)
    ∷ (9352, 9360)
    ∷ (9450, 9450)
    ∷ (9461, 9469)
    ∷ (9471, 9471)
    ∷ (10102, 10110)
    ∷ (10112, 10120)
    ∷ (10122, 10130)
    ∷ (68160, 68163)
    ∷ (69216, 69224)
    ∷ (69714, 69722)
    ∷ (127232, 127242)
    ∷ []

in_ranges : List (ℕ × ℕ) → ℕ → Bool
in_ranges [] c = false
in_ranges ((a, b) ∷ rs) c = (leb a c && leb c b) || in_ranges rs c

unfoldable pub is_other_digit : ℕ → Bool
unfolding in_ranges
is_other_digit c = in_ranges other_digits c

-- `isdigit`, of a text that is not empty.
unfoldable pub are_digits : Text → Bool
are_digits [] = true
are_digits (c ∷ s) = (is_decimal_digit c || is_other_digit c) && are_digits s

unfoldable pub are_decimal_digits : Text → Bool
are_decimal_digits [] = true
are_decimal_digits (c ∷ s) = is_decimal_digit c && are_decimal_digits s

abbrev or_zero : Option ℕ → ℕ
or_zero none = 0
or_zero (some n) = n

-- `int` of decimal digits `s`, with the digits of `n` before them.
unfoldable pub number_of : ℕ → Text → ℕ
number_of n [] = n
number_of n (c ∷ s) = number_of (n * 10 + or_zero (decimal_digit c)) s

-- Digits with single underscores between them, where `after` says that a digit is before.
grouped : Bool → ℕ → Text → Option ℕ
grouped after n [] = if after then some n else none
grouped after n (c ∷ s) = elim (decimal_digit c) [
  | some d ↦ grouped true (n * 10 + d) s
  | none ↦ elim (after && c == b'_') [ true ↦ grouped false n s | false ↦ none ]
]

abbrev plus : Option ℕ → Option ℤ
plus none = none
plus (some n) = some (pos n)

abbrev minus : Option ℕ → Option ℤ
minus none = none
minus (some zero) = some (pos 0)
minus (some (suc n)) = some (negsuc n)

signed : Text → Option ℤ
unfolding grouped
signed [] = none
signed (c ∷ s) =
    if c == b'+'
    then plus (grouped false 0 s)
    else if c == b'-'
    then minus (grouped false 0 s)
    else plus (grouped false 0 (c ∷ s))

-- The spaces that `int` skips: `isspace`, less the separators of ASCII.
skip_spaces : Text → Text
skip_spaces [] = []
skip_spaces (c ∷ s) =
    let rest = skip_spaces s in if is_space c && not (leb 28 c && leb c 31) then rest else c ∷ s

-- `int(s)`, where `none` is a `ValueError`. The bound on the count of digits is left out.
unfoldable pub int_of_text : Text → Option ℤ
unfolding signed skip_spaces
int_of_text s = signed (reverse (skip_spaces (reverse (skip_spaces s))))

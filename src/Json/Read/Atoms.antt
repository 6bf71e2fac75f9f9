-- ===== src/Json/Read/Atoms.antt =====
-- The literals, the numbers and the escapes of a JSON text.
use kiro_usage_pipeline.Base.{
  ℕ, ◌-◌, zero, suc, Bool, true, false, ◌&&◌, ◌||◌, Option, none, some, [], ◌∷◌, Text, ltb, leb,
  ◌==◌, nat_eq, text_eq, ℤ, pos, negsuc, is_digit, all_digits, is_empty, not, if◌then◌else◌,
}

-- `0|[1-9][0-9]*`
unfoldable pub is_decimal : Text → Bool
is_decimal [] = false
is_decimal (c ∷ s) = all_digits (c ∷ s) && (is_empty s || ltb 48 c)

abbrev pub negated : ℕ → ℤ
negated zero = pos 0
negated (suc n) = negsuc n

abbrev pub take_digits : Text → Text
take_digits [] = []
take_digits (c ∷ s) = let rest = take_digits s in if is_digit c then c ∷ rest else []

abbrev pub drop_digits : Text → Text
drop_digits [] = []
drop_digits (c ∷ s) = let rest = drop_digits s in if is_digit c then rest else c ∷ s

abbrev pub is_number : Text → Bool
is_number s = not (is_empty s) && all_digits s

abbrev pub after_sign : Text → Text
after_sign [] = []
after_sign (c ∷ s) = if c == b'+' || c == b'-' then s else c ∷ s

-- Nothing, or an exponent.
abbrev pub is_exponent : Text → Bool
is_exponent [] = true
is_exponent (c ∷ s) = (c == b'e' || c == b'E') && is_number (after_sign s)

abbrev pub is_fraction : Text → Bool
is_fraction [] = false
is_fraction (c ∷ s) =
    if c == b'.'
    then not (is_empty (take_digits s)) && is_exponent (drop_digits s)
    else is_exponent (c ∷ s)

unfoldable pub is_float : Text → Bool
is_float s = is_decimal (take_digits s) && is_fraction (drop_digits s)

abbrev pub is_negative : Text → Bool
is_negative [] = false
is_negative (c ∷ s) = c == b'-'

abbrev pub without_sign : Text → Text
without_sign [] = []
without_sign (c ∷ s) = if c == b'-' then s else c ∷ s

-- The characters of literals and numbers.
unfoldable pub is_atom_char : ℕ → Bool
is_atom_char c =
    is_digit c
    || (leb 65 c && leb c 90)
    || (leb 97 c && leb c 122)
    || c == b'-'
    || c == b'+'
    || c == b'.'

unfoldable pub hex_value : ℕ → Option ℕ
hex_value c =
    if is_digit c
    then some (c - 48)
    else if leb 97 c && leb c 102
    then some (c - 87)
    else if leb 65 c && leb c 70
    then some (c - 55)
    else none

-- The character that a backslash and this one stand for.
unfoldable pub escaped_char : ℕ → Option ℕ
escaped_char c =
    if c == 34 || c == 92 || c == b'/'
    then some c
    else if c == b'n'
    then some 10
    else if c == b'r'
    then some 13
    else if c == b't'
    then some 9
    else if c == b'f'
    then some 12
    else if c == b'b'
    then some 8
    else none

abbrev pub pending : Option ℕ → Text
pending none = []
pending (some h) = h ∷ []

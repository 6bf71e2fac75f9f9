-- ===== src/Json/Numbers.antt =====
-- An int that is written is read back.
use kiro_usage_pipeline.Base.{
  zero, suc, Bool, true, false, ◌&&◌, some, [], ◌∷◌, ◌≡◌, refl, arith, Text, lit, nat_eq, text_eq,
  ℤ, pos, negsuc, show_nat, show_int, IsPlain, show_nat-IsPlain, decimal_value-show_nat, all_digits,
  decimal_value, is_empty,
}
use kiro_usage_pipeline.Value.{int}
use kiro_usage_pipeline.Json.Read.{is_decimal, negated, is_atom_char, read_number, read_atom}

unfoldable pub all_atom_chars : Text → Bool
all_atom_chars [] = true
all_atom_chars (c ∷ s) = is_atom_char c && all_atom_chars s

all_digits-atom : (s : Text) → all_digits s ≡ true → all_atom_chars s ≡ true
unfolding all_digits all_atom_chars is_atom_char
all_digits-atom [] h = refl
all_digits-atom (c ∷ s) h = ground (arith, all_digits-atom s)

IsPlain-atom : (s : Text) → IsPlain s → all_atom_chars s ≡ true
unfolding all_atom_chars is_atom_char
IsPlain-atom [] h = absurd h
IsPlain-atom (c ∷ s) h = ground (arith, all_digits-atom s)

plain_nonempty : (s : Text) → IsPlain s → is_empty s ≡ false
plain_nonempty [] h = absurd h
plain_nonempty (c ∷ s) h = refl

module _ (float_repr : Text → Text) where
  read_number-IsPlain :
      (s : Text) → IsPlain s → read_number float_repr s ≡ some (int (pos (decimal_value 0 s)))
  unfolding read_number is_decimal all_digits nat_eq
  read_number-IsPlain [] h = absurd h
  read_number-IsPlain (c ∷ s) h = ground arith

  read_number-negative :
      (s : Text)
      → IsPlain s
      → read_number float_repr (b'-' ∷ s) ≡ some (int (negated (decimal_value 0 s)))
  unfolding read_number is_decimal all_digits nat_eq
  read_number-negative [] h = absurd h
  read_number-negative (c ∷ s) h = ground arith

  -- A text that begins with a digit, or with a sign and a digit, is no word.
  read_atom-IsPlain : (s : Text) → IsPlain s → read_atom float_repr s ≡ read_number float_repr s
  unfolding read_atom lit text_eq
  read_atom-IsPlain [] h = absurd h
  read_atom-IsPlain (c ∷ s) h = ground arith

  read_atom-negative :
      (s : Text) → IsPlain s → read_atom float_repr (b'-' ∷ s) ≡ read_number float_repr (b'-' ∷ s)
  unfolding read_atom lit text_eq
  read_atom-negative [] h = absurd h
  read_atom-negative (c ∷ s) h = ground arith

  read_zero : read_atom float_repr (show_nat 0) ≡ some (int (pos 0))
  unfolding read_atom read_number is_decimal all_digits decimal_value show_nat lit text_eq nat_eq
  read_zero = refl

  pub read_atom-show_int : (i : ℤ) → read_atom float_repr (show_int i) ≡ some (int i)
  unfolding show_int
  read_atom-show_int (pos zero) = read_zero
  read_atom-show_int (pos (suc n)) =
      let plain = show_nat-IsPlain (suc n) (omega arith) in
      rw (
        read_atom-IsPlain (show_nat (suc n)) plain,
        read_number-IsPlain (show_nat (suc n)) plain,
        decimal_value-show_nat (suc n),
      )
  read_atom-show_int (negsuc n) =
      let plain = show_nat-IsPlain (suc n) (omega arith) in
      rw (
        read_atom-negative (show_nat (suc n)) plain,
        read_number-negative (show_nat (suc n)) plain,
        decimal_value-show_nat (suc n),
      )

pub show_int-atom : (i : ℤ) → all_atom_chars (show_int i) ≡ true
unfolding show_int all_atom_chars is_atom_char show_nat nat_eq
show_int-atom (pos zero) = refl
show_int-atom (pos (suc n)) =
    IsPlain-atom (show_nat (suc n)) (show_nat-IsPlain (suc n) (omega arith))
show_int-atom (negsuc n) = IsPlain-atom (show_nat (suc n)) (show_nat-IsPlain (suc n) (omega arith))

pub show_int-nonempty : (i : ℤ) → is_empty (show_int i) ≡ false
unfolding show_int show_nat
show_int-nonempty (pos zero) = refl
show_int-nonempty (pos (suc n)) =
    plain_nonempty (show_nat (suc n)) (show_nat-IsPlain (suc n) (omega arith))
show_int-nonempty (negsuc n) = refl

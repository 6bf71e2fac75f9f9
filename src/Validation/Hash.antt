-- ===== src/Validation/Hash.antt =====
-- What a valid location hash is.
use kiro_usage_pipeline.Base.{
  ℕ, ◌≤◌, true, Option, none, some, [], ◌∷◌, ◌≡◌, ◌⊎◌, ◌↔◌, arith, length, All, Text,
}
use kiro_usage_pipeline.Validation.{is_hex, all_hex, is_valid_location_hash}

abbrev pub IsHexDigit : ℕ → Type 0
IsHexDigit c = ((48 ≤ c) × (c ≤ 57)) ⊎ ((97 ≤ c) × (c ≤ 102))

all_hex_iff : (s : Text) → (all_hex s ≡ true) ↔ All IsHexDigit s
unfolding is_hex
all_hex_iff [] = ground arith
all_hex_iff (c ∷ s) = ground (arith, all_hex_iff s)

abbrev pub IsLocationHash : Option Text → Type 0
IsLocationHash none = ⊥
IsLocationHash (some s) = (length s ≡ 16) × All IsHexDigit s

-- A location hash is valid exactly when it is given and is sixteen lowercase hexadecimal digits.
pub is_valid_location_hash_iff :
    (h : Option Text) → (is_valid_location_hash h ≡ true) ↔ IsLocationHash h
unfolding is_valid_location_hash
is_valid_location_hash_iff none = ground arith
is_valid_location_hash_iff (some []) = ground arith
is_valid_location_hash_iff (some (c ∷ s)) = ground (arith, all_hex_iff (c ∷ s))

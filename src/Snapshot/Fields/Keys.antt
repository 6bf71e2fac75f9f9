-- ===== src/Snapshot/Fields/Keys.antt =====
-- How the summary of a snapshot sorts its line numbers.
use kiro_usage_pipeline.Base.{
  ℕ, Bool, true, false, ◌&&◌, not, Option, none, some, List, [], ◌∷◌, Text, ltb, leb, ◌==◌, nat_eq,
  text_eq, contains, is_empty, map, if◌then◌else◌,
}
use kiro_usage_pipeline.Decimals.{are_digits, are_decimal_digits, number_of}

-- `_line_key`: a number, or a text that is none.
pub data LineKey : Type 0 where
  numeric : ℕ → LineKey
  other : Text → LineKey

-- `none` is the `ValueError` of `int`.
unfoldable pub line_key : Text → Option LineKey
line_key s =
    if not (is_empty s) && are_digits s
    then (if are_decimal_digits s then some (numeric (number_of 0 s)) else none)
    else some (other s)

unfoldable pub text_le : Text → Text → Bool
text_le [] t = true
text_le (c ∷ s) [] = false
text_le (c ∷ s) (d ∷ t) = let rest = text_le s t in if c == d then rest else ltb c d

unfoldable pub key_le : LineKey → LineKey → Bool
key_le (numeric m) (numeric n) = leb m n
key_le (numeric _) (other _) = true
key_le (other _) (numeric _) = false
key_le (other s) (other t) = text_le s t

abbrev pub Keyed : Type 0
Keyed = LineKey × Text

unfoldable pub insert_sorted : Keyed → List Keyed → List Keyed
insert_sorted x [] = x ∷ []
insert_sorted x (y ∷ ys) =
    let later = y ∷ insert_sorted x ys in if key_le x.0 y.0 then x ∷ y ∷ ys else later

-- `sorted`, which keeps the order of equal keys.
unfoldable pub sort_keyed : List Keyed → List Keyed
unfolding insert_sorted
sort_keyed [] = []
sort_keyed (x ∷ xs) = insert_sorted x (sort_keyed xs)

abbrev pub cons_keyed : Option LineKey → Text → Option (List Keyed) → Option (List Keyed)
cons_keyed none s rest = none
cons_keyed (some k) s none = none
cons_keyed (some k) s (some ks) = some ((k, s) ∷ ks)

unfoldable pub keyed : List Text → Option (List Keyed)
keyed [] = some []
keyed (s ∷ ss) = cons_keyed (line_key s) s (keyed ss)

-- `set(…)`, in order of first occurrence from the end.
unfoldable pub distinct : List Text → List Text
distinct [] = []
distinct (s ∷ ss) = let rest = distinct ss in if contains rest s then rest else s ∷ rest

abbrev pub second_of : Keyed → Text
second_of x = x.1

abbrev pub in_order : Option (List Keyed) → Option (List Text)
in_order none = none
in_order (some ks) = some (map second_of (sort_keyed ks))

unfoldable pub sorted_numbers : List Text → Option (List Text)
sorted_numbers ss = in_order (keyed (distinct ss))

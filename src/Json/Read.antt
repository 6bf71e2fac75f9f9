-- ===== src/Json/Read.antt =====
-- `json.loads(s)`, read character by character by a machine: what it is in the middle of, and what
-- the values that are open expect next. How a float prints is a parameter, which takes a literal
-- to the `repr` of its value. The limits of Python on the digits of an int and on nesting are left
-- out.
mod Open
mod Atoms
pub use Open.*
unfoldable pub use Atoms.*
use kiro_usage_pipeline.Base.{
  ℕ, ◌+◌, ◌-◌, ◌*◌, zero, suc, Bool, true, false, ◌&&◌, ◌||◌, Option, none, some, [], ◌∷◌, ◌++◌,
  Text, lit, ltb, leb, ◌==◌, nat_eq, text_eq, ℤ, pos, negsuc, is_digit, all_digits, decimal_value,
  is_empty, not, if◌then◌else◌,
}
use kiro_usage_pipeline.Value.{
  Value, null, bool, int, float, str, list, dict, Items, nil, cons, Fields, end, field,
}
use kiro_usage_pipeline.Value.Dict.{insert}

-- What the machine is in the middle of. A text that is read holds the characters so far, and the
-- high surrogate that was read last from a `\u`, which waits for a low one.
pub data Machine : Type 0 where
  outside : Parser → Machine
  in_atom : Text → Parser → Machine
  in_text : Text → Option ℕ → Parser → Machine
  in_escape : Text → Option ℕ → Parser → Machine
  in_unit : ℕ → ℕ → Text → Option ℕ → Parser → Machine
  failed : Machine

abbrev pub is_high : ℕ → Bool
is_high v = leb 55296 v && leb v 56319

abbrev pub is_low : ℕ → Bool
is_low v = leb 56320 v && leb v 57343

unfoldable pub add_unit : ℕ → Text → Option ℕ → Parser → Machine
add_unit v acc none p =
    if is_high v then in_text acc (some v) p else in_text (acc ++ (v ∷ [])) none p
add_unit v acc (some h) p =
    if is_low v
    then in_text (acc ++ ((65536 + (h - 55296) * 1024 + (v - 56320)) ∷ [])) none p
    else if is_high v
    then in_text (acc ++ (h ∷ [])) (some v) p
    else in_text (acc ++ (h ∷ v ∷ [])) none p

-- A digit of a `\uXXXX` is read, after which `n` are left.
abbrev pub after_digit : ℕ → ℕ → Text → Option ℕ → Parser → Machine
after_digit zero v acc high p = add_unit v acc high p
after_digit (suc n) v acc high p = in_unit n v acc high p

-- A character between values: a blank, a mark, or the first of a text.
unfoldable pub on_mark : ℕ → Parser → Machine
on_mark c p =
    if c == 34
    then in_text [] none p
    else if c == 32 || c == 9 || c == 10 || c == 13
    then outside p
    else if c == 91
    then outside (open_list p)
    else if c == 93
    then outside (close_list p)
    else if c == 123
    then outside (open_dict p)
    else if c == 125
    then outside (close_dict p)
    else if c == 58
    then outside (on_colon p)
    else if c == 44
    then outside (on_comma p)
    else failed

abbrev pub value_read : Option Value → Parser → Machine
value_read none p = failed
value_read (some v) p = outside (on_value v p)

abbrev pub mark_after : ℕ → Machine → Machine
mark_after c (outside p) = on_mark c p
mark_after c _ = failed

abbrev pub result : Machine → Option Value
result (outside (finished v)) = some v
result _ = none

module _ (float_repr : Text → Text) where
  unfoldable pub read_number : Text → Option Value
  read_number a =
      let n = decimal_value 0 (without_sign a) in
      if is_decimal (without_sign a)
      then some (int (if is_negative a then negated n else pos n))
      else if is_float (without_sign a)
      then some (float (float_repr a))
      else none

  unfoldable pub read_atom : Text → Option Value
  read_atom a =
      if a == lit "null"
      then some null
      else if a == lit "true"
      then some (bool true)
      else if a == lit "false"
      then some (bool false)
      else if a == lit "NaN"
      then some (float (lit "nan"))
      else if a == lit "Infinity"
      then some (float (lit "inf"))
      else if a == lit "-Infinity"
      then some (float (lit "-inf"))
      else read_number a

  abbrev pub on_atom : Text → Parser → Machine
  on_atom a p = value_read (read_atom a) p

  -- An atom ends at the first character that is no part of it.
  abbrev pub flush : Machine → Machine
  flush (in_atom a p) = on_atom a p
  flush m = m

  unfoldable pub step : Machine → ℕ → Machine
  step failed c = failed
  step (outside p) c = if is_atom_char c then in_atom (c ∷ []) p else on_mark c p
  step (in_atom a p) c =
      if is_atom_char c then in_atom (a ++ (c ∷ [])) p else mark_after c (on_atom a p)
  step (in_text acc high p) c =
      if c == 34
      then outside (on_text (acc ++ pending high) p)
      else if c == 92
      then in_escape acc high p
      else if ltb c 32
      then failed
      else in_text (acc ++ (pending high ++ (c ∷ []))) none p
  step (in_escape acc high p) c =
      if c == b'u' then in_unit 3 0 acc high p else elim (escaped_char c) [
        | some d ↦ in_text (acc ++ (pending high ++ (d ∷ []))) none p
        | none ↦ failed
      ]
  step (in_unit n v acc high p) c = elim (hex_value c) [
    | some d ↦ after_digit n (v * 16 + d) acc high p
    | none ↦ failed
  ]

  unfoldable pub run : Machine → Text → Machine
  run m [] = m
  run m (c ∷ s) = run (step m c) s

  -- `none` is a `JSONDecodeError`.
  unfoldable pub loads : Text → Option Value
  loads s = result (flush (run (outside (value_due bottom)) s))

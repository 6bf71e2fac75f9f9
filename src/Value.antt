-- ===== src/Value.antt =====
-- Python values as the scripts meet them: decoded JSON, keyword arguments and API responses.
-- A `datetime` is aware and in UTC, as boto3 returns it: its microseconds since 0001-01-01T00:00Z.
-- A `float` is its `repr`: no script computes with one.
pub mod Dict
pub mod Time
pub mod Show
use kiro_usage_pipeline.Base.{ℕ, zero, suc, Bool, true, false, Option, none, some, List, [], ◌∷◌}
use kiro_usage_pipeline.Base.{Text, lit, ℤ, pos, ◌==◌, text_eq, ◌||◌, not}

mutual
  pub data Value : Type 0 where
    null : Value
    bool : Bool → Value
    int : ℤ → Value
    float : Text → Value
    str : Text → Value
    time : ℕ → Value
    list : Items → Value
    dict : Fields → Value

  pub data Items : Type 0 where
    nil : Items
    cons : Value → Items → Items

  -- A `dict` in insertion order.
  pub data Fields : Type 0 where
    end : Fields
    field : Text → Value → Fields → Fields

-- `bool(v)`
abbrev pub truthy : Value → Bool
truthy null = false
truthy (bool b) = b
truthy (int (pos zero)) = false
truthy (int _) = true
truthy (float r) = not (r == lit "0.0" || r == lit "-0.0")
truthy (str []) = false
truthy (str (_ ∷ _)) = true
truthy (time _) = true
truthy (list nil) = false
truthy (list (cons _ _)) = true
truthy (dict end) = false
truthy (dict (field _ _ _)) = true

-- `v is None`
abbrev pub is_none : Value → Bool
is_none null = true
is_none _ = false

-- `v is True`
abbrev pub is_true : Value → Bool
is_true (bool true) = true
is_true _ = false

-- `v == ""`
abbrev pub is_empty_str : Value → Bool
is_empty_str (str []) = true
is_empty_str _ = false

-- `isinstance(v, dict)` with the dict.
abbrev pub as_dict : Value → Option Fields
as_dict (dict d) = some d
as_dict _ = none

-- An optional argument, where `None` is `none`.
abbrev pub of_text : Option Text → Value
of_text none = null
of_text (some s) = str s

abbrev pub of_int : Option ℤ → Value
of_int none = null
of_int (some n) = int n

abbrev pub items : Items → List Value
items nil = []
items (cons v vs) = v ∷ items vs

abbrev pub of_list : List Value → Items
of_list [] = nil
of_list (v ∷ vs) = cons v (of_list vs)

-- ===== src/Validation/Names.antt =====
-- Which lists of names a capture field accepts.
use kiro_usage_pipeline.Base.{
  true, Option, none, some, List, [], ◌∷◌, ◌≡◌, ◌↔◌, ◌≢◌, arith, All, Text, lit, contains, text_eq,
}
use kiro_usage_pipeline.Validation.{validate_capture_names}

pub contains-eq-false_iff :
    (names : List Text) (a : Text) → (contains names a ≢ true) ↔ All (λ name. name ≢ a) names
contains-eq-false_iff [] a = ground arith
contains-eq-false_iff (n ∷ names) a = ground (arith, contains-eq-false_iff names a)

abbrev pub IsAcceptable : Option (List Text) → Type 0
IsAcceptable none = Unit
IsAcceptable (some names) = (names ≢ []) × All (λ name. name ≢ lit "*") names

-- A capture list is accepted exactly when it is omitted, or is not empty and lists no `*`.
pub validate_capture_names_iff :
    (field_name : Text) (names : Option (List Text))
    → (validate_capture_names field_name names ≡ none) ↔ IsAcceptable names
unfolding validate_capture_names
validate_capture_names_iff field_name none = ground arith
validate_capture_names_iff field_name (some []) = ground arith
validate_capture_names_iff field_name (some (n ∷ ns)) =
    ground (arith, contains-eq-false_iff (n ∷ ns) (lit "*"))

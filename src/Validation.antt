-- ===== src/Validation.antt =====
-- di_validation.py (.pi/skills/aws-observability/scripts): the checks on instrumentation inputs.
-- An error is the text that the script returns, in an `Option`.
pub mod Location
pub mod Names
pub mod Hash
pub mod Words
use kiro_usage_pipeline.Base.{
  ℕ, Bool, true, false, ◌&&◌, ◌||◌, Option, none, some, List, [], ◌∷◌, ◌++◌, length, Text, lit,
  concat, strip, lower, upper, leb, ◌==◌, contains, nat_eq, text_eq, is_empty, ℤ, if◌then◌else◌,
}

-- `x or ""`, and `not x` of an optional text.
abbrev pub or_blank : Option Text → Text
or_blank none = []
or_blank (some s) = s

abbrev pub is_missing : Option Text → Bool
is_missing o = is_empty (or_blank o)

-- `f"{x}"` of an optional text.
abbrev pub show_optional : Option Text → Text
show_optional none = lit "None"
show_optional (some s) = s

-- `(language or "").strip().lower()`
unfoldable pub fold_language : Option Text → Text
unfolding strip lower
fold_language language = lower (strip (or_blank language))

-- `_CANONICAL_LANGUAGES.get(…)`
unfoldable pub canonical_of : Text → Option Text
canonical_of lang =
    if lang == lit "python"
    then some (lit "Python")
    else if lang == lit "java"
    then some (lit "Java")
    else if lang == lit "javascript"
    then some (lit "Javascript")
    else none

unfoldable pub canonical_language : Option Text → Option Text
canonical_language language = canonical_of (fold_language language)

-- `(x or "").strip().upper()`
unfoldable pub fold_word : Option Text → Text
unfolding strip upper
fold_word word = upper (strip (or_blank word))

abbrev pub type_error_text : Option Text → Text
type_error_text instrumentation_type = concat (
    lit "ERROR: instrumentation_type must be one of BREAKPOINT, PROBE (received: "
    ∷ show_optional instrumentation_type
    ∷ lit ")"
    ∷ [])

unfoldable pub normalize_instrumentation_type : Option Text → Text × Option Text
normalize_instrumentation_type instrumentation_type =
    let normalized = fold_word instrumentation_type in
    if contains (lit "BREAKPOINT" ∷ lit "PROBE" ∷ []) normalized
    then (normalized, none)
    else (normalized, some (type_error_text instrumentation_type))

abbrev names_error : Text → List Text → Option Text
names_error field_name names =
    if is_empty names
    then some (
        concat (
          lit "ERROR: "
          ∷ field_name
          ∷ lit " must contain at least one name if provided. Omit it to capture none."
          ∷ []))
    else if contains names (lit "*")
    then some (
        concat (
          lit "ERROR: "
          ∷ field_name
          ∷ lit
              " does not support the wildcard \"*\". List explicit names, or omit it to capture none."
          ∷ []))
    else none

unfoldable pub validate_capture_names : Text → Option (List Text) → Option Text
validate_capture_names field_name none = none
validate_capture_names field_name (some names) = names_error field_name names

abbrev is_given {ℓ} : {A : Type ℓ} → Option A → Bool
is_given none = false
is_given (some _) = true

unfoldable pub validate_probe_constraints : Text → Option Text → Option ℤ → Option Text
validate_probe_constraints normalized_type language line_number =
    if normalized_type == lit "PROBE"
    then if fold_language language == lit "javascript"
      then some (
          lit
            "ERROR: PROBE is not supported for JavaScript. Use instrumentation_type=BREAKPOINT for JavaScript targets.")
      else if is_given line_number
      then some (
          lit
            "ERROR: PROBE does not support line_number (the SDKs ignore it). Omit line_number for PROBE — it is method/function-level only.")
      else none
    else none

-- `[0-9a-f]`
unfoldable pub is_hex : ℕ → Bool
is_hex c = (leb 48 c && leb c 57) || (leb 97 c && leb c 102)

abbrev all_hex : Text → Bool
all_hex [] = true
all_hex (c ∷ s) = is_hex c && all_hex s

-- The text is not empty and matches `[0-9a-f]{16}` from end to end.
unfoldable pub is_valid_location_hash : Option Text → Bool
unfolding is_hex nat_eq
is_valid_location_hash none = false
is_valid_location_hash (some h) = not_empty h && (length h == 16) && all_hex h
  where
    not_empty : Text → Bool
    not_empty [] = false
    not_empty (_ ∷ _) = true

unfoldable pub validate_snapshot_signal : Option Text → Option Text
validate_snapshot_signal signal_type =
    if fold_word signal_type == lit "SNAPSHOT"
    then none
    else some (
        concat (
          lit "ERROR: signal_type must be SNAPSHOT for this API (received: "
          ∷ show_optional signal_type
          ∷ lit ")"
          ∷ []))

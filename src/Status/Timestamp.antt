-- ===== src/Status/Timestamp.antt =====
-- di_status_tools.py: `_parse_iso_timestamp`. The texts that `datetime.fromisoformat` accepts differ
-- from one version of Python to the next, so that it is a parameter, with its three outcomes.
-- An instant is in microseconds since 0001-01-01T00:00Z.
use kiro_usage_pipeline.Base.{
  ℕ, Option, none, some, [], ◌∷◌, Text, lit, concat, replace_char, nat_eq,
}
use kiro_usage_pipeline.Operation.{Op, answer}
use kiro_usage_pipeline.Base.{false}

-- A datetime without an offset by its clock time, one with an offset by its instant, or the text
-- of a `ValueError`.
pub data Parsed : Type 0 where
  naive : ℕ → Parsed
  aware : ℕ → Parsed
  value_error : Text → Parsed

abbrev pub Fromisoformat : Type 0
Fromisoformat = Text → Parsed

-- A naive datetime is taken as UTC.
abbrev in_utc : Parsed → Parsed
in_utc (naive t) = aware t
in_utc (aware t) = aware t
in_utc (value_error e) = value_error e

unfoldable pub parse_iso_timestamp : Fromisoformat → Text → Parsed
parse_iso_timestamp fromisoformat value =
    in_utc (fromisoformat (replace_char b'Z' (lit "+00:00") value))

abbrev invalid_time : Text → Text → Text
invalid_time name e =
    concat (lit "ERROR: Invalid " ∷ name ∷ lit " format. Expected ISO 8601. Error: " ∷ e ∷ [])

-- The `try` around a parse, for the argument of a name. `parse_iso_timestamp` is never naive.
unfoldable pub after_parse : Text → (ℕ → Op) → Parsed → Op
after_parse name next (naive t) = next t
after_parse name next (aware t) = next t
after_parse name next (value_error e) = answer false (invalid_time name e)

unfoldable pub with_timestamp : Fromisoformat → Text → Text → (ℕ → Op) → Op
unfolding after_parse
with_timestamp fromisoformat name value next =
    after_parse name next (parse_iso_timestamp fromisoformat value)

-- The same for an argument that may be missing or blank.
unfoldable pub with_optional_timestamp : Fromisoformat → Text → Option Text → (Option ℕ → Op) → Op
with_optional_timestamp fromisoformat name none next = next none
with_optional_timestamp fromisoformat name (some []) next = next none
with_optional_timestamp fromisoformat name (some (c ∷ s)) next =
    with_timestamp fromisoformat name (c ∷ s) (λ t. next (some t))

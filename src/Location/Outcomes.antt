-- ===== src/Location/Outcomes.antt =====
-- What the input parsers return.
use kiro_usage_pipeline.Base.{
  Option, none, some, List, [], ◌≡◌, ◌≢◌, ◌↔◌, arith, Text, lit, text_eq, concat, Bool,
}
use kiro_usage_pipeline.Validation.Location.{Inputs, validate_location_inputs, error_message}
use kiro_usage_pipeline.Validation.Location.Bindable.{
  IsGiven, IsBindable, validate_location_inputs_iff,
}
use kiro_usage_pipeline.Location.{Location, code}
use kiro_usage_pipeline.Location.Inputs.{
  Outcome, code_location, parse_create_inputs, parse_lookup_inputs,
}

-- A location and no error, or no location and a text that is not blank.
abbrev pub IsDecided : Outcome → Type 0
IsDecided (some _, none) = Unit
IsDecided (none, some message) = message ≢ []
IsDecided (some _, some _) = ⊥
IsDecided (none, none) = ⊥

error_message-ne-nil : (errors : List Text) (i : Inputs) → error_message errors i ≢ []
unfolding error_message concat lit
error_message-ne-nil errors i = cc

validate_location_inputs-ne-blank : (i : Inputs) → validate_location_inputs i ≢ some []
unfolding validate_location_inputs
validate_location_inputs-ne-blank i = grind (arith, error_message-ne-nil)

-- A create call is accepted exactly when the language and the file path are given and the inputs
-- are bindable; then the location is the code location of the inputs.
pub parse_create_inputs_iff :
    (i : Inputs)
    → (parse_create_inputs i ≡ (some (code (code_location i)), none))
      ↔ (IsGiven i.language × IsGiven i.file_path × IsBindable i)
unfolding parse_create_inputs
parse_create_inputs_iff i = ground (arith, validate_location_inputs_iff i)

pub parse_create_inputs_code :
    (i : Inputs) {location : Location}
    → parse_create_inputs i ≡ (some location, none)
    → location ≡ code (code_location i)
unfolding parse_create_inputs
parse_create_inputs_code i h = ground arith

-- Both parsers decide: the defensive branch of their callers, for no location and no error, is
-- never taken.
pub parse_inputs-IsDecided :
    (location_hash : Option Text) (i : Inputs) (allow : Bool)
    → IsDecided (parse_create_inputs i) × IsDecided (parse_lookup_inputs location_hash i allow)
unfolding parse_create_inputs parse_lookup_inputs lit
parse_inputs-IsDecided location_hash i allow =
    (ground (arith, validate_location_inputs-ne-blank i), ground arith)

-- ===== src/Location/Inputs.antt =====
-- di_location.py: the parsers of create and lookup inputs.
use kiro_usage_pipeline.Base.{Bool, ◌||◌, ◌&&◌, not, Option, none, some, Text, lit, if◌then◌else◌}
use kiro_usage_pipeline.Value.{str, of_text, of_int, end}
use kiro_usage_pipeline.Validation.{or_blank, is_missing, canonical_language}
use kiro_usage_pipeline.Validation.Location.{Inputs, validate_location_inputs}
use kiro_usage_pipeline.Location.{CodeLocation, Location, code, hash}

-- A location or an error text; the scripts keep both in a pair.
abbrev pub Outcome : Type 0
Outcome = Option Location × Option Text

-- `canonical_language(language) or language`; a canonical name is never blank.
unfoldable pub api_language : Option Text → Text
api_language language = elim (canonical_language language) [ none ↦ or_blank language | some c ↦ c ]

unfoldable pub code_location : Inputs → CodeLocation
code_location i = record {
  language = str (api_language i.language);
  file_path = of_text i.file_path;
  code_unit = of_text i.code_unit;
  class_name = of_text i.class_name;
  method_name = of_text i.method_name;
  line_number = of_int i.line_number;
  extra_fields = end;
}

abbrev pub required_message : Text
required_message =
    lit
      "ERROR: BREAKPOINT/PROBE require language and file_path.\nExample: language=\"Python\", file_path=\"/app/handler.py\""

unfoldable pub parse_create_inputs : Inputs → Outcome
unfolding code_location api_language
parse_create_inputs i =
    if is_missing i.language || is_missing i.file_path
    then (none, some required_message)
    else elim (validate_location_inputs i) [
      | some message ↦ (none, some message)
      | none ↦ (some (code (code_location i)), none)
    ]

abbrev pub unsupported_message : Text
unsupported_message = lit "code location lookup is not supported for this operation."

abbrev pub missing_message : Text
missing_message =
    lit
      "missing location identifier input. Provide location_hash OR language+file_path (code location)."

unfoldable pub parse_lookup_inputs : Option Text → Inputs → Bool → Outcome
unfolding code_location api_language
parse_lookup_inputs location_hash i allow_code_location_lookup =
    if not (is_missing location_hash)
    then (some (hash (or_blank location_hash)), none)
    else if not (is_missing i.language) && not (is_missing i.file_path)
    then if not allow_code_location_lookup
      then (none, some unsupported_message)
      else (some (code (code_location i)), none)
    else (none, some missing_message)

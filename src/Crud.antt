-- ===== src/Crud.antt =====
-- di_crud_tools.py (.pi/skills/aws-observability/scripts): create, list, get and delete.
pub mod Rendering
pub mod Guards
pub mod Create
pub mod Queries
pub mod Removal
use kiro_usage_pipeline.Base.{
  Bool, true, false, Option, none, some, List, [], ◌∷◌, ◌++◌, Text, lit, concat, has_substring,
  if◌then◌else◌,
}
use kiro_usage_pipeline.Value.{Value, str, dict, Fields, end, field}
use kiro_usage_pipeline.Validation.Location.{Inputs}
use kiro_usage_pipeline.Validation.{normalize_instrumentation_type}
use kiro_usage_pipeline.Location.{Location, describe, to_identifier}
use kiro_usage_pipeline.Location.Inputs.{parse_lookup_inputs}
use kiro_usage_pipeline.Operation.{Op, raises, answer}

unfoldable pub render_location_identifier_help : Text → Text
render_location_identifier_help action = concat (
    lit
      "ERROR: Must provide one of:\n- location_hash\n- language + file_path (for code locations)\n\nUsage:\n1. "
    ∷ action
    ∷ lit " by hash:\n   "
    ∷ action
    ∷ lit "_instrumentation(location_hash=\"abc123...\")\n\n2. "
    ∷ action
    ∷ lit " by code location:\n   "
    ∷ action
    ∷ lit "_instrumentation(language=\"Python\", file_path=\"/app/file.py\", ...)"
    ∷ [])

abbrev pub internal_error : Text
internal_error = lit "ERROR: Internal error resolving location. Please report this issue."

-- `if location_error:` and what follows it, up to the resolved location.
unfoldable pub lookup_failed : Text → Text → Op
lookup_failed help message =
    if has_substring message (lit "missing location identifier input")
    then answer false help
    else answer false (lit "ERROR: " ++ message)

-- The pair of a parser: a text that is not blank is an error, no location is an internal error.
unfoldable pub with_location : Option Location × Option Text → (Text → Op) → (Location → Op) → Op
with_location (location, some (c ∷ s)) failed next = failed (c ∷ s)
with_location (some location, some []) failed next = next location
with_location (some location, none) failed next = next location
with_location (none, some []) failed next = answer false internal_error
with_location (none, none) failed next = answer false internal_error

-- `location.to_identifier()`, which no parser's location lacks.
unfoldable pub with_identifier : Location → (Fields → Op) → Op
with_identifier location next = elim (to_identifier location) [
  | none ↦ raises (lit "AttributeError")
  | some d ↦ next d
]

-- What get and delete take to find one configuration.
pub record Target : Type 0 where
  pub service : Text
  pub environment : Text
  pub instrumentation_type : Option Text
  pub location_hash : Option Text
  pub location : Inputs

-- The location of a target, and what is done with it.
unfoldable pub lookup : Text → Target → (Location → Op) → Op
lookup help t next =
    with_location (parse_lookup_inputs t.location_hash t.location true) (lookup_failed help) next

-- The checks on the instrumentation type with which every operation begins.
unfoldable pub with_type : Option Text → (Text → Op) → Op
with_type instrumentation_type next =
    let (normalized_type, type_error) = normalize_instrumentation_type instrumentation_type in
    elim type_error [ some message ↦ answer false message | none ↦ next normalized_type ]

-- The keyword arguments of a request on one location.
unfoldable pub target_kwargs : Text → Target → Fields → Fields
target_kwargs normalized_type t identifier =
    field (lit "InstrumentationType") (str normalized_type) (
      field (lit "Service") (str t.service) (
        field (lit "Environment") (str t.environment) (
          field (lit "SignalType") (str (lit "SNAPSHOT"))
            (field (lit "LocationIdentifier") (dict identifier) end))))

-- The attempted parameters of a request on one location.
abbrev pub attempted_target : Target → Location → List (Text × Value)
attempted_target t location =
    (lit "Target", str (describe location))
    ∷ (lit "Service", str t.service)
    ∷ (lit "Environment", str t.environment)
    ∷ []

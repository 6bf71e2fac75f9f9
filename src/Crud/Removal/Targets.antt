-- ===== src/Crud/Removal/Targets.antt =====
-- What the request of `delete_instrumentation` says.
use kiro_usage_pipeline.Base.{Option, none, some, [], ◌∷◌, ◌≡◌, Text, lit}
use kiro_usage_pipeline.Value.{Value, str, dict, Fields, end, field}
use kiro_usage_pipeline.Value.Dict.{get_or_null, get-field, get-end}
use kiro_usage_pipeline.Validation.{fold_word}
use kiro_usage_pipeline.Validation.Location.{Inputs}
use kiro_usage_pipeline.Location.{code}
use kiro_usage_pipeline.Location.Inputs.{code_location}
use kiro_usage_pipeline.Location.Response.{location_from_response}
use kiro_usage_pipeline.Location.RoundTrip.{compact}
use kiro_usage_pipeline.Crud.{Target}

ruleset get_laws = (get-field, get-end)

-- A value that names the hash, if it is given, and else the code location, as it is read back.
abbrev pub Names : Option Text → Inputs → Value → Type 0
Names none i v = location_from_response v ≡ code (compact (code_location i))
Names (some []) i v = location_from_response v ≡ code (compact (code_location i))
Names (some (c ∷ h)) i v = v ≡ dict (field (lit "LocationHash") (str (c ∷ h)) end)

-- The request to delete what a target names.
abbrev pub IsTargeted : Target → Text → Fields → Type 0
IsTargeted t name d =
    (name ≡ lit "delete_instrumentation_configuration")
    × (get_or_null (lit "InstrumentationType") d ≡ str (fold_word t.instrumentation_type))
    × (get_or_null (lit "Service") d ≡ str t.service)
    × (get_or_null (lit "Environment") d ≡ str t.environment)
    × (get_or_null (lit "SignalType") d ≡ str (lit "SNAPSHOT"))
    × Names t.location_hash t.location (get_or_null (lit "LocationIdentifier") d)

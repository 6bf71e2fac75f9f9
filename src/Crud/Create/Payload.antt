-- ===== src/Crud/Create/Payload.antt =====
-- What the request of `create_instrumentation` says.
use kiro_usage_pipeline.Base.{
  ℕ, Option, none, some, ◌≡◌, Text, lit, if◌then◌else◌, ℤ, pos, negsuc, suc, ◌+◌, ◌*◌, ◌-◌,
}
use kiro_usage_pipeline.Value.{Value, null, str, time, dict, Fields, truthy}
use kiro_usage_pipeline.Value.Dict.{get_or_null, get-insert, get-insert_if, get-field, get-end}
use kiro_usage_pipeline.Validation.{fold_word}
use kiro_usage_pipeline.Location.{Location, to_api_payload}
use kiro_usage_pipeline.Location.Inputs.{code_location}
use kiro_usage_pipeline.Location.Response.{location_from_response}
use kiro_usage_pipeline.Location.RoundTrip.{compact}
use kiro_usage_pipeline.Capture
use kiro_usage_pipeline.Capture.{CodeCapture}
use kiro_usage_pipeline.Capture.Response.{capture_from_response}
use kiro_usage_pipeline.Crud.Create.Captures.{IsGiven}
use kiro_usage_pipeline.Crud.Create.{Arguments, hour, capture_of}

ruleset get_laws = (get-insert, get-insert_if, get-field, get-end)

abbrev pub instant : ℕ → ℤ → ℕ
instant now (pos n) = now + n * hour
instant now (negsuc n) = now - suc n * hour

-- The expiry asked for, `null` where none is.
abbrev pub expiry : ℕ → Option ℤ → Value
expiry now none = null
expiry now (some n) = time (instant now n)

abbrev pub or_absent : Value → Value
or_absent v = if truthy v then v else null

module _ (now : ℕ) (a : Arguments) where
  -- The parts of a request's keyword arguments, as they are read back.
  abbrev pub Carries : Text → Value → Value → Text → Fields → Type 0
  Carries word location expires name d =
      (name ≡ lit "create_instrumentation_configuration")
      × (get_or_null (lit "InstrumentationType") d ≡ str word)
      × (get_or_null (lit "Service") d ≡ str a.service)
      × (get_or_null (lit "Environment") d ≡ str a.environment)
      × (get_or_null (lit "SignalType") d ≡ str (lit "SNAPSHOT"))
      × (get_or_null (lit "Location") d ≡ location)
      × (get_or_null (lit "CaptureConfiguration") d ≡ dict (Capture.to_api_payload (capture_of a)))
      × (get_or_null (lit "Description") d ≡ str a.description)
      × (get_or_null (lit "ExpiresAt") d ≡ expires)
      × (get_or_null (lit "AttributeFilters") d ≡ or_absent a.attribute_filters)

  -- What a create call asks for, as a reader of the request takes it.
  abbrev pub IsAsked : Text → Fields → Type 0
  IsAsked name d =
      (name ≡ lit "create_instrumentation_configuration")
      × (get_or_null (lit "InstrumentationType") d ≡ str (fold_word a.instrumentation_type))
      × (get_or_null (lit "Service") d ≡ str a.service)
      × (get_or_null (lit "Environment") d ≡ str a.environment)
      × (get_or_null (lit "SignalType") d ≡ str (lit "SNAPSHOT"))
      × (location_from_response (get_or_null (lit "Location") d)
          ≡ Location.code (compact (code_location a.location)))
      × ((c : CodeCapture) × (capture_from_response (get_or_null (lit "CaptureConfiguration") d)
            ≡ some (Capture.code c))
          × IsGiven a c)
      × (get_or_null (lit "Description") d ≡ str a.description)
      × (get_or_null (lit "ExpiresAt") d ≡ expiry now a.ttl_hours)
      × (get_or_null (lit "AttributeFilters") d ≡ or_absent a.attribute_filters)

  abbrev word_asked : Text
  word_asked = fold_word a.instrumentation_type

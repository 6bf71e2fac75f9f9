-- ===== src/Crud/Create.antt =====
-- di_crud_tools.py: `create_instrumentation`.
pub mod Guards
pub mod Captures
pub mod Payload
pub mod Totality
use kiro_usage_pipeline.Base.{
  ℕ, zero, suc, ◌+◌, ◌-◌, ◌*◌, Bool, true, false, not, ◌&&◌, Option, none, some, List, [], ◌∷◌,
  ◌++◌, Text, lit, concat, ltb, ℤ, pos, negsuc, if◌then◌else◌,
}
use kiro_usage_pipeline.Value.{
  Value, null, str, time, list, dict, Items, nil, cons, Fields, end, field, truthy,
}
use kiro_usage_pipeline.Value.Time.{end_of_time}
use kiro_usage_pipeline.Value.Dict.{insert, insert_if}
use kiro_usage_pipeline.Validation.{
  normalize_instrumentation_type, validate_probe_constraints, validate_capture_names,
}
use kiro_usage_pipeline.Validation.Location.{Inputs, format_code_location_troubleshooting}
use kiro_usage_pipeline.Location.{Location, describe, to_api_payload as location_payload}
use kiro_usage_pipeline.Location.Inputs.{parse_create_inputs}
use kiro_usage_pipeline.Capture.{CaptureLimits, CodeCapture, to_api_payload}
use kiro_usage_pipeline.Errors.{AwsException, Prose}
use kiro_usage_pipeline.Gateway.{render_error}
use kiro_usage_pipeline.Operation.{
  Reply, response, gateway_error, Op, raises, request, answer, answer_rendered,
}
use kiro_usage_pipeline.Crud.{with_type, with_location}
use kiro_usage_pipeline.Crud.Rendering.{Created, names_of, render_create_success_message}

-- The keyword arguments. Filters are a Python value, `null` where there are none.
pub record Arguments : Type 0 where
  pub instrumentation_type : Option Text
  pub service : Text
  pub environment : Text
  pub location : Inputs
  pub capture_arguments : Option (List Text)
  pub capture_return : Option Bool
  pub capture_stack_trace : Option Bool
  pub capture_locals : Option (List Text)
  pub limits : CaptureLimits
  pub attribute_filters : Value
  pub description : Text
  pub ttl_hours : Option ℤ

abbrev pub is_given {ℓ} : {A : Type ℓ} → Option A → Bool
is_given none = false
is_given (some _) = true

abbrev pub or_bool : Option Bool → Bool → Bool
or_bool none b = b
or_bool (some b) _ = b

abbrev pub text_items : List Text → Items
text_items [] = nil
text_items (t ∷ ts) = cons (str t) (text_items ts)

abbrev pub names_items : Option (List Text) → Option Items
names_items none = none
names_items (some ns) = some (text_items ns)

abbrev pub is_line_level : Arguments → Bool
is_line_level a = is_given (a.location.line_number)

unfoldable pub capture_of : Arguments → CodeCapture
capture_of a = record {
  capture_return = or_bool a.capture_return (not (is_line_level a));
  capture_stack_trace = or_bool a.capture_stack_trace true;
  capture_arguments = names_items a.capture_arguments;
  capture_locals = names_items a.capture_locals;
  limits = a.limits;
}

-- Microseconds of an hour.
abbrev pub hour : ℕ
hour = 3600 * 1000000

abbrev in_range : ℕ → Option ℕ
in_range t = if ltb t end_of_time then some t else none

-- `now + timedelta(hours=n)`; `none` is an `OverflowError`.
unfoldable pub add_hours : ℕ → ℤ → Option ℕ
add_hours now (pos n) = in_range (now + n * hour)
add_hours now (negsuc n) =
    let back = suc n * hour in if ltb now back then none else some (now - back)

abbrev line_level_message : Text
line_level_message =
    lit
      "ERROR: line-level instrumentation (line_number set) requires capture_locals.\nAt a specific line, only local variables carry data — arguments and return values apply to method/function-level targets (no line_number).\nProvide capture_locals=[...] with the local variable names to capture."

unfoldable pub create_prose : Text → Arguments → Location → Prose
create_prose normalized_type a location = record {
  action = concat (lit "create " ∷ normalized_type ∷ lit " instrumentation" ∷ []);
  attempted_label = lit "ATTEMPTED CONFIGURATION:";
  attempted =
      (lit "Type", str normalized_type)
      ∷ (lit "Target", str (describe location))
      ∷ (lit "Service", str a.service)
      ∷ (lit "Environment", str a.environment)
      ∷ [];
  possible_causes =
      lit "AWS credentials missing or scoped to a different account"
      ∷ lit "Invalid service or environment identifier"
      ∷ lit "Instrumentation already exists at this location"
      ∷ lit "Invalid location/capture payload"
      ∷ lit "AWS API endpoint not accessible"
      ∷ [];
  troubleshooting =
      lit "Verify AWS credentials: aws configure list"
      ∷ lit "Check service name and environment match your deployment"
      ∷ lit "Try listing existing instrumentations with list_instrumentations"
      ∷ [];
  trailer = format_code_location_troubleshooting a.location;
}

abbrev created : Text → Arguments → Location → Created
created normalized_type a location = record {
  normalized_type = normalized_type;
  service = a.service;
  environment = a.environment;
  location = location;
  ttl_hours = a.ttl_hours;
  capture_arguments = a.capture_arguments;
  capture_locals = a.capture_locals;
  is_line_level = is_line_level a;
  capture_return = or_bool a.capture_return (not (is_line_level a));
  capture_stack_trace = or_bool a.capture_stack_trace true;
  limits = a.limits;
  attribute_filters = a.attribute_filters;
}

-- The request's keyword arguments before the expiry and the filters.
unfoldable pub create_kwargs : Text → Arguments → Fields → Fields
create_kwargs normalized_type a payload = field (lit "InstrumentationType") (str normalized_type) (
    field (lit "Service") (str a.service) (
      field (lit "Environment") (str a.environment) (
        field (lit "SignalType") (str (lit "SNAPSHOT")) (
          field (lit "Location") (dict payload) (
            field (lit "CaptureConfiguration") (dict (to_api_payload (capture_of a)))
              (field (lit "Description") (str a.description) end))))))

module _ (now : ℕ) (a : Arguments) where
  handle_reply : Text → Location → Reply → Op
  handle_reply normalized_type location (response d) =
      answer_rendered true
        (render_create_success_message d now (created normalized_type a location))
  handle_reply normalized_type location (gateway_error e) =
      answer false (render_error e (create_prose normalized_type a location))

  send : Text → Location → Fields → Op
  unfolding handle_reply
  send normalized_type location kwargs =
      request (lit "create_instrumentation_configuration")
        (insert_if (truthy a.attribute_filters) (lit "AttributeFilters") a.attribute_filters kwargs)
        (handle_reply normalized_type location)

  send_with_expiry : Text → Location → Fields → Option ℤ → Op
  unfolding send
  send_with_expiry normalized_type location kwargs none = send normalized_type location kwargs
  send_with_expiry normalized_type location kwargs (some hours) = elim (add_hours now hours) [
    | none ↦ raises (lit "OverflowError: date value out of range")
    | some t ↦ send normalized_type location (insert (lit "ExpiresAt") (time t) kwargs)
  ]

  -- After all checks. The payload is there, since a parsed location is a code location.
  build_request : Text → Location → Op
  unfolding send_with_expiry
  build_request normalized_type location = elim (location_payload location) [
    | none ↦ raises (lit "NotImplementedError")
    | some payload ↦
        send_with_expiry normalized_type location (create_kwargs normalized_type a payload)
          a.ttl_hours
  ]

  -- An error text or none, in the order in which the checks are made.
  infixr 30 ◌orelse◌
  abbrev ◌orelse◌ : Option Text → Option Text → Option Text
  none orelse e = e
  some t orelse e = some t

  abbrev line_level_error : Option Text
  line_level_error = elim (names_of a.capture_locals) [
    | [] ↦ if is_line_level a then some line_level_message else none
    | _ ∷ _ ↦ none
  ]

  -- The checks after the location is resolved.
  unfoldable pub capture_error : Option Text
  capture_error =
      validate_capture_names (lit "capture_arguments") a.capture_arguments
      orelse validate_capture_names (lit "capture_locals") a.capture_locals
      orelse line_level_error

  resolved : Text → Location → Op
  unfolding build_request
  resolved normalized_type location = elim capture_error [
    | some message ↦ answer false message
    | none ↦ build_request normalized_type location
  ]

  -- The checks on a type that is accepted.
  typed : Text → Op
  unfolding resolved
  typed normalized_type =
      elim (validate_probe_constraints normalized_type a.location.language a.location.line_number) [
        | some message ↦ answer false message
        | none ↦
            with_location (parse_create_inputs a.location) (answer false) (resolved normalized_type)
      ]

  unfoldable pub create_instrumentation : Op
  unfolding typed
  create_instrumentation = with_type a.instrumentation_type typed

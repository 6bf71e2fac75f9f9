-- ===== src/Examples.antt =====
-- Concrete inputs, and the theorems on them: the validation, location and capture modules.
mod Operations
mod Calls
mod Statuses
mod Snapshots
mod Runs
mod Outcomes
mod Buckets
mod Searches
use kiro_usage_pipeline.Base.{
  ℕ, ◌≤◌, true, false, Option, none, some, List, [], ◌∷◌, ◌++◌, ◌≡◌, ◌≢◌, ◌⊎◌, ◌↔◌, inl, inr, refl,
  arith, Text, lit, text_eq, nat_eq, length, All, ℤ, pos, negsuc,
}
use kiro_usage_pipeline.Value.{
  Value, null, str, int, bool, dict, Items, nil, cons, Fields, end, field,
}
use kiro_usage_pipeline.Validation.{
  canonical_language, canonical_of, fold_language, normalize_instrumentation_type, fold_word,
  is_valid_location_hash, validate_capture_names,
}
use kiro_usage_pipeline.Validation.Names.{validate_capture_names_iff}
use kiro_usage_pipeline.Validation.Hash.{is_valid_location_hash_iff}
use kiro_usage_pipeline.Validation.Words.{
  normalize_instrumentation_type_stable, canonical_language_stable,
}
use kiro_usage_pipeline.Validation.Location.{Inputs, validate_location_inputs}
use kiro_usage_pipeline.Validation.Location.Bindable.{IsBindable, validate_location_inputs_iff}
use kiro_usage_pipeline.Location
use kiro_usage_pipeline.Location.{CodeLocation, to_code_location_dict, to_api_payload}
use kiro_usage_pipeline.Location.Inputs.{code_location, parse_create_inputs, parse_lookup_inputs}
use kiro_usage_pipeline.Location.Outcomes.{
  IsDecided, parse_create_inputs_iff, parse_inputs-IsDecided,
}
use kiro_usage_pipeline.Location.Lookup.{location_of, parse_lookup_inputs_iff}
use kiro_usage_pipeline.Location.Response.{location_from_response}
use kiro_usage_pipeline.Location.RoundTrip.{compact, location_from_response-to_api_payload}
use kiro_usage_pipeline.Capture
use kiro_usage_pipeline.Capture.{CaptureLimits, CodeCapture}
use kiro_usage_pipeline.Capture.Response.{capture_from_response}
use kiro_usage_pipeline.Capture.RoundTrip.{capture_from_response-to_api_payload}

abbrev pub handler : Inputs
handler = record {
  language = some (lit "python");
  file_path = some (lit "/app/handler.py");
  code_unit = some (lit "app.handler");
  class_name = none;
  method_name = some (lit "handle");
  line_number = some (pos 42);
}

abbrev pub few_limits : CaptureLimits
few_limits = record {
  max_hits = int (pos 10);
  max_string_length = int (pos 255);
  max_collection_width = null;
  max_collection_depth = null;
  max_stack_frames = null;
  max_stack_trace_size = null;
  max_object_depth = null;
  max_fields_per_object = null;
}

abbrev one_argument : CodeCapture
one_argument = record {
  capture_return = true;
  capture_stack_trace = false;
  capture_arguments = some (cons (str (lit "event")) nil);
  capture_locals = none;
  limits = few_limits;
}

abbrev pub some_hash : Text
some_hash = lit "0123456789abcdef"

pub handler-IsBindable : IsBindable handler
unfolding fold_language lit text_eq
handler-IsBindable = (cc, omega arith, inr (inl (refl, cc, cc)))

validate_location_inputs_iff_example : validate_location_inputs handler ≡ none
validate_location_inputs_iff_example = (validate_location_inputs_iff handler).1 handler-IsBindable

parse_inputs-IsDecided_example :
    IsDecided (parse_create_inputs handler) × IsDecided (parse_lookup_inputs none handler true)
parse_inputs-IsDecided_example = parse_inputs-IsDecided none handler true

location_from_response-to_api_payload_example :
    location_from_response
      (dict (field (lit "CodeLocation") (dict (to_code_location_dict (code_location handler))) end))
    ≡ Location.code (compact (code_location handler))
unfolding to_api_payload
location_from_response-to_api_payload_example =
    location_from_response-to_api_payload (code_location handler) refl

capture_from_response-to_api_payload_example :
    capture_from_response (dict (Capture.to_api_payload one_argument))
    ≡ some (Capture.code one_argument)
capture_from_response-to_api_payload_example = capture_from_response-to_api_payload one_argument

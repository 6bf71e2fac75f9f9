-- ===== src/Capture/RoundTrip.antt =====
-- A capture comes back from the payload that it is sent as.
use kiro_usage_pipeline.Base.{Option, none, some, ◌≡◌, refl, arith, lit, text_eq, if◌then◌else◌}
use kiro_usage_pipeline.Value.{bool, dict, Items, Fields, end, field, truthy}
use kiro_usage_pipeline.Value.Dict.{get, get_or_null, get-insert_if, get-field, get-end}
use kiro_usage_pipeline.Capture.{
  CaptureLimits, CodeCapture, names_value, code, limits_payload, capture_config, to_api_payload,
}
use kiro_usage_pipeline.Capture.Response.{
  to_names, raw_limits, limits_from, code_capture_from_dict, capture_from_response,
}

ruleset get_laws = (get-insert_if, get-field, get-end)

module _ (l : CaptureLimits) where
  sent_max_hits : get_or_null (lit "MaxHits") (limits_payload l) ≡ l.max_hits
  unfolding limits_payload lit text_eq
  sent_max_hits = simp get_laws (ground arith)

  sent_max_string_length :
      get_or_null (lit "MaxStringLength") (limits_payload l) ≡ l.max_string_length
  unfolding limits_payload lit text_eq
  sent_max_string_length = simp get_laws (ground arith)

  sent_max_collection_width :
      get_or_null (lit "MaxCollectionWidth") (limits_payload l) ≡ l.max_collection_width
  unfolding limits_payload lit text_eq
  sent_max_collection_width = simp get_laws (ground arith)

  sent_max_collection_depth :
      get_or_null (lit "MaxCollectionDepth") (limits_payload l) ≡ l.max_collection_depth
  unfolding limits_payload lit text_eq
  sent_max_collection_depth = simp get_laws (ground arith)

  sent_max_stack_frames : get_or_null (lit "MaxStackFrames") (limits_payload l) ≡ l.max_stack_frames
  unfolding limits_payload lit text_eq
  sent_max_stack_frames = simp get_laws (ground arith)

  sent_max_stack_trace_size :
      get_or_null (lit "MaxStackTraceSize") (limits_payload l) ≡ l.max_stack_trace_size
  unfolding limits_payload lit text_eq
  sent_max_stack_trace_size = simp get_laws (ground arith)

  sent_max_object_depth : get_or_null (lit "MaxObjectDepth") (limits_payload l) ≡ l.max_object_depth
  unfolding limits_payload lit text_eq
  sent_max_object_depth = simp get_laws (ground arith)

  sent_max_fields_per_object :
      get_or_null (lit "MaxFieldsPerObject") (limits_payload l) ≡ l.max_fields_per_object
  unfolding limits_payload lit text_eq
  sent_max_fields_per_object = simp get_laws (ground arith)

  limits_round_trip : limits_from (limits_payload l) ≡ l
  unfolding limits_from
  limits_round_trip = λ i. record {
    max_hits = sent_max_hits i;
    max_string_length = sent_max_string_length i;
    max_collection_width = sent_max_collection_width i;
    max_collection_depth = sent_max_collection_depth i;
    max_stack_frames = sent_max_stack_frames i;
    max_stack_trace_size = sent_max_stack_trace_size i;
    max_object_depth = sent_max_object_depth i;
    max_fields_per_object = sent_max_fields_per_object i;
  }

module _ (c : CodeCapture) where
  sent_limits : get (lit "CaptureLimits") (capture_config c) ≡ some (dict (limits_payload c.limits))
  unfolding capture_config lit text_eq
  sent_limits = simp get_laws

  sent_return : get (lit "CaptureReturn") (capture_config c) ≡ some (bool c.capture_return)
  unfolding capture_config lit text_eq
  sent_return = simp get_laws

  sent_stack_trace :
      get (lit "CaptureStackTrace") (capture_config c) ≡ some (bool c.capture_stack_trace)
  unfolding capture_config lit text_eq
  sent_stack_trace = simp get_laws

  sent_arguments :
      get_or_null (lit "CaptureArguments") (capture_config c) ≡ names_value c.capture_arguments
  unfolding capture_config lit text_eq
  sent_arguments = simp get_laws (ground arith)

  sent_locals : get_or_null (lit "CaptureLocals") (capture_config c) ≡ names_value c.capture_locals
  unfolding capture_config lit text_eq
  sent_locals = simp get_laws (ground arith)

to_names-names_value : (names : Option Items) → to_names (names_value names) ≡ some names
unfolding to_names
to_names-names_value none = refl
to_names-names_value (some vs) = refl

-- A `{}` of limits is read back as one.
raw_limits_of_dict : (d : Fields) → (if truthy (dict d) then d else end) ≡ d
raw_limits_of_dict end = refl
raw_limits_of_dict (field _ _ _) = refl

raw_limits_sent : (c : CodeCapture) → raw_limits (capture_config c) ≡ limits_payload c.limits
unfolding raw_limits
raw_limits_sent c = rw (sent_limits c) (raw_limits_of_dict (limits_payload c.limits))

config_round_trip : (c : CodeCapture) → code_capture_from_dict (capture_config c) ≡ some c
unfolding code_capture_from_dict
config_round_trip c = rw (
  sent_arguments c,
  sent_locals c,
  sent_return c,
  sent_stack_trace c,
  raw_limits_sent c,
  limits_round_trip c.limits,
  to_names-names_value c.capture_arguments,
  to_names-names_value c.capture_locals,
)

-- Parsing the payload of a capture gives it back: an omitted list stays omitted, an empty list
-- stays an empty list, and a limit that is not set stays unset.
pub capture_from_response-to_api_payload :
    (c : CodeCapture) → capture_from_response (dict (to_api_payload c)) ≡ some (code c)
unfolding capture_from_response to_api_payload get lit text_eq
capture_from_response-to_api_payload c = rw (config_round_trip c)

-- ===== src/Capture.antt =====
-- di_capture.py (.pi/skills/aws-observability/scripts): what an instrumentation captures.
-- A limit is a Python value, `null` where it is not set, since a response's limits are taken as
-- they come.
pub mod Response
pub mod RoundTrip
use kiro_usage_pipeline.Base.{
  Bool, true, false, ◌&&◌, not, Option, none, some, List, [], ◌∷◌, Text, lit, if◌then◌else◌,
}
use kiro_usage_pipeline.Value.{
  Value, null, bool, str, list, dict, Items, nil, cons, Fields, end, field, is_none,
}
use kiro_usage_pipeline.Value.Dict.{insert_if}

pub record CaptureLimits : Type 0 where
  pub max_hits : Value
  pub max_string_length : Value
  pub max_collection_width : Value
  pub max_collection_depth : Value
  pub max_stack_frames : Value
  pub max_stack_trace_size : Value
  pub max_object_depth : Value
  pub max_fields_per_object : Value

abbrev all_none : List Value → Bool
all_none [] = true
all_none (v ∷ vs) = is_none v && all_none vs

unfoldable pub is_empty : CaptureLimits → Bool
is_empty l = all_none (
    l.max_hits ∷ l.max_string_length ∷ l.max_collection_width ∷ l.max_collection_depth
    ∷ l.max_stack_frames ∷ l.max_stack_trace_size ∷ l.max_object_depth ∷ l.max_fields_per_object
    ∷ [])

abbrev set_limit : Text → Value → Fields → Fields
set_limit k v d = insert_if (not (is_none v)) k v d

unfoldable pub limits_payload : CaptureLimits → Fields
limits_payload l = set_limit (lit "MaxFieldsPerObject") l.max_fields_per_object (
    set_limit (lit "MaxObjectDepth") l.max_object_depth (
      set_limit (lit "MaxStackTraceSize") l.max_stack_trace_size (
        set_limit (lit "MaxStackFrames") l.max_stack_frames (
          set_limit (lit "MaxCollectionDepth") l.max_collection_depth (
            set_limit (lit "MaxCollectionWidth") l.max_collection_width (
              set_limit (lit "MaxStringLength") l.max_string_length
                (set_limit (lit "MaxHits") l.max_hits end)))))))

pub record CodeCapture : Type 0 where
  pub capture_return : Bool
  pub capture_stack_trace : Bool
  pub capture_arguments : Option Items
  pub capture_locals : Option Items
  pub limits : CaptureLimits

-- `CodeCapture`, `UnknownCapture`.
pub data Capture : Type 0 where
  code : CodeCapture → Capture
  unknown : Fields → Capture

abbrev is_given : Option Items → Bool
is_given none = false
is_given (some _) = true

abbrev names_value : Option Items → Value
names_value none = null
names_value (some names) = list names

unfoldable pub capture_config : CodeCapture → Fields
capture_config c =
    insert_if (is_given c.capture_locals) (lit "CaptureLocals") (names_value c.capture_locals) (
      insert_if (is_given c.capture_arguments) (lit "CaptureArguments")
        (names_value c.capture_arguments)
        (field (lit "CaptureReturn") (bool c.capture_return) (
          field (lit "CaptureStackTrace") (bool c.capture_stack_trace)
            (field (lit "CaptureLimits") (dict (limits_payload c.limits)) end))))

unfoldable pub to_api_payload : CodeCapture → Fields
to_api_payload c = field (lit "CodeCapture") (dict (capture_config c)) end

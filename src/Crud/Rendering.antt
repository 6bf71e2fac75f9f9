-- ===== src/Crud/Rendering.antt =====
-- di_crud_rendering.py and di_formatting.py (.pi/skills/aws-observability/scripts): the texts of
-- the operations. `none` is an exception that a rendering raises. The texts of configurations take
-- a response of the shape that the API documents: lists of dicts, and lists of texts for names.
pub mod Configurations
pub mod Deletions
use kiro_usage_pipeline.Base.{
  ℕ, zero, suc, ◌+◌, Bool, true, false, not, Option, none, some, List, [], ◌∷◌, ◌++◌, map, length,
  Text, lit, concat, join, show_nat, show_int, ℤ, pos, ◌==◌, text_eq, if◌then◌else◌,
}
use kiro_usage_pipeline.Value.{
  Value, null, str, int, time, list, dict, nil, Fields, end, field, items, truthy, is_none,
  is_empty_str, as_dict,
}
use kiro_usage_pipeline.Value.Dict.{get_or, get_or_null, keys}
use kiro_usage_pipeline.Value.Time.{strftime}
use kiro_usage_pipeline.Value.Show.{show}
use kiro_usage_pipeline.Location.{Location}
use kiro_usage_pipeline.Location.Block.{render_location_block}
use kiro_usage_pipeline.Capture.{CaptureLimits, is_empty as no_limits}

abbrev timestamp_text : Value → Text
timestamp_text (time t) = strftime t
timestamp_text v = show v

unfoldable pub format_timestamp : Value → Text → Text
format_timestamp value default =
    if is_none value then default else if is_empty_str value then default else timestamp_text value

-- A list of dicts in a response.
abbrev pub fields_of : Value → Fields
fields_of (dict d) = d
fields_of _ = end

abbrev pub list_items : Value → List Value
list_items (list vs) = items vs
list_items _ = []

abbrev pub dicts : Value → List Fields
dicts v = map fields_of (list_items v)

abbrev pub enabled : Bool → Text
enabled b = if b then lit "Enabled" else lit "Disabled"

abbrev pub limit_line : Text → Value → Text
limit_line label v =
    if is_none v then [] else concat (lit "- " ∷ label ∷ lit ": " ∷ show v ∷ lit "\n" ∷ [])

abbrev pub limit_lines : CaptureLimits → Text
limit_lines l = concat (
    limit_line (lit "Max Hits") l.max_hits
    ∷ limit_line (lit "Max String Length") l.max_string_length
    ∷ limit_line (lit "Max Collection Width") l.max_collection_width
    ∷ limit_line (lit "Max Collection Depth") l.max_collection_depth
    ∷ limit_line (lit "Max Stack Frames") l.max_stack_frames
    ∷ limit_line (lit "Max Stack Trace Size") l.max_stack_trace_size
    ∷ limit_line (lit "Max Object Depth") l.max_object_depth
    ∷ limit_line (lit "Max Fields Per Object") l.max_fields_per_object
    ∷ [])

-- An optional argument that is a list; a missing list and an empty one are both falsy.
abbrev pub names_of : Option (List Text) → List Text
names_of none = []
names_of (some ns) = ns

-- The arguments of a created configuration that its message repeats.
pub record Created : Type 0 where
  pub normalized_type : Text
  pub service : Text
  pub environment : Text
  pub location : Location
  pub ttl_hours : Option ℤ
  pub capture_arguments : Option (List Text)
  pub capture_locals : Option (List Text)
  pub is_line_level : Bool
  pub capture_return : Bool
  pub capture_stack_trace : Bool
  pub limits : CaptureLimits
  pub attribute_filters : Value

is_one : ℤ → Bool
is_one (pos (suc zero)) = true
is_one _ = false

expiry_suffix : Option ℤ → Text
unfolding is_one
expiry_suffix none = []
expiry_suffix (some n) = concat (
    lit " (requested "
    ∷ show_int n
    ∷ lit " hour"
    ∷ (if is_one n then [] else lit "s")
    ∷ lit ")"
    ∷ [])

expiry_line : Text → Option ℤ → Text
expiry_line [] ttl_hours = lit "- Expires: Never (unless deleted)\n"
expiry_line (c ∷ s) ttl_hours =
    concat (lit "- Expires: " ∷ (c ∷ s) ∷ expiry_suffix ttl_hours ∷ lit "\n" ∷ [])

-- `{", ".join(names)}` on a line of its own.
abbrev names_line : Text → List Text → Text
names_line label names =
    concat (lit "- " ∷ label ∷ lit ": " ∷ join (lit ", ") names ∷ lit "\n" ∷ [])

arguments_line : List Text → Text
arguments_line [] = lit "- Arguments: (none)\n"
arguments_line (n ∷ ns) = names_line (lit "Arguments") (n ∷ ns)

locals_line : List Text → Text
locals_line [] = []
locals_line (n ∷ ns) = names_line (lit "Local Variables") (n ∷ ns)

-- `len(v)`, where `none` is a `TypeError`.
abbrev pub len_of : Value → Option ℕ
len_of (str s) = some (length s)
len_of (list vs) = some (length (items vs))
len_of (dict d) = some (length (keys d))
len_of _ = none

abbrev groups_line : Option ℕ → Option Text
groups_line none = none
groups_line (some n) =
    some (concat (lit "\nATTRIBUTE FILTERS: " ∷ show_nat n ∷ lit " filter group(s) applied\n" ∷ []))

unfoldable pub filters_line : Value → Option Text
filters_line v = if truthy v then groups_line (len_of v) else some []

create_limits : CaptureLimits → Text
create_limits l = if no_limits l then [] else lit "\nCAPTURE LIMITS:\n" ++ limit_lines l

create_body : Fields → ℕ → Created → Text → Text → Text
unfolding expiry_line expiry_suffix arguments_line locals_line create_limits
create_body response now c block filters =
    let location_hash = show (get_or (lit "LocationHash") (str (lit "N/A")) response) in
    concat (
      lit "Successfully created "
      ∷ c.normalized_type
      ∷ lit " instrumentation\n\nINSTRUMENTATION CREATED:\n- Type: "
      ∷ c.normalized_type
      ∷ lit "\n- Service: "
      ∷ c.service
      ∷ lit "\n- Environment: "
      ∷ c.environment
      ∷ lit "\n- SignalType: SNAPSHOT\n- ARN: "
      ∷ show (get_or (lit "ARN") (str (lit "N/A")) response)
      ∷ lit "\n- CreatedAt: "
      ∷ format_timestamp (get_or_null (lit "CreatedAt") response) (strftime now)
      ∷ lit "\n"
      ∷ expiry_line (format_timestamp (get_or_null (lit "ExpiresAt") response) []) c.ttl_hours
      ∷ lit "\nLOCATION:\n"
      ∷ block
      ∷ lit "\nCAPTURE CONFIGURATION:\n"
      ∷ (if c.is_line_level then [] else arguments_line (names_of c.capture_arguments))
      ∷ locals_line (names_of c.capture_locals)
      ∷ (if c.is_line_level
          then []
          else concat (lit "- Return Values: " ∷ enabled c.capture_return ∷ lit "\n" ∷ []))
      ∷ lit "- Stack Traces: "
      ∷ enabled c.capture_stack_trace
      ∷ lit "\n"
      ∷ create_limits c.limits
      ∷ filters
      ∷ lit "\nNOTE: Allow "
      ∷ (if c.normalized_type == lit "PROBE" then lit "~10-12 min" else lit "~1-2 min")
      ∷ lit
          " before this configuration reports READY. Status checks immediately after creation may return no events yet — wait and re-check rather than recreating.\n"
      ∷ lit "\nTIP: Use this LocationHash to delete: delete_instrumentation(location_hash=\""
      ∷ location_hash
      ∷ lit "\")"
      ∷ [])

unfoldable pub render_create_success_message : Fields → ℕ → Created → Option Text
unfolding create_body filters_line
render_create_success_message response now c =
    let location_hash = get_or (lit "LocationHash") (str (lit "N/A")) response in
    elim (render_location_block c.location (shown location_hash)) [
      | none ↦ none
      | some block ↦ elim (filters_line c.attribute_filters) [
        | none ↦ none
        | some filters ↦ some (create_body response now c block filters)
      ]
    ]
  where
    shown : Value → Option Text
    shown v = if truthy v then some (show v) else none

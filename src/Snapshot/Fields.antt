-- ===== src/Snapshot/Fields.antt =====
-- di_snapshot_parsing.py (.pi/skills/aws-observability/scripts): the summary of a snapshot. Line
-- numbers whose texts stand for one number, such as 1 and 01, are sorted in the order of a set, which
-- Python leaves open: here it is that of the dict.
mod Keys
pub mod Ordering
pub mod Contents
pub mod Failures
unfoldable pub use Keys.*
use kiro_usage_pipeline.Base.{
  ℕ, zero, suc, ◌+◌, Bool, true, false, ◌&&◌, ◌||◌, not, Option, none, some, List, [], ◌∷◌, ◌++◌,
  Text, lit, length, ltb, leb, ◌==◌, nat_eq, text_eq, contains, is_empty, is_digit, all_digits,
  decimal_value, map, pos, if◌then◌else◌,
}
use kiro_usage_pipeline.Value.{
  Value, null, int, str, list, dict, Items, nil, cons, items, of_list, Fields, end, field, truthy,
  is_none,
}
use kiro_usage_pipeline.Value.Dict.{
  get, get_or, get_or_null, get_fields, get_items, or_no_fields, insert, insert_if, keys,
  of_entries,
}
use kiro_usage_pipeline.Json.Read.{loads}
use kiro_usage_pipeline.Snapshot.Preview.{preview_captured_value}

-- `{name: _preview_captured_value(value) for name, value in captured.items()}`
abbrev pub previews : Fields → Fields
previews end = end
previews (field name v d) = field name (preview_captured_value v) (previews d)

abbrev pub texts : List Text → Items
texts [] = nil
texts (s ∷ ss) = cons (str s) (texts ss)

abbrev key_list : Fields → Value
key_list d = list (texts (keys d))

abbrev pub count : Items → Value
count vs = int (pos (length (items vs)))

unfoldable pub throwable_summary : Fields → Fields
throwable_summary t = of_entries (
    (lit "type", get_or_null (lit "type") t)
    ∷ (lit "message", get_or_null (lit "message") t)
    ∷ (lit "stacktrace_frame_count", count (get_items (lit "stacktrace") t))
    ∷ [])

-- What is collected for the lines, by line number.
pub record Lines : Type 0 where
  pub locals : Fields
  pub local_previews : Fields
  pub arguments : Fields
  pub argument_previews : Fields
  pub return_values : Fields
  pub throwables : Fields

abbrev pub no_lines : Lines
no_lines = record {
  locals = end;
  local_previews = end;
  arguments = end;
  argument_previews = end;
  return_values = end;
  throwables = end;
}

abbrev pub is_full : Fields → Bool
is_full d = truthy (dict d)

-- The body of the loop, for a line's capture that is a dict.
unfoldable pub add_line : Text → Fields → Lines → Lines
add_line ln capture lines =
    let locals = get_fields (lit "locals") capture in
    let arguments = get_fields (lit "arguments") capture in
    let returned = get_or_null (lit "return_value") capture in
    let throwable = get_fields (lit "throwable") capture in
    record {
      locals = insert_if (is_full locals) ln (key_list locals) lines.locals;
      local_previews = insert_if (is_full locals) ln (dict (previews locals)) lines.local_previews;
      arguments = insert_if (is_full arguments) ln (key_list arguments) lines.arguments;
      argument_previews =
          insert_if (is_full arguments) ln (dict (previews arguments)) lines.argument_previews;
      return_values =
          insert_if (not (is_none returned)) ln (preview_captured_value returned)
            lines.return_values;
      throwables =
          insert_if (is_full throwable) ln (dict (throwable_summary throwable)) lines.throwables;
    }

unfoldable pub collect_lines : Fields → Lines → Lines
unfolding add_line
collect_lines end lines = lines
collect_lines (field ln (dict capture) d) lines = collect_lines d (add_line ln capture lines)
collect_lines (field ln _ d) lines = collect_lines d lines

abbrev pub line_numbers : Lines → Option (List Text)
line_numbers lines = sorted_numbers (
    keys lines.locals
    ++ (keys lines.arguments ++ (keys lines.return_values ++ keys lines.throwables)))

-- `d if d else None`
abbrev pub or_null : Fields → Value
or_null end = null
or_null (field k v d) = dict (field k v d)

-- The first frames, those that are dicts.
unfoldable pub frames : ℕ → Items → Items
frames zero vs = nil
frames (suc n) nil = nil
frames (suc n) (cons (dict f) vs) =
    cons
      (dict (
        of_entries (
          (lit "file_path", get_or_null (lit "file_path") f)
          ∷ (lit "function", get_or_null (lit "function") f)
          ∷ (lit "line_number", get_or_null (lit "line_number") f)
          ∷ [])))
      (frames n vs)
frames (suc n) (cons _ vs) = frames n vs

abbrev pub preview_or_null : Value → Value
preview_or_null null = null
preview_or_null v = preview_captured_value v

abbrev pub throwable_or_null : Fields → Value
throwable_or_null end = null
throwable_or_null (field k v d) = dict (throwable_summary (field k v d))

-- The names and the previews of the arguments and locals of one side.
abbrev side : Text → Text → Text → Text → Fields → List (Text × Value)
side argument_names arguments local_names locals capture =
    let given = get_fields (lit "arguments") capture in
    let local = get_fields (lit "locals") capture in
    (argument_names, key_list given)
    ∷ (arguments, dict (previews given))
    ∷ (local_names, key_list local)
    ∷ (locals, dict (previews local))
    ∷ []

abbrev location_summary : Fields → Fields
location_summary attributes = of_entries (
    (lit "class_name", get_or_null (lit "aws.di.class_name") attributes)
    ∷ (lit "method_name", get_or_null (lit "aws.di.method_name") attributes)
    ∷ (lit "file_path", get_or_null (lit "aws.di.file_path") attributes)
    ∷ (lit "code_unit", get_or_null (lit "aws.di.code_unit") attributes)
    ∷ (lit "instrumentation_level", get_or_null (lit "aws.di.instrumentation_level") attributes)
    ∷ (lit "instrumentation_type", get_or_null (lit "aws.di.instrumentation_type") attributes)
    ∷ [])

abbrev trace_summary : Fields → Fields
trace_summary snapshot_data = of_entries (
    (lit "traceId", get_or_null (lit "traceId") snapshot_data)
    ∷ (lit "spanId", get_or_null (lit "spanId") snapshot_data)
    ∷ [])

abbrev head_entries : Fields → Fields → Items → List (Text × Value)
head_entries result snapshot_data stack =
    let attributes = get_fields (lit "attributes") snapshot_data in
    (lit "@timestamp", get_or_null (lit "@timestamp") result)
    ∷ (lit "snapshot_id", get_or_null (lit "aws.di.snapshot_id") attributes)
    ∷ (lit "timeUnixNano", get_or_null (lit "timeUnixNano") snapshot_data)
    ∷ (lit "duration_ms", get_or_null (lit "aws.di.duration_ms") attributes)
    ∷ (lit "location_hash", get_or_null (lit "aws.di.location_hash") attributes)
    ∷ (lit "location", dict (location_summary attributes))
    ∷ (lit "trace", dict (trace_summary snapshot_data))
    ∷ (lit "stack_preview", list (frames 5 stack))
    ∷ (lit "stack_frame_count", count stack)
    ∷ []

abbrev return_entries : Fields → List (Text × Value)
return_entries return_capture =
    (lit "return_value", preview_or_null (get_or_null (lit "return_value") return_capture))
    ∷ (lit "throwable", throwable_or_null (get_fields (lit "throwable") return_capture))
    ∷ []

abbrev line_entries : List Text → Lines → List (Text × Value)
line_entries numbers lines =
    (lit "line_numbers", list (texts numbers))
    ∷ (lit "line_locals", dict lines.locals)
    ∷ (lit "line_local_previews", dict lines.local_previews)
    ∷ (lit "line_arguments", or_null lines.arguments)
    ∷ (lit "line_argument_previews", or_null lines.argument_previews)
    ∷ (lit "line_return_values", or_null lines.return_values)
    ∷ (lit "line_throwables", or_null lines.throwables)
    ∷ []

abbrev summary : Fields → Fields → List Text → Lines → Fields
summary result snapshot_data numbers lines =
    let body = get_fields (lit "body") snapshot_data in
    let captures = get_fields (lit "captures") body in
    let return_capture = get_fields (lit "return") captures in
    of_entries (
      head_entries result snapshot_data (get_items (lit "stack") body)
      ++ (side (lit "entry_argument_names") (lit "entry_arguments") (lit "entry_local_names")
            (lit "entry_locals") (get_fields (lit "entry") captures)
          ++ (side (lit "return_argument_names") (lit "return_arguments") (lit "return_local_names")
                (lit "return_locals") return_capture
              ++ (return_entries return_capture
                  ++ (line_entries numbers lines
                      ++ ((lit "raw_snapshot", dict snapshot_data) ∷ []))))))

abbrev pub summarised : Fields → Fields → Lines → Option (List Text) → Option Fields
summarised result snapshot_data lines none = none
summarised result snapshot_data lines (some numbers) =
    some (summary result snapshot_data numbers lines)

abbrev pub lines_of : Fields → Lines
lines_of snapshot_data =
    collect_lines
      (get_fields (lit "lines")
        (get_fields (lit "captures") (get_fields (lit "body") snapshot_data)))
      no_lines

-- What was read, or `{}`.
abbrev pub or_none_read : Option Value → Value
or_none_read none = dict end
or_none_read (some v) = v

module _ (float_repr : Text → Text) where
  -- `json.loads(v)`, where `none` is an error that the callers catch.
  abbrev pub loads_value : Value → Option Value
  loads_value (str s) = loads float_repr s
  loads_value _ = none

  abbrev pub snapshot_of : Fields → Fields
  snapshot_of result =
      or_no_fields (or_none_read (loads_value (get_or (lit "@message") (str []) result)))

  -- `none` is the `ValueError` of a line number.
  unfoldable pub parse_snapshot_fields : Fields → Option Fields
  parse_snapshot_fields result =
      let snapshot_data = snapshot_of result in
      let lines = lines_of snapshot_data in
      summarised result snapshot_data lines (line_numbers lines)

-- ===== src/Capture/Response.antt =====
-- di_capture.py: `capture_from_response`.
use kiro_usage_pipeline.Base.{
  ◌>>=◌, Bool, ◌||◌, Option, none, some, List, [], ◌∷◌, Text, lit, if◌then◌else◌,
}
use kiro_usage_pipeline.Value.{
  Value, null, bool, int, float, str, time, list, dict, Items, nil, cons, Fields, end, truthy,
  as_dict,
}
use kiro_usage_pipeline.Value.Dict.{get_or_null, has, keys}
use kiro_usage_pipeline.Capture.{CaptureLimits, CodeCapture, Capture, code, unknown}

abbrev characters : Text → Items
characters [] = nil
characters (c ∷ s) = cons (str (c ∷ [])) (characters s)

abbrev texts : List Text → Items
texts [] = nil
texts (t ∷ ts) = cons (str t) (texts ts)

-- `None` as it is, and `tuple(v)` of anything else; the outer `none` is a `TypeError`.
unfoldable pub to_names : Value → Option (Option Items)
unfolding keys
to_names null = some none
to_names (list vs) = some (some vs)
to_names (str s) = some (some (characters s))
to_names (dict d) = some (some (texts (keys d)))
to_names (bool _) = none
to_names (int _) = none
to_names (time _) = none
to_names (float _) = none

abbrev or_empty : Option Fields → Fields
or_empty none = end
or_empty (some d) = d

-- `payload.get("CaptureLimits") or {}`, and `{}` for what is no dict.
unfoldable pub raw_limits : Fields → Fields
raw_limits payload =
    let given = get_or_null (lit "CaptureLimits") payload in
    if truthy given then or_empty (as_dict given) else end

unfoldable pub limits_from : Fields → CaptureLimits
limits_from d = record {
  max_hits = get_or_null (lit "MaxHits") d;
  max_string_length = get_or_null (lit "MaxStringLength") d;
  max_collection_width = get_or_null (lit "MaxCollectionWidth") d;
  max_collection_depth = get_or_null (lit "MaxCollectionDepth") d;
  max_stack_frames = get_or_null (lit "MaxStackFrames") d;
  max_stack_trace_size = get_or_null (lit "MaxStackTraceSize") d;
  max_object_depth = get_or_null (lit "MaxObjectDepth") d;
  max_fields_per_object = get_or_null (lit "MaxFieldsPerObject") d;
}

-- A missing list and a list that is `None` are both `None`.
unfoldable pub code_capture_from_dict : Fields → Option CodeCapture
code_capture_from_dict payload = do
  arguments ← to_names (get_or_null (lit "CaptureArguments") payload)
  locals ← to_names (get_or_null (lit "CaptureLocals") payload)
  some (record {
    capture_return = truthy (get_or_null (lit "CaptureReturn") payload);
    capture_stack_trace = truthy (get_or_null (lit "CaptureStackTrace") payload);
    capture_arguments = arguments;
    capture_locals = locals;
    limits = limits_from (raw_limits payload);
  })

abbrev has_hint : Fields → Bool
has_hint d =
    has (lit "CaptureReturn") d
    || (has (lit "CaptureLimits") d
        || (has (lit "CaptureArguments") d || has (lit "CaptureStackTrace") d))

abbrev known : Fields → Option Capture
known d = do some (code (← code_capture_from_dict d))

abbrev from_dict : Fields → Option Capture
from_dict d = elim (as_dict (get_or_null (lit "CodeCapture") d)) [
  | some payload ↦ known payload
  | none ↦ if has_hint d then known d else some (unknown d)
]

-- `none` is the `TypeError` of a name list that cannot be iterated.
unfoldable pub capture_from_response : Value → Option Capture
capture_from_response v = elim (as_dict v) [ none ↦ some (unknown end) | some d ↦ from_dict d ]

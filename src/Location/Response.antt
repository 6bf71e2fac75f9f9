-- ===== src/Location/Response.antt =====
-- di_location.py: `location_from_response`.
use kiro_usage_pipeline.Base.{◌||◌, none, some, List, [], ◌∷◌, Text, lit, if◌then◌else◌}
use kiro_usage_pipeline.Value.{Value, str, Fields, end, as_dict}
use kiro_usage_pipeline.Value.Dict.{get_or, get_or_null, has, without}
use kiro_usage_pipeline.Location.{CodeLocation, Location, code, unknown}

abbrev pub known_code_fields : List Text
known_code_fields =
    lit "Language"
    ∷ lit "FilePath"
    ∷ lit "CodeUnit"
    ∷ lit "ClassName"
    ∷ lit "MethodName"
    ∷ lit "LineNumber"
    ∷ []

unfoldable pub code_location_from_dict : Fields → CodeLocation
code_location_from_dict payload = record {
  language = get_or (lit "Language") (str []) payload;
  file_path = get_or (lit "FilePath") (str []) payload;
  code_unit = get_or_null (lit "CodeUnit") payload;
  class_name = get_or_null (lit "ClassName") payload;
  method_name = get_or_null (lit "MethodName") payload;
  line_number = get_or_null (lit "LineNumber") payload;
  extra_fields = without known_code_fields payload;
}

-- A dict with no `CodeLocation` dict inside may be a code location by itself.
unfoldable pub unwrapped : Fields → Location
unwrapped d =
    if has (lit "Language") d || has (lit "FilePath") d
    then code (code_location_from_dict d)
    else unknown d

unfoldable pub from_dict : Fields → Location
unfolding unwrapped
from_dict d = elim (as_dict (get_or_null (lit "CodeLocation") d)) [
  | some payload ↦ code (code_location_from_dict payload)
  | none ↦ unwrapped d
]

unfoldable pub location_from_response : Value → Location
unfolding from_dict
location_from_response v = elim (as_dict v) [ none ↦ unknown end | some d ↦ from_dict d ]

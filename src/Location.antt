-- ===== src/Location.antt =====
-- di_location.py (.pi/skills/aws-observability/scripts): where an instrumentation applies.
-- A field of a location is a Python value, since a response's fields are taken as they come.
pub mod Inputs
pub mod Response
pub mod Block
pub mod RoundTrip
pub mod Outcomes
pub mod Lookup
use kiro_usage_pipeline.Base.{
  Bool, true, false, not, Option, none, some, List, [], ◌∷◌, ◌++◌, Text, lit, concat, if◌then◌else◌,
}
use kiro_usage_pipeline.Value.{Value, null, str, int, dict, Fields, end, field, truthy, is_none}
use kiro_usage_pipeline.Value.Dict.{insert_if}
use kiro_usage_pipeline.Value.Show.{show}

pub record CodeLocation : Type 0 where
  pub language : Value
  pub file_path : Value
  pub code_unit : Value
  pub class_name : Value
  pub method_name : Value
  pub line_number : Value
  pub extra_fields : Fields

-- `CodeLocation`, `HashLocation`, `UnknownLocation`.
pub data Location : Type 0 where
  code : CodeLocation → Location
  hash : Text → Location
  unknown : Fields → Location

abbrev pub suffix_if : Bool → List Text → Text
suffix_if b parts = if b then concat parts else []

unfoldable pub describe_code : CodeLocation → Text
describe_code c = concat (
    (if truthy c.file_path then show c.file_path else lit "N/A")
    ∷ suffix_if (truthy c.class_name) (lit " :: " ∷ show c.class_name ∷ [])
    ∷ suffix_if (truthy c.method_name) (lit "." ∷ show c.method_name ∷ [])
    ∷ suffix_if (not (is_none c.line_number)) (lit ":L" ∷ show c.line_number ∷ [])
    ∷ [])

unfoldable pub describe : Location → Text
unfolding describe_code
describe (code c) = describe_code c
describe (hash h) = lit "LocationHash " ++ h
describe (unknown _) = lit "N/A"

unfoldable pub level : Location → Option Text
level (code c) =
    if not (is_none c.line_number)
    then some (concat (lit "LINE-LEVEL (L" ∷ show c.line_number ∷ lit ")" ∷ []))
    else some (lit "FUNCTION/METHOD-LEVEL")
level (hash _) = none
level (unknown _) = none

unfoldable pub to_code_location_dict : CodeLocation → Fields
to_code_location_dict c = insert_if (not (is_none c.line_number)) (lit "LineNumber") c.line_number (
    insert_if (truthy c.method_name) (lit "MethodName") c.method_name (
      insert_if (truthy c.class_name) (lit "ClassName") c.class_name (
        insert_if (truthy c.code_unit) (lit "CodeUnit") c.code_unit
          (field (lit "Language") c.language (field (lit "FilePath") c.file_path end)))))

-- `none` is a `NotImplementedError`: a hash cannot describe a new configuration. The parsers of
-- inputs never give an unknown location, whose class lacks this method and the next.
unfoldable pub to_api_payload : Location → Option Fields
to_api_payload (code c) = some (field (lit "CodeLocation") (dict (to_code_location_dict c)) end)
to_api_payload (hash _) = none
to_api_payload (unknown _) = none

unfoldable pub to_identifier : Location → Option Fields
to_identifier (code c) = some (field (lit "CodeLocation") (dict (to_code_location_dict c)) end)
to_identifier (hash h) = some (field (lit "LocationHash") (str h) end)
to_identifier (unknown _) = none

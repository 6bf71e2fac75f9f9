-- ===== src/Location/RoundTrip.antt =====
-- A code location comes back from the payload that it is sent as.
use kiro_usage_pipeline.Base.{some, ◌≡◌, refl, ◌∙◌, ap, arith, lit, text_eq, if◌then◌else◌}
use kiro_usage_pipeline.Value.{Value, null, dict, Fields, end, field, truthy}
use kiro_usage_pipeline.Value.Dict.{
  get, get_or_null, without, get-insert_if, get-field, get-end, without-insert_if,
}
use kiro_usage_pipeline.Location.{CodeLocation, code, to_code_location_dict, to_api_payload}
use kiro_usage_pipeline.Location.Response.{
  known_code_fields, code_location_from_dict, location_from_response,
}

-- `None` for a value that is falsy.
abbrev pub or_null : Value → Value
or_null v = if truthy v then v else null

-- The location with its blank optional fields left out and no extra fields.
abbrev pub compact : CodeLocation → CodeLocation
compact c = record {
  language = c.language;
  file_path = c.file_path;
  code_unit = or_null c.code_unit;
  class_name = or_null c.class_name;
  method_name = or_null c.method_name;
  line_number = c.line_number;
  extra_fields = end;
}

sent_language :
    (c : CodeLocation) → get (lit "Language") (to_code_location_dict c) ≡ some c.language
unfolding to_code_location_dict lit text_eq
sent_language c = simp (get-insert_if, get-field)

sent_file_path :
    (c : CodeLocation) → get (lit "FilePath") (to_code_location_dict c) ≡ some c.file_path
unfolding to_code_location_dict lit text_eq
sent_file_path c = simp (get-insert_if, get-field)

sent_code_unit :
    (c : CodeLocation)
    → get_or_null (lit "CodeUnit") (to_code_location_dict c) ≡ or_null c.code_unit
unfolding to_code_location_dict lit text_eq
sent_code_unit c = simp (get-insert_if, get-field, get-end) (ground arith)

sent_class_name :
    (c : CodeLocation)
    → get_or_null (lit "ClassName") (to_code_location_dict c) ≡ or_null c.class_name
unfolding to_code_location_dict lit text_eq
sent_class_name c = simp (get-insert_if, get-field, get-end) (ground arith)

sent_method_name :
    (c : CodeLocation)
    → get_or_null (lit "MethodName") (to_code_location_dict c) ≡ or_null c.method_name
unfolding to_code_location_dict lit text_eq
sent_method_name c = simp (get-insert_if, get-field, get-end) (ground arith)

sent_line_number :
    (c : CodeLocation) → get_or_null (lit "LineNumber") (to_code_location_dict c) ≡ c.line_number
unfolding to_code_location_dict lit text_eq
sent_line_number c = simp (get-insert_if, get-field, get-end) (ground arith)

sent_extra : (c : CodeLocation) → without known_code_fields (to_code_location_dict c) ≡ end
unfolding to_code_location_dict without lit text_eq
sent_extra c =
    without-insert_if known_code_fields _ _ _ _ refl
    ∙ without-insert_if known_code_fields _ _ _ _ refl
    ∙ without-insert_if known_code_fields _ _ _ _ refl
    ∙ without-insert_if known_code_fields _ _ _ _ refl

from_payload : (c : CodeLocation) → code_location_from_dict (to_code_location_dict c) ≡ compact c
unfolding code_location_from_dict
from_payload c = ground (
  arith,
  sent_language c,
  sent_file_path c,
  sent_code_unit c,
  sent_class_name c,
  sent_method_name c,
  sent_line_number c,
  sent_extra c,
)

from_wrapped :
    (d : Fields)
    → location_from_response (dict (field (lit "CodeLocation") (dict d) end))
      ≡ code (code_location_from_dict d)
unfolding location_from_response get lit text_eq
from_wrapped d = refl

-- Parsing the create payload of a code location gives the location back, with its blank optional
-- fields absent and without the extra fields, which are not sent.
pub location_from_response-to_api_payload :
    (c : CodeLocation) {payload : Fields}
    → to_api_payload (code c) ≡ some payload
    → location_from_response (dict payload) ≡ code (compact c)
unfolding to_api_payload
location_from_response-to_api_payload c {payload} h =
    let e : payload ≡ field (lit "CodeLocation") (dict (to_code_location_dict c)) end = cc in
    rw e (from_wrapped (to_code_location_dict c) ∙ ap code (from_payload c))

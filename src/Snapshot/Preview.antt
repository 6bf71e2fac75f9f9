-- ===== src/Snapshot/Preview.antt =====
-- di_snapshot_parsing.py (.pi/skills/aws-observability/scripts): the preview of a captured value. The
-- first element is previewed while the dict is walked, which is when the recursion is structural.
pub mod Kept
use kiro_usage_pipeline.Base.{
  true, false, ◌||◌, not, Option, none, some, ◌∷◌, [], ◌++◌, Text, lit, length, ◌==◌, text_eq, pos,
  if◌then◌else◌, Bool,
}
use kiro_usage_pipeline.Value.{
  Value, null, bool, int, str, list, dict, Items, nil, cons, items, Fields, end, field, truthy,
  is_none, is_true, is_empty_str,
}
use kiro_usage_pipeline.Value.Dict.{get, get_or, get_or_null, insert, insert_if}
use kiro_usage_pipeline.Value.Show.{show}

-- `<...>` around a word.
abbrev bracketed : Value → Value
bracketed v = str (lit "<" ++ (show v ++ lit ">"))

abbrev nested_preview : Option Value → Option Value → Value → Value
nested_preview (some reason) _ _ = bracketed reason
nested_preview none (some v) _ = v
nested_preview none none type = bracketed type

-- One field of an object: a primitive is shown, anything nested is cut down to its type.
abbrev field_preview : Value → Value
field_preview (dict f) =
    if is_true (get_or_null (lit "is_null") f)
    then null
    else nested_preview (get (lit "not_captured_reason") f) (get (lit "value") f)
        (get_or (lit "type") (str (lit "object")) f)
field_preview v = v

abbrev field_previews : Fields → Fields
field_previews end = end
field_previews (field k v d) = field k (field_preview v) (field_previews d)

-- The `type`, unless it is None or blank.
abbrev pub is_typed : Fields → Bool
is_typed d = let type = get_or_null (lit "type") d in not (is_none type || is_empty_str type)

unfoldable pub type_preview : Fields → Fields
type_preview d = insert_if (is_typed d) (lit "type") (get_or_null (lit "type") d) end

-- `if k in d: preview[k] = d.get(k)`
abbrev pub insert_some : Text → Option Value → Fields → Fields
insert_some k none preview = preview
insert_some k (some v) preview = insert k v preview

abbrev pub nonempty_or : Fields → Fields → Fields
nonempty_or end captured = captured
nonempty_or (field k v d) captured = field k v d

abbrev pub entries_preview : Option Value → Fields → Fields → Fields
entries_preview (some (list es)) preview captured =
    insert (lit "entry_count") (int (pos (length (items es)))) preview
entries_preview _ preview captured = nonempty_or preview captured

abbrev pub elements_preview : Option Value → Option Value → Fields → Fields → Fields
elements_preview (some (list vs)) first preview captured =
    insert_some (lit "first_element") first
      (insert (lit "element_count") (int (pos (length (items vs)))) preview)
elements_preview _ first preview captured =
    entries_preview (get (lit "entries") captured) preview captured

abbrev pub object_preview : Option Value → Option Value → Fields → Fields → Fields
object_preview (some (dict fs)) first preview captured =
    insert_some (lit "size") (get (lit "size") captured)
      (insert (lit "fields_preview") (dict (field_previews fs)) preview)
object_preview _ first preview captured =
    elements_preview (get (lit "elements") captured) first preview captured

abbrev pub value_preview : Option Value → Option Value → Fields → Fields → Fields
value_preview (some v) first preview captured =
    insert_some (lit "size") (get (lit "size") captured) (
      insert_if (is_true (get_or_null (lit "truncated") captured)) (lit "truncated") (bool true)
        (insert (lit "value") v preview))
value_preview none first preview captured =
    object_preview (get (lit "fields") captured) first preview captured

abbrev pub reason_preview : Option Value → Option Value → Fields → Fields → Fields
reason_preview (some reason) first preview captured =
    insert (lit "not_captured_reason") reason preview
reason_preview none first preview captured =
    value_preview (get (lit "value") captured) first preview captured

-- The preview of a dict, given that of the first of its elements.
unfoldable pub dict_preview : Fields → Option Value → Fields
dict_preview d first =
    if is_true (get_or_null (lit "is_null") d)
    then insert (lit "is_null") (bool true) (type_preview d)
    else reason_preview (get (lit "not_captured_reason") d) first (type_preview d) d

unfoldable mutual
  pub preview_captured_value : Value → Value
  preview_captured_value (dict d) = dict (dict_preview d (first_preview d))
  preview_captured_value v = v

  pub first_preview : Fields → Option Value
  first_preview end = none
  first_preview (field k v d) =
      let rest = first_preview d in if lit "elements" == k then first_of v else rest

  pub first_of : Value → Option Value
  first_of (list (cons v _)) = some (preview_captured_value v)
  first_of _ = none

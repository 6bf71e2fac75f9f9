-- ===== src/Location/Block.antt =====
-- di_location.py: `format_details` and `render_location_block`.
use kiro_usage_pipeline.Base.{
  Bool, true, false, ◌&&◌, ◌||◌, Option, none, some, List, [], ◌∷◌, ◌++◌, ◌≢◌, map, Text, lit,
  concat, join, ltb, ◌==◌, nat_eq, if◌then◌else◌,
}
use kiro_usage_pipeline.Value.{Value, Fields, is_none}
use kiro_usage_pipeline.Value.Dict.{entries}
use kiro_usage_pipeline.Value.Show.{show}
use kiro_usage_pipeline.Validation.{or_blank, is_missing}
use kiro_usage_pipeline.Location.{Location, code, hash, unknown, level}

-- `s <= t` as Python orders texts.
text_le : Text → Text → Bool
text_le [] t = true
text_le (c ∷ s) [] = false
text_le (c ∷ s) (d ∷ t) = ltb c d || (c == d && text_le s t)

insert_sorted : Text × Value → List (Text × Value) → List (Text × Value)
unfolding text_le nat_eq
insert_sorted e [] = e ∷ []
insert_sorted e (f ∷ es) = if text_le e.0 f.0 then e ∷ f ∷ es else f ∷ insert_sorted e es

-- The entries in the order of `sorted(d.keys())`.
unfoldable pub sorted_entries : List (Text × Value) → List (Text × Value)
unfolding insert_sorted
sorted_entries [] = []
sorted_entries (e ∷ es) = insert_sorted e (sorted_entries es)

abbrev detail_line : Text × Value → Text
detail_line e = concat (lit "- " ∷ e.0 ∷ lit ": " ∷ show e.1 ∷ [])

abbrev detail_lines : Fields → List Text
detail_lines d = map detail_line (sorted_entries (entries d))

abbrev hash_lines : Option Text → List Text
hash_lines h = if is_missing h then [] else concat (lit "- LocationHash: " ∷ or_blank h ∷ []) ∷ []

abbrev field_lines : List (Text × Value) → List Text
field_lines [] = []
field_lines (e ∷ es) =
    let rest = field_lines es in if is_none e.1 then rest else detail_line e ∷ rest

abbrev raw_lines : List Text → List Text
raw_lines [] = lit "- Location payload could not be parsed." ∷ []
raw_lines (l ∷ ls) = l ∷ ls

-- `none` is the `NotImplementedError` of a hash location.
unfoldable pub format_details : Location → Option Text → Option Text
unfolding sorted_entries
format_details (code c) location_hash = some (
    join (lit "\n") (
      lit "- LocationKind: CODE"
      ∷ (hash_lines location_hash
          ++ (field_lines (
                (lit "Language", c.language)
                ∷ (lit "File Path", c.file_path)
                ∷ (lit "Code Unit", c.code_unit)
                ∷ (lit "Class Name", c.class_name)
                ∷ (lit "Method Name", c.method_name)
                ∷ (lit "Line Number", c.line_number)
                ∷ [])
              ++ detail_lines c.extra_fields)))
    ++ lit "\n")
format_details (hash _) location_hash = none
format_details (unknown raw) location_hash = some (
    join (lit "\n")
      (lit "- LocationKind: UNKNOWN" ∷ (hash_lines location_hash ++ raw_lines (detail_lines raw)))
    ++ lit "\n")

abbrev level_block : Option Text → Text
level_block l =
    if is_missing l
    then []
    else concat (lit "\nINSTRUMENTATION:\n" ∷ lit "- Level: " ∷ or_blank l ∷ lit "\n" ∷ [])

abbrev with_level : Option Text → Option Text → Option Text
with_level none l = none
with_level (some details) l = some (details ++ level_block l)

-- A hash is rendered by itself.
unfoldable pub render_location_block : Location → Option Text → Option Text
unfolding format_details
render_location_block (hash h) location_hash =
    some (concat (lit "- LocationKind: HASH\n- LocationHash: " ∷ h ∷ lit "\n" ∷ []))
render_location_block (code c) location_hash =
    with_level (format_details (code c) location_hash) (level (code c))
render_location_block (unknown raw) location_hash =
    with_level (format_details (unknown raw) location_hash) (level (unknown raw))

pub render_location_block-is_some :
    (location : Location) (h : Option Text) → render_location_block location h ≢ none
unfolding render_location_block format_details
render_location_block-is_some (hash t) h = cc
render_location_block-is_some (code c) h = cc
render_location_block-is_some (unknown raw) h = cc

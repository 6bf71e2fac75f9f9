-- ===== src/Crud/Rendering/Deletions.antt =====
-- di_crud_rendering.py: the text of a batch deletion, for a response of any shape.
use kiro_usage_pipeline.Base.{
  ℕ, ◌+◌, Option, none, some, List, [], ◌∷◌, ◌++◌, length, Text, lit, concat, show_nat, pos,
  if◌then◌else◌,
}
use kiro_usage_pipeline.Value.{
  Value, str, int, list, dict, nil, Fields, end, field, items, truthy, as_dict,
}
use kiro_usage_pipeline.Value.Dict.{get_or, get_or_null}
use kiro_usage_pipeline.Value.Show.{show}

abbrev item_line : ℕ → List Text → Text
item_line n parts = concat (lit "- Item " ∷ show_nat n ∷ lit ": " ∷ concat parts ∷ lit "\n" ∷ [])

-- `v or "N/A"`
abbrev or_na : Value → Text
or_na v = if truthy v then show v else lit "N/A"

deletion_lines : ℕ → List Fields → Text
deletion_lines n [] = []
deletion_lines n (item ∷ more) =
    let resource_arn = get_or_null (lit "ResourceArn") item in
    (if truthy resource_arn
      then item_line n (lit "ResourceArn=" ∷ show resource_arn ∷ [])
      else item_line n (
          lit "SignalType="
          ∷ or_na (get_or_null (lit "SignalType") item)
          ∷ lit " | LocationHash="
          ∷ or_na (get_or_null (lit "LocationHash") item)
          ∷ []))
    ++ deletion_lines (n + 1) more

abbrev part : Text → Fields → Text
part k item = show (get_or k (str (lit "N/A")) item)

error_lines : ℕ → List Fields → Text
error_lines n [] = []
error_lines n (item ∷ more) =
    item_line n (
      lit "ResourceArn="
      ∷ part (lit "ResourceArn") item
      ∷ lit " | Code="
      ∷ part (lit "Code") item
      ∷ lit " | Message="
      ∷ part (lit "Message") item
      ∷ [])
    ++ error_lines (n + 1) more

section : Text → Text → Text
section label [] = []
section label (c ∷ s) = concat (label ∷ (c ∷ s) ∷ [])

abbrev scope_line : Text → Text → Text
scope_line label [] = []
scope_line label (c ∷ s) = concat (label ∷ lit ": " ∷ (c ∷ s) ∷ lit "\n" ∷ [])

abbrev pub cons_dict : Option Fields → Option (List Fields) → Option (List Fields)
cons_dict none rest = none
cons_dict (some d) none = none
cons_dict (some d) (some ds) = some (d ∷ ds)

-- The items of a list, each of which has a `get`.
unfoldable pub all_dicts : List Value → Option (List Fields)
all_dicts [] = some []
all_dicts (v ∷ vs) = cons_dict (as_dict v) (all_dicts vs)

-- What the loop over a value with a length reads: the characters of a text and the keys of a dict
-- have no `get`. `none` is an exception.
unfoldable pub item_dicts : Value → Option (List Fields)
unfolding all_dicts
item_dicts (list vs) = all_dicts (items vs)
item_dicts (str []) = some []
item_dicts (str (_ ∷ _)) = none
item_dicts (dict end) = some []
item_dicts (dict (field _ _ _)) = none
item_dicts _ = none

batch_text : Text → Fields → Text → Text → Text → List Fields → List Fields → Text
unfolding section deletion_lines error_lines
batch_text mode response instrumentation_type service environment successful errors = concat (
    lit "BATCH DELETE COMPLETED\n\nMode: "
    ∷ mode
    ∷ lit "\nInstrumentationType: "
    ∷ instrumentation_type
    ∷ lit "\nDeletedCount: "
    ∷ show (get_or (lit "DeletedCount") (int (pos 0)) response)
    ∷ lit "\nSuccessfulDeletions: "
    ∷ show_nat (length successful)
    ∷ lit "\nErrors: "
    ∷ show_nat (length errors)
    ∷ lit "\n"
    ∷ scope_line (lit "Service") service
    ∷ scope_line (lit "Environment") environment
    ∷ section (lit "\nSUCCESSFUL DELETIONS:\n") (deletion_lines 1 successful)
    ∷ section (lit "\nDELETE ERRORS:\n") (error_lines 1 errors)
    ∷ [])

-- A service or environment that is not passed is blank.
unfoldable pub format_batch_delete_response : Text → Fields → Text → Text → Text → Option Text
unfolding batch_text
format_batch_delete_response mode response instrumentation_type service environment =
    elim (item_dicts (get_or (lit "SuccessfulDeletions") (list nil) response)) [
      | none ↦ none
      | some successful ↦ elim (item_dicts (get_or (lit "Errors") (list nil) response)) [
        | none ↦ none
        | some errors ↦
            some
              (batch_text mode response instrumentation_type service environment successful errors)
      ]
    ]

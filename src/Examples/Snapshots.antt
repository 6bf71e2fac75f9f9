-- ===== src/Examples/Snapshots.antt =====
-- The theorems on the snapshot queries at concrete inputs.
use kiro_usage_pipeline.Base.{
  ◌+◌, ◌-◌, ◌*◌, replace_char, none, some, List, [], ◌∷◌, ◌≡◌, inl, inr, refl, arith, Text, lit,
  nat_eq, text_eq, pos, strip,
}
use kiro_usage_pipeline.Value.{Value, int, str, list, dict, nil, cons, end, field}
use kiro_usage_pipeline.Value.Dict.{get, insert, insert_if}
use kiro_usage_pipeline.Snapshot.Preview.{preview_captured_value, dict_preview, type_preview}
use kiro_usage_pipeline.Snapshot.Preview.Kept.{type_of, type_of-preview_captured_value}
use kiro_usage_pipeline.Value.Time.{second}
use kiro_usage_pipeline.Validation.{is_valid_location_hash}
use kiro_usage_pipeline.Status.Timestamp.{parse_iso_timestamp}
use kiro_usage_pipeline.Snapshot.Search.{
  SnapshotQuery, Search, listed, has_open_quote, count_quotes, count_escaped, request,
}
use kiro_usage_pipeline.Snapshot.Search.Window.{IsSound, text_for}
use kiro_usage_pipeline.Snapshot.Search.Requests.{request-IsOver, request-IsFor}
use kiro_usage_pipeline.Snapshot.Limits.{whole, to_int}
use kiro_usage_pipeline.Snapshot.Search.Nearby.{IsNear, query}
use kiro_usage_pipeline.Examples.{some_hash}
use kiro_usage_pipeline.Examples.Statuses.{two_texts, six}

abbrev pub spaced : List Text
spaced = lit " user = \"ann\" " ∷ lit "  " ∷ []

abbrev pub near_six : Search
near_six = record {
  service = lit "orders";
  environment = lit "prod";
  location_hash = some some_hash;
  status_timestamp = lit "2025-02-03T18:00:00Z";
  limit = whole (pos 5);
  custom_filters = listed spaced;
  start_time = none;
  end_time = none;
}

abbrev pub near_query : SnapshotQuery
near_query =
    request (lit "orders") (six - 5 * second) (six + 60 * second)
      (text_for two_texts near_six (pos 5))

pub near_six-IsSound : IsSound two_texts near_six near_query
unfolding is_valid_location_hash has_open_quote count_quotes count_escaped lit nat_eq text_eq strip
    parse_iso_timestamp replace_char to_int
near_six-IsSound = (
  refl,
  (inr refl, (inl refl, tt)),
  (
    six,
    six - 5 * second,
    six + 60 * second,
    pos 5,
    refl,
    (refl, refl, omega arith),
    refl,
    request-IsOver (lit "orders") (six - 5 * second) (six + 60 * second)
        (text_for two_texts near_six (pos 5)),
    request-IsFor (lit "orders") (six - 5 * second) (six + 60 * second) _,
  ),
)

-- A list of lists, with an empty one in front.
abbrev nested_lists : Value
nested_lists = dict (
    field (lit "type") (str (lit "list")) (
      field (lit "elements")
        (list (cons (dict (field (lit "elements") (list nil) end)) (cons (int (pos 1)) nil))) end))

nested_lists-preview :
    preview_captured_value nested_lists
    ≡ dict (
        field (lit "type") (str (lit "list")) (
          field (lit "element_count") (int (pos 2)) (
            field
              (lit "first_element")
              (dict (field (lit "element_count") (int (pos 0)) end))
              end)))
unfolding preview_captured_value dict_preview type_preview get insert insert_if lit text_eq nat_eq
nested_lists-preview = refl

type_of-preview_captured_value_example :
    type_of (preview_captured_value nested_lists) ≡ type_of nested_lists
unfolding get lit text_eq nat_eq
type_of-preview_captured_value_example = type_of-preview_captured_value nested_lists refl

abbrev sample_text : Text
sample_text =
    query two_texts (lit "orders") (lit "prod") (some some_hash) (lit "2025-02-03T18:00:00Z")

abbrev pub sampled : SnapshotQuery
sampled = request (lit "orders") (six - 30 * second) (six + 90 * second) sample_text

pub sampled-IsNear :
    IsNear two_texts
      (lit "orders")
      (lit "prod")
      (some some_hash)
      (lit "2025-02-03T18:00:00Z")
      sampled
unfolding is_valid_location_hash lit nat_eq text_eq parse_iso_timestamp replace_char
sampled-IsNear = (
  refl,
  (
    six,
    six - 30 * second,
    six + 90 * second,
    refl,
    (refl, refl, omega arith),
    request-IsOver (lit "orders") (six - 30 * second) (six + 90 * second) sample_text,
    request-IsFor (lit "orders") (six - 30 * second) (six + 90 * second) _,
  ),
)

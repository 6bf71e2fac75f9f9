-- ===== src/Examples/Searches.antt =====
-- A search from the arguments of the script to its exit code.
use kiro_usage_pipeline.Base.{
  true, false, all_digits, decimal_value, none, some, ◌≡◌, refl, Text, lit, nat_eq, text_eq, pos,
  concat, join, show_nat, show_int, replace_char, strip,
}
use kiro_usage_pipeline.Value.{int, str, list, dict, nil, cons, Fields, end, field}
use kiro_usage_pipeline.Value.Dict.{get, insert}
use kiro_usage_pipeline.Value.Time.{isoformat_z}
use kiro_usage_pipeline.Region.{resolve_snapshot_log_group}
use kiro_usage_pipeline.Json.Read.{
  loads, run, step, on_mark, is_atom_char, escaped_char, read_atom, read_number, is_decimal,
}
use kiro_usage_pipeline.Json.Readable.{is_readable, is_readable-IsReadable}
use kiro_usage_pipeline.Snapshot.Filters.{build_base_filters}
use kiro_usage_pipeline.Snapshot.Escape.{escape_logs_insights_string}
use kiro_usage_pipeline.Snapshot.Query.{execute_cloudwatch_query}
use kiro_usage_pipeline.Snapshot.Search.{search_query}
use kiro_usage_pipeline.Snapshot.Search.Window.{search_request_iff}
use kiro_usage_pipeline.Snapshot.Rendering.{search_output}
use kiro_usage_pipeline.Entry.{Args, ok, raw_payload, read_payload, other_error}
use kiro_usage_pipeline.Entry.Contract.{binds, all_known, all_given}
use kiro_usage_pipeline.Entry.Snapshots.{main}
use kiro_usage_pipeline.Entry.Snapshots.Arguments.{search_of}
use kiro_usage_pipeline.Entry.Snapshots.Wired.{Surroundings, wired, Prints, search_main-Prints}
use kiro_usage_pipeline.Examples.{some_hash}
use kiro_usage_pipeline.Examples.Statuses.{two_texts}
use kiro_usage_pipeline.Examples.Snapshots.{near_six, near_query, near_six-IsSound}
use kiro_usage_pipeline.Examples.Outcomes.{no_group, denied, denied_search}
use kiro_usage_pipeline.Examples.Runs.{blank_environ, some_world, open_to_all}

abbrev search_text : Text
search_text =
    lit
      "{\"service\": \"orders\", \"environment\": \"prod\", \"location_hash\": \"0123456789abcdef\", \"status_timestamp\": \"2025-02-03T18:00:00Z\", \"limit\": 5, \"custom_filters\": [\" user = \\\"ann\\\" \", \"  \"]}"

abbrev search_payload : Fields
search_payload = field (lit "service") (str (lit "orders")) (
    field (lit "environment") (str (lit "prod")) (
      field (lit "location_hash") (str some_hash) (
        field (lit "status_timestamp") (str (lit "2025-02-03T18:00:00Z")) (
          field (lit "limit") (int (pos 5)) (
            field (lit "custom_filters")
              (list (cons (str (lit " user = \"ann\" ")) (cons (str (lit "  ")) nil))) end)))))

abbrev printed_search : Args
printed_search = record {
  op = some (lit "search");
  json_payload = some search_text;
  json_file = none;
  out = none;
  region = none;
  profile = none;
  print_contract = false;
}

-- A service that knows no log group.
abbrev denying : Surroundings
denying = record {
  logs = λ _. no_group;
  beyond = λ tool payload environ. other_error;
  binding_error = λ tool payload. lit "bad";
}

search_payload-read :
    read_payload (λ t. t) some_world printed_search.json_payload none ≡ ok search_payload
unfolding read_payload raw_payload loads run step on_mark is_atom_char escaped_char read_atom
    read_number is_decimal insert lit text_eq nat_eq all_digits decimal_value
search_payload-read = refl

search_main-Prints_example :
    Prints
      (λ t. t)
      two_texts
      denying
      denied_search
      true
      open_to_all
      (main
        (λ t. t)
        (wired (λ t. t) two_texts denying)
        some_world
        printed_search
        blank_environ
        open_to_all)
unfolding execute_cloudwatch_query search_output lit text_eq nat_eq concat is_readable get insert
    resolve_snapshot_log_group isoformat_z join show_nat build_base_filters
    escape_logs_insights_string replace_char search_query strip show_int binds all_known all_given
    search_of
search_main-Prints_example =
    search_main-Prints (λ t. t) two_texts denying some_world printed_search blank_environ
      open_to_all search_payload near_six 30 near_query denied denied_search refl refl refl
      search_payload-read refl refl
      ((search_request_iff two_texts near_six near_query).1 near_six-IsSound) refl refl
      (is_readable-IsReadable (λ t. t) (dict denied_search) refl)

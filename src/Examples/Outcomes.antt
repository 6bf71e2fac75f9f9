-- ===== src/Examples/Outcomes.antt =====
-- The theorems on the whole snapshot operations at concrete inputs.
use kiro_usage_pipeline.Base.{
  ◌*◌, true, false, Option, List, none, some, [], Text, ◌∷◌, ◌≡◌, inl, is_space, refl, lit, nat_eq,
  text_eq, replace_char, all_digits, decimal_value, concat, join, show_nat, show_int, strip,
}
use kiro_usage_pipeline.Value.{str, list, cons, dict, nil, Fields, end, field}
use kiro_usage_pipeline.Value.Show.{show}
use kiro_usage_pipeline.Value.Dict.{get, insert, insert_if, keys}
use kiro_usage_pipeline.Json.Read.{
  loads, run, step, on_mark, is_atom_char, hex_value, add_unit, read_atom, read_number, is_decimal,
}
use kiro_usage_pipeline.Json.Readable.{is_readable, is_readable-IsReadable}
use kiro_usage_pipeline.Region.{resolve_snapshot_log_group}
use kiro_usage_pipeline.Value.Time.{isoformat_z}
use kiro_usage_pipeline.Snapshot.Filters.{build_base_filters}
use kiro_usage_pipeline.Snapshot.Escape.{escape_logs_insights_string}
use kiro_usage_pipeline.Validation.{is_valid_location_hash}
use kiro_usage_pipeline.Snapshot.Fields.{
  parse_snapshot_fields, snapshot_of, texts, collect_lines, line_key, sorted_numbers, keyed,
  sort_keyed, distinct,
}
use kiro_usage_pipeline.Decimals.{
  are_digits, are_decimal_digits, decimal_digit, is_other_digit, int_of_text,
}
use kiro_usage_pipeline.Snapshot.Fields.Contents.{ListsLines, parse_snapshot_fields-Lists}
use kiro_usage_pipeline.Snapshot.Fields.Failures.{parse_snapshot_fields-none_iff}
use kiro_usage_pipeline.Snapshot.Query.{
  Logs, QueryResult, response, client_error, after_start, after_poll, poll_loop, result_lines,
  execute_cloudwatch_query,
}
use kiro_usage_pipeline.Snapshot.Search.{
  Search, search_request, search_query, sample_query, limit_message,
}
use kiro_usage_pipeline.Snapshot.Limits.{written, to_int}
use kiro_usage_pipeline.Snapshot.Rendering.{search_error, search_output}
use kiro_usage_pipeline.Snapshot.Rendering.Sample.{no_snapshots, sample_output}
use kiro_usage_pipeline.Snapshot.Tools.{
  SampleCall, subject, is_failure, search_snapshots_for_status_event,
  get_sample_snapshot_for_breakpoint,
}
use kiro_usage_pipeline.Snapshot.Tools.Refusals.{refusals_fail}
use kiro_usage_pipeline.Snapshot.Tools.Exit.{
  Exits, search_snapshots_for_status_event-Exits, get_sample_snapshot_for_breakpoint-Exits,
}
use kiro_usage_pipeline.Examples.{some_hash}
use kiro_usage_pipeline.Examples.Statuses.{two_texts}
use kiro_usage_pipeline.Examples.Snapshots.{
  spaced, near_six, near_query, near_six-IsSound, sampled, sampled-IsNear,
}
use kiro_usage_pipeline.Snapshot.Search.Window.{search_request_iff}
use kiro_usage_pipeline.Snapshot.Search.Nearby.{sample_request_iff}

-- A result whose message has one captured line, the number of which is a superscript.
abbrev squared : Fields
squared =
    field (lit "@message")
      (str (lit "{\"body\": {\"captures\": {\"lines\": {\"\\u00b2\": {\"return_value\": 1}}}}}"))
      end

parse_snapshot_fields-none_iff_example : parse_snapshot_fields (λ t. t) squared ≡ none
unfolding loads run step on_mark is_atom_char get insert lit text_eq nat_eq are_digits
    are_decimal_digits decimal_digit is_other_digit all_digits hex_value add_unit read_atom
    read_number is_decimal
parse_snapshot_fields-none_iff_example =
    (parse_snapshot_fields-none_iff (λ t. t) squared).1 (178 ∷ [], refl, refl, refl)

-- A result whose message has a captured line 42 and an empty line 7.
abbrev line_42 : Fields
line_42 =
    field (lit "@message")
      (str
        (lit "{\"body\": {\"captures\": {\"lines\": {\"42\": {\"return_value\": 1}, \"7\": {}}}}}"))
      end

abbrev or_end : Option Fields → Fields
or_end none = end
or_end (some d) = d

-- Its summary has one number.
line_42-numbers :
    get (lit "line_numbers") (or_end (parse_snapshot_fields (λ t. t) line_42))
    ≡ some (list (cons (str (lit "42")) nil))
unfolding loads run step on_mark is_atom_char get insert insert_if lit text_eq nat_eq are_digits
    are_decimal_digits decimal_digit all_digits decimal_value read_atom read_number is_decimal
    parse_snapshot_fields line_key sorted_numbers keyed sort_keyed distinct keys collect_lines
line_42-numbers = refl

parse_snapshot_fields-Lists_example :
    (ns : List Text) × (get (lit "line_numbers") (or_end (parse_snapshot_fields (λ t. t) line_42))
      ≡ some (list (texts ns)))
    × ListsLines (snapshot_of (λ t. t) line_42) ns
unfolding loads run step on_mark is_atom_char get insert insert_if lit text_eq nat_eq are_digits
    are_decimal_digits decimal_digit all_digits decimal_value read_atom read_number is_decimal
    parse_snapshot_fields line_key sorted_numbers keyed sort_keyed distinct keys collect_lines
parse_snapshot_fields-Lists_example = parse_snapshot_fields-Lists (λ t. t) line_42

abbrev no_hash : SampleCall
no_hash = record {
  service = lit "orders";
  environment = lit "prod";
  location_hash = some (lit "XYZ");
  status_timestamp = lit "2025-02-03T18:00:00Z";
  include_raw = false;
}

-- A search with a limit that is no number.
abbrev unlimited : Search
unlimited = record near_six { limit = written (lit "many") }

refusals_fail_example : is_failure (λ t. t) limit_message ≡ true
unfolding search_request is_valid_location_hash to_int int_of_text decimal_digit is_space lit nat_eq
refusals_fail_example = refusals_fail (λ t. t) two_texts unlimited no_hash limit_message (inl refl)

-- Logs that know no log group.
abbrev pub no_group : Logs
no_group = record {
  start = λ _. client_error (lit "denied");
  poll = λ _ _. client_error (lit "denied");
  clock = λ n. n * 1000000;
}

abbrev pub denied : QueryResult
denied = record {
  status = lit "Error";
  results = [];
  error = some (lit "Failed to start query: denied");
  query_id = none;
  messages = none;
}

abbrev pub denied_search : Fields
denied_search =
    search_error (subject (lit "orders") (lit "prod") (some some_hash) near_query) spaced denied

search_snapshots_for_status_event-Exits_example :
    Exits
      (λ t. t)
      denied_search
      (search_snapshots_for_status_event (λ t. t) no_group 30 two_texts near_six)
      true
unfolding execute_cloudwatch_query search_output lit text_eq nat_eq concat is_readable get insert
    resolve_snapshot_log_group isoformat_z join show_nat build_base_filters
    escape_logs_insights_string replace_char search_query strip show_int
search_snapshots_for_status_event-Exits_example =
    search_snapshots_for_status_event-Exits (λ t. t) no_group 30 two_texts near_six near_query
      denied denied_search ((search_request_iff two_texts near_six near_query).1 near_six-IsSound)
      refl refl (is_readable-IsReadable (λ t. t) (dict denied_search) refl)

-- Logs that complete every query, with no results.
abbrev empty_logs : Logs
empty_logs = record {
  start = λ _. response (field (lit "queryId") (str (lit "q")) end);
  poll = λ _ _. response (record { status = some (lit "Complete"); results = []; messages = nil });
  clock = λ n. n * 1000000;
}

abbrev complete : QueryResult
complete = record {
  status = lit "Complete";
  results = [];
  error = none;
  query_id = some (str (lit "q"));
  messages = some nil;
}

abbrev wanted : SampleCall
wanted = record {
  service = lit "orders";
  environment = lit "prod";
  location_hash = some some_hash;
  status_timestamp = lit "2025-02-03T18:00:00Z";
  include_raw = false;
}

abbrev unfound : Fields
unfound = no_snapshots (subject (lit "orders") (lit "prod") (some some_hash) sampled) complete

get_sample_snapshot_for_breakpoint-Exits_example :
    Exits
      (λ t. t)
      unfound
      (get_sample_snapshot_for_breakpoint (λ t. t) empty_logs 30 two_texts wanted)
      false
unfolding execute_cloudwatch_query after_start after_poll poll_loop result_lines show sample_output
    lit text_eq nat_eq get concat is_readable insert resolve_snapshot_log_group isoformat_z join
    show_nat build_base_filters escape_logs_insights_string replace_char sample_query
get_sample_snapshot_for_breakpoint-Exits_example =
    get_sample_snapshot_for_breakpoint-Exits (λ t. t) empty_logs 30 two_texts wanted sampled
      complete unfound
      ((sample_request_iff two_texts (lit "orders") (lit "prod") (some some_hash)
          (lit "2025-02-03T18:00:00Z") sampled).1
        sampled-IsNear)
      refl refl (is_readable-IsReadable (λ t. t) (dict unfound) refl)

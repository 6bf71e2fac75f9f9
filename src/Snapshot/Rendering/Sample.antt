-- ===== src/Snapshot/Rendering/Sample.antt =====
-- The text of a sample. `{n:,}` groups the digits of a number by three.
pub mod Documentation
use kiro_usage_pipeline.Base.{
  ℕ, zero, suc, ◌+◌, ◌*◌, ◌/◌, ◌%◌, Bool, true, false, ◌&&◌, not, Option, none, some, List, [], ◌∷◌,
  ◌++◌, Text, lit, concat, show_nat, ltb, leb, ◌==◌, nat_eq, text_eq, if◌then◌else◌, ◌≡◌, refl,
}
use kiro_usage_pipeline.Value.{Value, null, str, list, dict, Items, Fields, end}
use kiro_usage_pipeline.Value.Dict.{get_or, get_or_null, of_entries, without}
use kiro_usage_pipeline.Json.Read.{loads}
use kiro_usage_pipeline.Snapshot.Query.{QueryResult}
use kiro_usage_pipeline.Snapshot.Fields.{or_none_read, parse_snapshot_fields}
use kiro_usage_pipeline.Snapshot.Rendering.{
  Subject, or_else_text, query_id, messages, log_group, unfinished, dump,
}
use Documentation.{field_documentation}

-- The size of a code point in UTF-8; `none` is a surrogate, which has no encoding.
abbrev char_size : ℕ → Option ℕ
char_size c =
    if ltb c 128
    then some 1
    else if ltb c 2048
    then some 2
    else if leb 55296 c && leb c 57343
    then none
    else if ltb c 65536
    then some 3
    else some 4

abbrev add_sizes : Option ℕ → Option ℕ → Option ℕ
add_sizes none n = none
add_sizes (some m) none = none
add_sizes (some m) (some n) = some (m + n)

-- `len(s.encode("utf-8"))`
unfoldable pub utf8_size : Text → Option ℕ
utf8_size [] = some 0
utf8_size (c ∷ s) = add_sizes (char_size c) (utf8_size s)

drop_one : Text → Text
drop_one [] = []
drop_one (_ ∷ s) = s

group_from : ℕ → ℕ → Text
unfolding drop_one
group_from zero n = show_nat n
group_from (suc fuel) n =
    let groups = group_from fuel (n / 1000) ++ (b',' ∷ drop_one (show_nat (1000 + n % 1000))) in
    if ltb n 1000 then show_nat n else groups

-- `f"{n:,}"`, with a round for each group, of which there are no more than `n`.
unfoldable pub show_grouped : ℕ → Text
unfolding group_from
show_grouped n = group_from n n

grouped : show_grouped 1002030 ≡ lit "1,002,030"
unfolding show_grouped show_nat lit
grouped = refl

abbrev pub raw_snapshot_size_threshold : ℕ
raw_snapshot_size_threshold = 10 * 1024

abbrev sample_error : Subject → QueryResult → Fields
sample_error s r = of_entries (
    (lit "status", str (lit "ERROR"))
    ∷ (lit "service_name", str s.service_name)
    ∷ (lit "environment", str s.environment)
    ∷ (lit "log_group_name", log_group s)
    ∷ (lit "location_hash", str s.location_hash)
    ∷ (lit "error", or_else_text r.error (lit "Unknown error"))
    ∷ (lit "query_string", str s.query_string)
    ∷ [])

abbrev sample_timeout : Subject → ℕ → QueryResult → Fields
sample_timeout s max_timeout r = of_entries (
    (lit "status", str (lit "TIMEOUT"))
    ∷ (lit "queryId", query_id r)
    ∷ (lit "service_name", str s.service_name)
    ∷ (lit "environment", str s.environment)
    ∷ (lit "log_group_name", log_group s)
    ∷ (lit "location_hash", str s.location_hash)
    ∷ (
      lit "message",
      str (
          concat
            (lit "Query did not complete within " ∷ show_nat max_timeout ∷ lit " seconds." ∷ [])),
    )
    ∷ (lit "query_string", str s.query_string)
    ∷ [])

abbrev pub time_range : Subject → Value
time_range s =
    dict (of_entries ((lit "start", str s.start_time_utc) ∷ (lit "end", str s.end_time_utc) ∷ []))

abbrev pub no_snapshots_message : Text
no_snapshots_message =
    lit
      "No snapshots found in this window. Suggestions: (1) Try an older ACTIVE event timestamp — older events have had more time for CloudWatch Logs ingestion. (2) If all timestamps fail, wait 1-2 minutes for ingestion delay. (3) Verify the breakpoint is still ACTIVE and not DISABLED from max_hits exhaustion."

abbrev pub no_snapshots : Subject → QueryResult → Fields
no_snapshots s r = of_entries (
    (lit "status", str (lit "NO_SNAPSHOTS_FOUND"))
    ∷ (lit "queryId", query_id r)
    ∷ (lit "service_name", str s.service_name)
    ∷ (lit "environment", str s.environment)
    ∷ (lit "log_group_name", log_group s)
    ∷ (lit "location_hash", str s.location_hash)
    ∷ (lit "time_range", time_range s)
    ∷ (lit "message", str no_snapshots_message)
    ∷ (lit "query_string", str s.query_string)
    ∷ [])

-- The sample, and the note that says what it stands for.
abbrev pub found : Subject → QueryResult → Fields → List (Text × Value) → Value → Fields
found s r result note sample = of_entries (
    (lit "status", str (lit "SUCCESS"))
    ∷ (lit "queryId", query_id r)
    ∷ (lit "service_name", str s.service_name)
    ∷ (lit "environment", str s.environment)
    ∷ (lit "log_group_name", log_group s)
    ∷ (lit "location_hash", str s.location_hash)
    ∷ (lit "time_range", time_range s)
    ∷ (lit "cloudwatch_timestamp", get_or_null (lit "@timestamp") result)
    ∷ (note
        ++ ((lit "sample_snapshot", sample)
            ∷ (lit "field_documentation", dict field_documentation)
            ∷ (lit "messages", messages r)
            ∷ [])))

abbrev pub size_note : ℕ → Text
size_note raw_size = concat (
    lit "Raw snapshot was "
    ∷ show_grouped raw_size
    ∷ lit
        " bytes and has been replaced with a compact parsed summary. To get the full raw snapshot, call this tool again with include_raw=True."
    ∷ [])

abbrev pub with_summary : Subject → QueryResult → Fields → ℕ → Option Fields → Option Fields
with_summary s r result raw_size none = none
with_summary s r result raw_size (some parsed) = some (
    found s r result ((lit "note", str (size_note raw_size)) ∷ [])
      (dict (without (lit "raw_snapshot" ∷ []) parsed)))

module _ (float_repr : Text → Text) where
  -- The raw snapshot, or its summary where the raw one is too large.
  abbrev pub of_size : Subject → QueryResult → Bool → Fields → Text → Option ℕ → Option Fields
  of_size s r include_raw result raw_message none = none
  of_size s r include_raw result raw_message (some raw_size) =
      if ltb raw_snapshot_size_threshold raw_size && not include_raw
      then with_summary s r result raw_size (parse_snapshot_fields float_repr result)
      else some (found s r result [] (or_none_read (loads float_repr raw_message)))

  abbrev pub of_message : Subject → QueryResult → Bool → Fields → Value → Option Fields
  of_message s r include_raw result (str raw_message) =
      of_size s r include_raw result raw_message (utf8_size raw_message)
  of_message s r include_raw result _ = none

  abbrev pub of_results : Subject → QueryResult → Bool → List Fields → Option Fields
  of_results s r include_raw [] = some (no_snapshots s r)
  of_results s r include_raw (result ∷ _) =
      of_message s r include_raw result (get_or (lit "@message") (str (lit "{}")) result)

  unfoldable pub sample_output : Subject → ℕ → Bool → QueryResult → Option Fields
  sample_output s max_timeout include_raw r =
      if r.status == lit "Error"
      then some (sample_error s r)
      else if r.status == lit "Polling Timeout"
      then some (sample_timeout s max_timeout r)
      else if r.status == lit "Complete"
      then of_results s r include_raw r.results
      else some (unfinished s r)

  unfoldable pub render_sample_output : Subject → ℕ → Bool → QueryResult → Option Text
  render_sample_output s max_timeout include_raw r =
      dump (sample_output s max_timeout include_raw r)

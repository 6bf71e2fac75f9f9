-- ===== src/Snapshot/Rendering.antt =====
-- di_snapshot_rendering.py (.pi/skills/aws-observability/scripts): the JSON texts of the two snapshot
-- operations. `none` is an exception: the `AttributeError` of a message that is JSON but no object,
-- the `ValueError` of a line number, the `UnicodeEncodeError` of a lone surrogate, or the `TypeError`
-- of a value that JSON has no text for.
pub mod Sample
use kiro_usage_pipeline.Base.{
  ℕ, ℤ, pos, Bool, true, false, ◌&&◌, not, Option, none, some, List, [], ◌∷◌, ◌++◌, Text, lit,
  concat, show_nat, ltb, ◌==◌, nat_eq, text_eq, if◌then◌else◌,
}
use kiro_usage_pipeline.Value.{
  Value, null, int, str, list, dict, Items, nil, cons, Fields, end, as_dict, of_text,
}
use kiro_usage_pipeline.Value.Dict.{get_or, get_or_null, get_fields, of_entries}
use kiro_usage_pipeline.Region.{resolve_snapshot_log_group}
use kiro_usage_pipeline.Json.Write.{dumps}
use kiro_usage_pipeline.Snapshot.Query.{QueryResult}
use kiro_usage_pipeline.Snapshot.Fields.{loads_value, or_none_read}

-- What both renderers take of the call.
pub record Subject : Type 0 where
  pub service_name : Text
  pub environment : Text
  pub location_hash : Text
  pub start_time_utc : Text
  pub end_time_utc : Text
  pub query_string : Text

pub record Window : Type 0 where
  pub start_epoch : ℤ
  pub end_epoch : ℤ

abbrev pub or_else_text : Option Text → Text → Value
or_else_text none d = str d
or_else_text (some s) d = str s

abbrev pub query_id : QueryResult → Value
query_id r = elim r.query_id [ none ↦ null | some v ↦ v ]

abbrev pub messages : QueryResult → Value
messages r = elim r.messages [ none ↦ list nil | some vs ↦ list vs ]

abbrev pub log_group : Subject → Value
log_group s = str (resolve_snapshot_log_group s.service_name)

-- `custom_filters if custom_filters else []`
abbrev pub filter_texts : List Text → Items
filter_texts [] = nil
filter_texts (f ∷ fs) = cons (str f) (filter_texts fs)

abbrev pub search_error : Subject → List Text → QueryResult → Fields
search_error s custom_filters r = of_entries (
    (lit "status", str (lit "ERROR"))
    ∷ (lit "service_name", str s.service_name)
    ∷ (lit "environment", str s.environment)
    ∷ (lit "log_group_name", log_group s)
    ∷ (lit "location_hash", str s.location_hash)
    ∷ (lit "custom_filters", list (filter_texts custom_filters))
    ∷ (lit "start_time_utc", str s.start_time_utc)
    ∷ (lit "end_time_utc", str s.end_time_utc)
    ∷ (lit "query_string", str s.query_string)
    ∷ (lit "error", or_else_text r.error (lit "Unknown error"))
    ∷ [])

abbrev search_timeout : Subject → List Text → QueryResult → Fields
search_timeout s custom_filters r = of_entries (
    (lit "queryId", query_id r)
    ∷ (lit "status", str (lit "TIMEOUT"))
    ∷ (lit "log_group_name", log_group s)
    ∷ (lit "service_name", str s.service_name)
    ∷ (lit "environment", str s.environment)
    ∷ (lit "location_hash", str s.location_hash)
    ∷ (lit "custom_filters", list (filter_texts custom_filters))
    ∷ (lit "start_time_utc", str s.start_time_utc)
    ∷ (lit "end_time_utc", str s.end_time_utc)
    ∷ (lit "query_string", str s.query_string)
    ∷ (
      lit "message",
      str (
          lit
            "Query did not complete within the requested timeout. Use get-query-results with the returned queryId to retry."),
    )
    ∷ [])

-- A status other than Complete, as both renderers show it.
abbrev pub unfinished : Subject → QueryResult → Fields
unfinished s r = of_entries (
    (lit "status", str r.status)
    ∷ (lit "queryId", query_id r)
    ∷ (lit "service_name", str s.service_name)
    ∷ (lit "environment", str s.environment)
    ∷ (lit "log_group_name", log_group s)
    ∷ (lit "location_hash", str s.location_hash)
    ∷ (lit "query_string", str s.query_string)
    ∷ (lit "messages", messages r)
    ∷ [])

abbrev pub result_items : List Fields → Items
result_items [] = nil
result_items (d ∷ ds) = cons (dict d) (result_items ds)

abbrev snapshot_summary : Fields → Fields → Value
snapshot_summary result snapshot_data =
    let attributes = get_fields (lit "attributes") snapshot_data in
    dict (
      of_entries (
        (lit "@timestamp", get_or_null (lit "@timestamp") result)
        ∷ (lit "snapshot_id", get_or_null (lit "aws.di.snapshot_id") attributes)
        ∷ (lit "location_hash", get_or_null (lit "aws.di.location_hash") attributes)
        ∷ (lit "traceId", get_or_null (lit "traceId") snapshot_data)
        ∷ (lit "spanId", get_or_null (lit "spanId") snapshot_data)
        ∷ []))

abbrev pub search_complete : Subject → List Text → Window → QueryResult → Items → Fields
search_complete s custom_filters w r summaries = of_entries (
    (lit "queryId", query_id r)
    ∷ (lit "status", str r.status)
    ∷ (lit "log_group_name", log_group s)
    ∷ (lit "service_name", str s.service_name)
    ∷ (lit "environment", str s.environment)
    ∷ (lit "location_hash", str s.location_hash)
    ∷ (lit "custom_filters", list (filter_texts custom_filters))
    ∷ (lit "start_time_utc", str s.start_time_utc)
    ∷ (lit "end_time_utc", str s.end_time_utc)
    ∷ (lit "start_epoch", int w.start_epoch)
    ∷ (lit "end_epoch", int w.end_epoch)
    ∷ (lit "query_string", str s.query_string)
    ∷ (lit "messages", messages r)
    ∷ (lit "snapshot_summaries", list summaries)
    ∷ (lit "results", list (result_items r.results))
    ∷ [])

-- `json.dumps(output, indent=2)`, where building the output may raise.
abbrev pub dump : Option Fields → Option Text
dump none = none
dump (some d) = dumps (dict d)

abbrev pub cons_summary : Fields → Option Fields → Option Items → Option Items
cons_summary result none rest = none
cons_summary result (some snapshot_data) none = none
cons_summary result (some snapshot_data) (some vs) =
    some (cons (snapshot_summary result snapshot_data) vs)

abbrev pub with_summaries :
    Subject → List Text → Window → QueryResult → Option Items → Option Fields
with_summaries s custom_filters w r none = none
with_summaries s custom_filters w r (some vs) = some (search_complete s custom_filters w r vs)

module _ (float_repr : Text → Text) where
  -- `none` is the `AttributeError` of a message that is JSON but no object.
  unfoldable pub snapshot_summaries : List Fields → Option Items
  snapshot_summaries [] = some nil
  snapshot_summaries (result ∷ results) =
      cons_summary result
        (as_dict
          (or_none_read (loads_value float_repr (get_or (lit "@message") (str (lit "{}")) result))))
        (snapshot_summaries results)

  unfoldable pub search_output : Subject → List Text → Window → QueryResult → Option Fields
  search_output s custom_filters w r =
      if r.status == lit "Error"
      then some (search_error s custom_filters r)
      else if r.status == lit "Polling Timeout"
      then some (search_timeout s custom_filters r)
      else if r.status == lit "Complete"
      then with_summaries s custom_filters w r (snapshot_summaries r.results)
      else some (unfinished s r)

  unfoldable pub render_search_output : Subject → List Text → Window → QueryResult → Option Text
  render_search_output s custom_filters w r = dump (search_output s custom_filters w r)

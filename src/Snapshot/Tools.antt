-- ===== src/Snapshot/Tools.antt =====
-- di_snapshot_tools.py (.pi/skills/aws-observability/scripts): the two operations as a whole, and from
-- di_snapshots.py how the entry script tells a failure from the text that they return. The timeout
-- is the `int` that its annotation asks for.
pub mod Failures
pub mod Statuses
pub mod Refusals
pub mod Exit
use kiro_usage_pipeline.Base.{
  ℕ, Bool, true, false, ◌||◌, Option, none, some, List, [], ◌∷◌, Text, lit, lstrip, strip, upper,
  starts_with, contains, text_eq, if◌then◌else◌,
}
use kiro_usage_pipeline.Value.{Value, str, dict}
use kiro_usage_pipeline.Value.Dict.{get_or}
use kiro_usage_pipeline.Value.Show.{show}
use kiro_usage_pipeline.Value.Time.{isoformat_z}
use kiro_usage_pipeline.Validation.{or_blank}
use kiro_usage_pipeline.Status.Timestamp.{Fromisoformat}
use kiro_usage_pipeline.Json.Read.{loads}
use kiro_usage_pipeline.Snapshot.Query.{QueryResult, Logs, execute_cloudwatch_query}
use kiro_usage_pipeline.Snapshot.Search.{
  SnapshotQuery, Decision, refused, raises, asks, Search, filter_list, search_request,
  sample_request,
}
use kiro_usage_pipeline.Snapshot.Rendering.{Subject, Window, render_search_output}
use kiro_usage_pipeline.Snapshot.Rendering.Sample.{render_sample_output}

-- What an operation comes to: a text, an exception, or polling that ran out of fuel.
pub data Outcome : Type 0 where
  returned : Text → Outcome
  raised : Outcome
  exhausted : Outcome

pub record SampleCall : Type 0 where
  pub service : Text
  pub environment : Text
  pub location_hash : Option Text
  pub status_timestamp : Text
  pub include_raw : Bool

abbrev pub of_rendering : Option Text → Outcome
of_rendering none = raised
of_rendering (some text) = returned text

abbrev pub of_result : (QueryResult → Option Text) → Option QueryResult → Outcome
of_result render none = exhausted
of_result render (some r) = of_rendering (render r)

abbrev pub subject : Text → Text → Option Text → SnapshotQuery → Subject
subject service environment location_hash a = record {
  service_name = service;
  environment = environment;
  location_hash = or_blank location_hash;
  start_time_utc = isoformat_z a.window_start;
  end_time_utc = isoformat_z a.window_stop;
  query_string = a.sent.query_string;
}

abbrev pub window : SnapshotQuery → Window
window a = record { start_epoch = a.sent.start_time; end_epoch = a.sent.end_time }

module _ (float_repr : Text → Text) (logs : Logs) (max_timeout : ℕ) where
  abbrev pub search_rendering : Search → SnapshotQuery → QueryResult → Option Text
  search_rendering q a r =
      render_search_output float_repr (subject q.service q.environment q.location_hash a)
        (filter_list q.custom_filters) (window a) r

  abbrev pub answer_search : Search → Decision → Outcome
  answer_search q (refused message) = returned message
  answer_search q (raises _) = raised
  answer_search q (asks a) =
      of_result (search_rendering q a) (execute_cloudwatch_query logs a.sent max_timeout)

  abbrev pub sample_rendering : SampleCall → SnapshotQuery → QueryResult → Option Text
  sample_rendering c a r =
      render_sample_output float_repr (subject c.service c.environment c.location_hash a)
        max_timeout c.include_raw r

  abbrev pub answer_sample : SampleCall → Decision → Outcome
  answer_sample c (refused message) = returned message
  answer_sample c (raises _) = raised
  answer_sample c (asks a) =
      of_result (sample_rendering c a) (execute_cloudwatch_query logs a.sent max_timeout)

  module _ (fromisoformat : Fromisoformat) where
    unfoldable pub search_snapshots_for_status_event : Search → Outcome
    search_snapshots_for_status_event q = answer_search q (search_request fromisoformat q)

    unfoldable pub get_sample_snapshot_for_breakpoint : SampleCall → Outcome
    get_sample_snapshot_for_breakpoint c =
        answer_sample c
          (sample_request fromisoformat c.service c.environment c.location_hash c.status_timestamp)

abbrev pub query_failure_statuses : List Text
query_failure_statuses =
    lit "ERROR" ∷ lit "TIMEOUT" ∷ lit "POLLING TIMEOUT" ∷ lit "FAILED" ∷ lit "CANCELLED" ∷ []

-- The status of what the text was read as.
unfoldable pub has_failed_status : Option Value → Bool
has_failed_status (some (dict d)) =
    contains query_failure_statuses (upper (strip (show (get_or (lit "status") (str []) d))))
has_failed_status _ = false

unfoldable pub is_failure : (Text → Text) → Text → Bool
is_failure float_repr result =
    starts_with (lstrip result) (lit "ERROR") || has_failed_status (loads float_repr result)

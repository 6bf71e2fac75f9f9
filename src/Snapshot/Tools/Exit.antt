-- ===== src/Snapshot/Tools/Exit.antt =====
-- When an operation that sends a query counts as a failure.
use mathlib.Core.Path.{subst}
use kiro_usage_pipeline.Base.{
  ℕ, Bool, not, some, Text, lit, strip, upper, contains, text_eq, ◌≡◌, sym, ◌∙◌, ap, ◌==◌,
}
use kiro_usage_pipeline.Value.{dict, Fields}
use kiro_usage_pipeline.Value.Show.{show}
use kiro_usage_pipeline.Status.Timestamp.{Fromisoformat}
use kiro_usage_pipeline.Json.Pieces.{IsReadable}
use kiro_usage_pipeline.Json.Write.{dumps}
use kiro_usage_pipeline.Snapshot.Query.{QueryResult, Logs, execute_cloudwatch_query}
use kiro_usage_pipeline.Snapshot.Query.Known.{IsKnown, execute_cloudwatch_query-IsKnown}
use kiro_usage_pipeline.Snapshot.Search.{
  SnapshotQuery, Search, asks, filter_list, search_request, sample_request,
}
use kiro_usage_pipeline.Snapshot.Rendering.{dump, search_output, render_search_output}
use kiro_usage_pipeline.Snapshot.Rendering.Sample.{sample_output, render_sample_output}
use kiro_usage_pipeline.Snapshot.Tools.{
  Outcome, returned, SampleCall, subject, window, of_rendering, of_result, answer_search,
  answer_sample, search_snapshots_for_status_event, get_sample_snapshot_for_breakpoint,
  search_rendering, sample_rendering, query_failure_statuses, has_failed_status, is_failure,
}
use kiro_usage_pipeline.Snapshot.Tools.Failures.{is_failure-dumps}
use kiro_usage_pipeline.Snapshot.Tools.Statuses.{
  Writes, written_status, sample_status, search_output-Writes, sample_output-Writes,
  failed-written_status, failed-sample_status,
}

module _ (float_repr : Text → Text) where
  -- The operation returns the text of the dict, which counts as a failure or not.
  abbrev pub Exits : Fields → Outcome → Bool → Type 0
  Exits d o failed =
      (text : Text) × (dumps (dict d) ≡ some text)
      × (o ≡ returned text)
      × (is_failure float_repr text ≡ failed)

  rendered-Exits :
      (status : Text) (failed : Bool) (d : Fields)
      → IsReadable float_repr (dict d)
      → Writes status (some d)
      → contains query_failure_statuses (upper (strip status)) ≡ failed
      → Exits d (of_rendering (dump (some d))) failed
  unfolding has_failed_status show
  rendered-Exits status failed d readable writes known =
      let (text, dumped, same) = is_failure-dumps float_repr d readable in
      (
        text,
        dumped,
        ap of_rendering dumped,
        same ∙ ap (λ v. contains query_failure_statuses (upper (strip (show v)))) writes ∙ known,
      )

  module _ (logs : Logs) (max_timeout : ℕ) (fromisoformat : Fromisoformat) where
    -- A search whose query ends in `r` returns the JSON text of its output, if there is an output
    -- that can be read back, and counts as a failure exactly when the query is not complete.
    pub search_snapshots_for_status_event-Exits :
        (q : Search) (a : SnapshotQuery) (r : QueryResult) (d : Fields)
        → search_request fromisoformat q ≡ asks a
        → execute_cloudwatch_query logs a.sent max_timeout ≡ some r
        → search_output float_repr
            (subject q.service q.environment q.location_hash a)
            (filter_list q.custom_filters)
            (window a)
            r
          ≡ some d
        → IsReadable float_repr (dict d)
        → Exits d
            (search_snapshots_for_status_event float_repr logs max_timeout fromisoformat q)
            (not (r.status == lit "Complete"))
    unfolding search_snapshots_for_status_event render_search_output
    search_snapshots_for_status_event-Exits q a r d asked ended output readable =
        let whole = subject q.service q.environment q.location_hash a in
        let filters = filter_list q.custom_filters in
        subst (λ o. Exits d o (not (r.status == lit "Complete")))
          (sym (
            ap (answer_search float_repr logs max_timeout q) asked
            ∙ ap (of_result (search_rendering float_repr logs max_timeout q a)) ended
            ∙ ap (λ o. of_rendering (dump o)) output))
          (rendered-Exits (written_status r.status) (not (r.status == lit "Complete")) d readable
            (subst (Writes (written_status r.status)) output
              (search_output-Writes float_repr whole filters (window a) r))
            (failed-written_status r.status
              (subst IsKnown ended (execute_cloudwatch_query-IsKnown logs a.sent max_timeout))))

    -- A sample whose query ends in `r` returns the JSON text of its output, if there is an output
    -- that can be read back, and counts as a failure exactly when the query is not complete, whether or not it
    -- found a snapshot.
    pub get_sample_snapshot_for_breakpoint-Exits :
        (c : SampleCall) (a : SnapshotQuery) (r : QueryResult) (d : Fields)
        → sample_request fromisoformat c.service c.environment c.location_hash c.status_timestamp
          ≡ asks a
        → execute_cloudwatch_query logs a.sent max_timeout ≡ some r
        → sample_output float_repr
            (subject c.service c.environment c.location_hash a)
            max_timeout
            c.include_raw
            r
          ≡ some d
        → IsReadable float_repr (dict d)
        → Exits d
            (get_sample_snapshot_for_breakpoint float_repr logs max_timeout fromisoformat c)
            (not (r.status == lit "Complete"))
    unfolding get_sample_snapshot_for_breakpoint render_sample_output
    get_sample_snapshot_for_breakpoint-Exits c a r d asked ended output readable =
        let whole = subject c.service c.environment c.location_hash a in
        subst (λ o. Exits d o (not (r.status == lit "Complete")))
          (sym (
            ap (answer_sample float_repr logs max_timeout c) asked
            ∙ ap (of_result (sample_rendering float_repr logs max_timeout c a)) ended
            ∙ ap (λ o. of_rendering (dump o)) output))
          (rendered-Exits (sample_status r.status r.results) (not (r.status == lit "Complete")) d
            readable
            (subst (Writes (sample_status r.status r.results)) output
              (sample_output-Writes float_repr whole max_timeout c.include_raw r))
            (failed-sample_status r.status r.results
              (subst IsKnown ended (execute_cloudwatch_query-IsKnown logs a.sent max_timeout))))

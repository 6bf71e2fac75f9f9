-- ===== src/Status/History.antt =====
-- di_status_tools.py: `get_instrumentation_configuration_status`.
pub mod Guards
use kiro_usage_pipeline.Base.{
  ℕ, Bool, true, false, not, Option, none, some, List, [], ◌∷◌, Text, lit, concat, ℤ, contains,
  text_eq, is_empty, if◌then◌else◌,
}
use kiro_usage_pipeline.Value.{str, int, time, dict, Fields, end, field}
use kiro_usage_pipeline.Value.Dict.{insert, insert_if}
use kiro_usage_pipeline.Validation.{
  or_blank, is_missing, show_optional, fold_word, validate_snapshot_signal,
}
use kiro_usage_pipeline.Location.{Location}
use kiro_usage_pipeline.Errors.{Prose}
use kiro_usage_pipeline.Gateway.{render_error}
use kiro_usage_pipeline.Operation.{
  Reply, response, gateway_error, Op, request, answer, answer_rendered,
}
use kiro_usage_pipeline.Crud.{Target, lookup, with_type, with_identifier, attempted_target}
use kiro_usage_pipeline.Crud.Queries.{is_default}
use kiro_usage_pipeline.Status.Timestamp.{Fromisoformat, with_optional_timestamp}
use kiro_usage_pipeline.Status.Rendering.{render_get_instrumentation_configuration_status_output}

pub record HistoryQuery : Type 0 where
  pub target : Target
  pub status : Option Text
  pub start_time : Option Text
  pub end_time : Option Text
  pub max_results : ℤ
  pub next_token : Option Text
  pub signal_type : Option Text

abbrev pub render_status_identifier_help : Text
render_status_identifier_help =
    lit
      "ERROR: Must provide one of:\n- location_hash\n- language + file_path (for code location identifier)\n\nUsage:\n1. Get by hash (preferred):\n   get_instrumentation_configuration_status(location_hash=\"abc123...\")\n\n2. Get by code location:\n   get_instrumentation_configuration_status(language=\"Python\", file_path=\"/app/file.py\", ...)"

-- An error text or none.
unfoldable pub status_error : Option Text → Option Text
status_error status =
    let requested_status = fold_word status in
    if is_empty requested_status
    then some (
        lit
          "ERROR: status is required\n\nThis API cannot return all statuses in one call.\nIf status is omitted, AWS defaults to ACTIVE, which is ambiguous.\n\nUse explicit status checks in this order:\n1. status=\"READY\"\n2. status=\"ACTIVE\" (only after READY is confirmed by events)\n3. status=\"ERROR\" (if READY not confirmed)\n4. status=\"DISABLED\" (when checking max-hits scenarios)")
    else if contains (lit "READY" ∷ lit "ACTIVE" ∷ lit "ERROR" ∷ lit "DISABLED" ∷ [])
        requested_status
    then none
    else some (
        concat (
          lit "ERROR: invalid status. Must be one of: READY, ACTIVE, ERROR, DISABLED (received: "
          ∷ show_optional status
          ∷ lit ")"
          ∷ []))

abbrev insert_time : Text → Option ℕ → Fields → Fields
insert_time k none d = d
insert_time k (some t) d = insert k (time t) d

unfoldable pub history_kwargs : Text → HistoryQuery → Fields → Option ℕ → Option ℕ → Fields
history_kwargs normalized_type q identifier start stop =
    insert_if (not (is_missing q.next_token)) (lit "NextToken") (str (or_blank q.next_token)) (
      insert_if (not (is_default q.max_results)) (lit "MaxResults") (int q.max_results) (
        insert_time (lit "EndTime") stop (
          insert_time (lit "StartTime") start (
            field (lit "InstrumentationType") (str normalized_type) (
              field (lit "Service") (str q.target.service) (
                field (lit "Environment") (str q.target.environment) (
                  field (lit "SignalType") (str (lit "SNAPSHOT")) (
                    field (lit "Status") (str (fold_word q.status))
                      (field (lit "LocationIdentifier") (dict identifier) end)))))))))

unfoldable pub history_prose : Target → Location → Prose
history_prose t location = record {
  action = lit "get instrumentation status";
  attempted_label = lit "ATTEMPTED TO RETRIEVE:";
  attempted = attempted_target t location;
  possible_causes =
      lit "Instrumentation doesn't exist at this location"
      ∷ lit "Location parameters don't match exactly"
      ∷ lit "Wrong service or environment identifier"
      ∷ [];
  troubleshooting = lit "Use get_instrumentation to verify the configuration exists" ∷ [];
  trailer = [];
}

module _ (fromisoformat : Fromisoformat) (q : HistoryQuery) where
  history_replied : Text → Location → Reply → Op
  history_replied normalized_type location (response d) = answer_rendered true (
      render_get_instrumentation_configuration_status_output d normalized_type q.target.service
        q.target.environment (fold_word q.status))
  history_replied normalized_type location (gateway_error e) =
      answer false (render_error e (history_prose q.target location))

  send_history : Text → Location → Fields → Op
  unfolding history_replied
  send_history normalized_type location identifier =
      with_optional_timestamp fromisoformat (lit "start_time") q.start_time (λ start.
        with_optional_timestamp fromisoformat (lit "end_time") q.end_time (λ stop.
          request (lit "get_instrumentation_configuration_status")
            (history_kwargs normalized_type q identifier start stop)
            (history_replied normalized_type location)))

  history_of : Text → Location → Op
  unfolding send_history
  history_of normalized_type location = elim (status_error q.status) [
    | some message ↦ answer false message
    | none ↦ with_identifier location (send_history normalized_type location)
  ]

  signalled : Text → Op
  unfolding history_of
  signalled normalized_type = elim (validate_snapshot_signal q.signal_type) [
    | some message ↦ answer false message
    | none ↦ lookup render_status_identifier_help q.target (history_of normalized_type)
  ]

  unfoldable pub get_instrumentation_configuration_status : Op
  unfolding signalled
  get_instrumentation_configuration_status = with_type q.target.instrumentation_type signalled

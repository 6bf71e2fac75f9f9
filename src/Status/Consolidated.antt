-- ===== src/Status/Consolidated.antt =====
-- di_status_tools.py: `check_instrumentation_status`, which asks for the configuration and then for
-- up to three statuses.
pub mod Checks
pub mod Guards
use kiro_usage_pipeline.Base.{
  ℕ, Bool, true, false, not, Option, none, some, List, [], ◌∷◌, ◌++◌, Text, lit, concat, ltb, leb,
  is_empty, if◌then◌else◌,
}
use kiro_usage_pipeline.Value.{
  Value, null, bool, int, str, time, list, dict, nil, Fields, end, field, truthy, as_dict,
}
use kiro_usage_pipeline.Value.Dict.{get_or, get_or_null}
use kiro_usage_pipeline.Validation.{is_valid_location_hash, or_blank, validate_snapshot_signal}
use kiro_usage_pipeline.Operation.{Reply, response, gateway_error, Op, raises, request, answer}
use kiro_usage_pipeline.Crud.{with_type}
use kiro_usage_pipeline.Crud.Rendering.{list_items}
use kiro_usage_pipeline.Status.Timestamp.{Fromisoformat, with_timestamp}
use kiro_usage_pipeline.Status.Assessment.{
  TimeWindow, StatusCheckResult, Verdict, active, ready, error_or_pending, Query, latest, skipped,
  time_window,
}
use kiro_usage_pipeline.Status.Rendering.Overall.{Common, render_status_assessment}

pub record Check : Type 0 where
  pub service : Text
  pub environment : Text
  pub instrumentation_type : Option Text
  pub location_hash : Option Text
  pub start_time : Text
  pub end_time : Text
  pub signal_type : Option Text

abbrev hash_identifier : Check → Fields
hash_identifier q = field (lit "LocationHash") (str (or_blank q.location_hash)) end

-- The request for the configuration.
unfoldable pub configuration_kwargs : Text → Check → Fields
configuration_kwargs normalized_type q = field (lit "InstrumentationType") (str normalized_type) (
    field (lit "Service") (str q.service) (
      field (lit "Environment") (str q.environment) (
        field (lit "SignalType") (str (lit "SNAPSHOT"))
          (field (lit "LocationIdentifier") (dict (hash_identifier q)) end))))

-- The request for one status in a time range.
unfoldable pub status_kwargs : Text → Check → Query → Fields
status_kwargs normalized_type q asked = field (lit "InstrumentationType") (str normalized_type) (
    field (lit "Service") (str q.service) (
      field (lit "Environment") (str q.environment) (
        field (lit "SignalType") (str (lit "SNAPSHOT")) (
          field (lit "Status") (str asked.status) (
            field (lit "LocationIdentifier") (dict (hash_identifier q)) (
              field (lit "StartTime") (time asked.start)
                (field (lit "EndTime") (time asked.end) end)))))))

unfoldable pub status_result : Reply → StatusCheckResult
status_result (response d) =
    let events = list_items (get_or (lit "Events") (list nil) d) in
    record { has_events = not (is_empty events); events = events; error = none }
status_result (gateway_error e) = record {
  has_events = false;
  events = [];
  error = some (lit "API error: " ++ e.text);
}

-- The policy of di_status_assessment.py with a callback that may do more than return a result: it
-- is given what comes after it.
module _ {R : Type 0} (check_status : Query → (StatusCheckResult → R) → R) where
  after_active_with : ℕ → ℕ → StatusCheckResult → (Verdict → R) → R
  after_active_with requested_start query_end act next =
      check_status (record { status = lit "READY"; start = requested_start; end = query_end })
        (λ r.
          if r.has_events
          then next (ready act r)
          else check_status
              (record { status = lit "ERROR"; start = requested_start; end = query_end })
              (λ e. next (error_or_pending act r e)))

  after_check : ℕ → ℕ → (Verdict → R) → StatusCheckResult → R
  unfolding after_active_with
  after_check requested_start query_end next act =
      if act.has_events
      then next (active act)
      else after_active_with requested_start query_end act next

  unfoldable pub assess_with : ℕ → ℕ → ℕ → (Verdict → R) → R
  unfolding after_check
  assess_with created_at requested_start query_end next =
      let start = latest created_at requested_start in
      let result = after_check requested_start query_end next in
      if ltb start query_end
      then check_status (record { status = lit "ACTIVE"; start = start; end = query_end }) result
      else result (skipped (time_window created_at requested_start query_end))

module _ (fromisoformat : Fromisoformat) (q : Check) where
  -- `check_status`, the function in the function.
  unfoldable pub check_status : Text → Query → (StatusCheckResult → Op) → Op
  check_status normalized_type asked next =
      request (lit "get_instrumentation_configuration_status")
        (status_kwargs normalized_type q asked) (λ reply. next (status_result reply))

  abbrev common : Text → TimeWindow → Common
  common normalized_type window = record {
    location_hash = or_blank q.location_hash;
    service = q.service;
    environment = q.environment;
    normalized_type = normalized_type;
    window = window;
  }

  unfoldable pub assessed : Text → TimeWindow → Verdict → Op
  assessed normalized_type window verdict =
      answer true (render_status_assessment (common normalized_type window) verdict)

  -- The check on the window and the assessment.
  unfoldable pub checked_window : Text → ℕ → ℕ → ℕ → Op
  unfolding check_status assessed
  checked_window normalized_type created_at start_dt query_end_dt =
      if leb query_end_dt start_dt
      then answer false (lit "ERROR: end_time must be later than start_time")
      else assess_with (check_status normalized_type) created_at start_dt query_end_dt
          (assessed normalized_type (time_window created_at start_dt query_end_dt))

  -- The times are parsed before `CreatedAt` is used, as the instant that it has to be.
  parse_window : Text → (ℕ → ℕ → Op) → Op
  parse_window normalized_type next =
      with_timestamp fromisoformat (lit "start_time") q.start_time (λ start_dt.
        with_timestamp fromisoformat (lit "end_time") q.end_time
          (λ query_end_dt. next start_dt query_end_dt))

  -- A `CreatedAt` of another type has no `astimezone`; that shows when the window is valid.
  created_window : Text → Value → ℕ → ℕ → Op
  unfolding checked_window
  created_window normalized_type (time created_at) start_dt query_end_dt =
      checked_window normalized_type created_at start_dt query_end_dt
  created_window normalized_type _ start_dt query_end_dt =
      if leb query_end_dt start_dt
      then answer false (lit "ERROR: end_time must be later than start_time")
      else raises (lit "AttributeError")

  -- `created_dt`, which may not be missing.
  with_created_at : Text → Value → Op
  unfolding parse_window created_window
  with_created_at normalized_type null = answer false (
      lit "ERROR: Failed to fetch created_at: CreatedAt not found in instrumentation configuration")
  with_created_at normalized_type v =
      parse_window normalized_type (created_window normalized_type v)

  -- A configuration that is not a dict has no `get`.
  configured : Text → Value → Op
  unfolding with_created_at
  configured normalized_type config = elim (as_dict config) [
    | none ↦ raises (lit "AttributeError")
    | some d ↦ with_created_at normalized_type (get_or_null (lit "CreatedAt") d)
  ]

  fetched : Text → Reply → Op
  unfolding configured
  fetched normalized_type (response d) =
      let config = get_or (lit "Configuration") (dict end) d in
      if truthy config
      then configured normalized_type config
      else answer false (
          concat (
            lit "ERROR: Failed to fetch created_at: No instrumentation found for LocationHash "
            ∷ or_blank q.location_hash
            ∷ []))
  fetched normalized_type (gateway_error e) =
      answer false (lit "ERROR: Failed to fetch created_at: Exception: " ++ e.text)

  fetch : Text → Op
  unfolding fetched
  fetch normalized_type =
      request (lit "get_instrumentation_configuration") (configuration_kwargs normalized_type q)
        (fetched normalized_type)

  hashed : Text → Op
  unfolding fetch
  hashed normalized_type =
      if is_valid_location_hash q.location_hash
      then fetch normalized_type
      else answer false (lit "ERROR: location_hash must be a 16-character hex string")

  signalled : Text → Op
  unfolding hashed
  signalled normalized_type = elim (validate_snapshot_signal q.signal_type) [
    | some message ↦ answer false message
    | none ↦ hashed normalized_type
  ]

  unfoldable pub check_instrumentation_status : Op
  unfolding signalled
  check_instrumentation_status = with_type q.instrumentation_type signalled

-- ===== src/Examples/Statuses.antt =====
-- The theorems on status queries at concrete inputs.
use kiro_usage_pipeline.Base.{
  ℕ, ◌*◌, false, none, some, [], ◌≡◌, inl, inr, refl, arith, lit, ◌==◌, text_eq, nat_eq,
  replace_char, if◌then◌else◌, pos,
}
use kiro_usage_pipeline.Value.{time, dict, Fields, end, field}
use kiro_usage_pipeline.Value.Dict.{get}
use kiro_usage_pipeline.Validation.{fold_word, is_valid_location_hash}
use kiro_usage_pipeline.Gateway
use kiro_usage_pipeline.Gateway.{Client, call, bind_method}
use kiro_usage_pipeline.Operation.Run.{run, log}
use kiro_usage_pipeline.Crud.Guards.{Sends}
use kiro_usage_pipeline.Status.Timestamp.{aware, value_error, Fromisoformat, parse_iso_timestamp}
use kiro_usage_pipeline.Status.Assessment.{StatusCheckResult, Query, time_window, assess}
use kiro_usage_pipeline.Status.Rendering.Overall.{Common, render_status_assessment}
use kiro_usage_pipeline.Status.Rendering.Overall.States.{one_state, render_status_assessment-assess}
use kiro_usage_pipeline.Status.History.{HistoryQuery, get_instrumentation_configuration_status}
use kiro_usage_pipeline.Status.History.Guards.{get_instrumentation_configuration_status-Sends_iff}
use kiro_usage_pipeline.Status.Consolidated.{
  Check, configuration_kwargs, check_instrumentation_status,
}
use kiro_usage_pipeline.Status.Consolidated.Checks.{answers, reported}
use kiro_usage_pipeline.Status.Consolidated.Guards.{run-check_instrumentation_status}
use kiro_usage_pipeline.Examples.{handler, some_hash}

-- The first instants of the hours 18 and 19 of 2025-02-03, and noon of that day.
abbrev pub six : ℕ
six = 63874202400 * 1000000

abbrev pub seven : ℕ
seven = 63874206000 * 1000000

abbrev noon : ℕ
noon = 63874180800 * 1000000

-- A parser that knows two texts.
abbrev pub two_texts : Fromisoformat
two_texts s =
    if s == lit "2025-02-03T18:00:00+00:00"
    then aware six
    else if s == lit "2025-02-03T19:00:00+00:00"
    then aware seven
    else value_error (lit "Invalid isoformat string")

abbrev last_hour : Check
last_hour = record {
  service = lit "orders";
  environment = lit "prod";
  instrumentation_type = some (lit "PROBE");
  location_hash = some some_hash;
  start_time = lit "2025-02-03T18:00:00Z";
  end_time = lit "2025-02-03T19:00:00Z";
  signal_type = some (lit "SNAPSHOT");
}

abbrev created_at_noon : Fields
created_at_noon = field (lit "CreatedAt") (time noon) end

-- A client that knows the configuration and has no event for it.
abbrev no_events : Client
no_events = record {
  create_instrumentation_configuration = λ _. Gateway.response end;
  list_instrumentation_configurations = λ _. Gateway.response end;
  get_instrumentation_configuration =
      λ _. Gateway.response (field (lit "Configuration") (dict created_at_noon) end);
  delete_instrumentation_configuration = λ _. Gateway.response end;
  batch_delete_instrumentation_configurations = λ _. Gateway.response end;
  get_instrumentation_configuration_status = λ _. Gateway.response end;
}

run-check_instrumentation_status_example :
    run no_events (check_instrumentation_status two_texts last_hour)
    ≡ log
        (lit "get_instrumentation_configuration", configuration_kwargs (lit "PROBE") last_hour)
        (reported two_texts last_hour no_events
          (lit "PROBE")
          (time_window noon six seven)
          (assess (answers two_texts last_hour no_events (lit "PROBE")) noon six seven).verdict
          (assess (answers two_texts last_hour no_events (lit "PROBE")) noon six seven).queries)
unfolding fold_word is_valid_location_hash get parse_iso_timestamp replace_char call bind_method lit
    text_eq nat_eq
run-check_instrumentation_status_example =
    run-check_instrumentation_status two_texts last_hour no_events
      (field (lit "Configuration") (dict created_at_noon) end) created_at_noon noon six seven
      (inr refl) refl refl refl refl refl refl refl (λ _. tt) (omega arith)

abbrev active_history : HistoryQuery
active_history = record {
  target = record {
    service = lit "orders";
    environment = lit "prod";
    instrumentation_type = some (lit "PROBE");
    location_hash = some some_hash;
    location = handler;
  };
  status = some (lit "active");
  start_time = some (lit "2025-02-03T18:00:00Z");
  end_time = none;
  max_results = pos 100;
  next_token = none;
  signal_type = some (lit "SNAPSHOT");
}

get_instrumentation_configuration_status-Sends_iff_example :
    Sends (get_instrumentation_configuration_status two_texts active_history)
unfolding fold_word parse_iso_timestamp replace_char lit text_eq nat_eq
get_instrumentation_configuration_status-Sends_iff_example =
    (get_instrumentation_configuration_status-Sends_iff two_texts active_history).1
      (inr refl, refl, inl cc, inr (inl refl), (tt, tt))

abbrev silent : Query → StatusCheckResult
silent _ = record { has_events = false; events = []; error = none }

abbrev shown : Common
shown = record {
  location_hash = some_hash;
  service = lit "orders";
  environment = lit "prod";
  normalized_type = lit "PROBE";
  window = time_window noon six seven;
}

render_status_assessment-assess_example :
    render_status_assessment shown (assess silent noon six seven).verdict
    ≡ one_state shown (assess silent noon six seven).verdict
render_status_assessment-assess_example =
    render_status_assessment-assess silent noon six seven shown

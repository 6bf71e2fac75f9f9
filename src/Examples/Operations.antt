-- ===== src/Examples/Operations.antt =====
-- The theorems on operations, requests, queries and failures at concrete inputs.
use kiro_usage_pipeline.Base.{
  ◌*◌, none, some, [], ◌∷◌, ◌++◌, ◌≡◌, inl, inr, refl, arith, Text, lit, text_eq, nat_eq, ◌==◌,
  if◌then◌else◌, All, pos,
}
use kiro_usage_pipeline.Value.{null, str, list, cons, dict, nil, end, field}
use kiro_usage_pipeline.Validation.{fold_word}
use kiro_usage_pipeline.Value.Dict.{get}
use kiro_usage_pipeline.Errors.{client_error, AwsException, Prose}
use kiro_usage_pipeline.Gateway
use kiro_usage_pipeline.Gateway.{Client, call, disallowed, render_error}
use kiro_usage_pipeline.Gateway.Allowed.{call_allowed}
use kiro_usage_pipeline.Operation.Run.{run, Succeeds}
use kiro_usage_pipeline.Crud.{Target}
use kiro_usage_pipeline.Crud.Guards.{Sends}
use kiro_usage_pipeline.Crud.Create.{Arguments, create_instrumentation}
use kiro_usage_pipeline.Crud.Create.Guards.{create_instrumentation-Sends_iff}
use kiro_usage_pipeline.Crud.Removal.{delete_instrumentation, batch_delete_instrumentations_by_arns}
use kiro_usage_pipeline.Crud.Removal.Batch.{batch_delete_instrumentations_by_arns-Succeeds_iff}
use kiro_usage_pipeline.Crud.Removal.Single.{delete_instrumentation-Succeeds_iff}
use kiro_usage_pipeline.Status.Assessment.{StatusCheckResult, Query, assess}
use kiro_usage_pipeline.Status.Assessment.Policy.{
  is_ready, state, IsWithin, assess-state, assess-IsWithin,
}
use kiro_usage_pipeline.Snapshot.Escape.{escape_logs_insights_string, escape_logs_insights_regex}
use kiro_usage_pipeline.Snapshot.Escape.Lexer.{raw, quoted, inside, outside, lex, lex-escape}
use kiro_usage_pipeline.Snapshot.Filters.{
  hash_clause, service_clause, environment_clause, name_clause, last_clause, build_base_filters,
}
use kiro_usage_pipeline.Snapshot.Filters.Literals.{lex-build_base_filters}
use kiro_usage_pipeline.Snapshot.Query.{QueryRequest, response, Logs, execute_cloudwatch_query}
use kiro_usage_pipeline.Snapshot.Query.Polling.{HasNoStrayResults, execute_cloudwatch_query_total}
use kiro_usage_pipeline.Examples.{handler, handler-IsBindable, few_limits, some_hash}

-- A client that answers every call with an empty response.
abbrev pub quiet : Client
quiet = record {
  create_instrumentation_configuration = λ _. Gateway.response end;
  list_instrumentation_configurations = λ _. Gateway.response end;
  get_instrumentation_configuration = λ _. Gateway.response end;
  delete_instrumentation_configuration = λ _. Gateway.response end;
  batch_delete_instrumentation_configurations = λ _. Gateway.response end;
  get_instrumentation_configuration_status = λ _. Gateway.response end;
}

-- A client whose batch deletions delete one item, with no errors.
abbrev pub deleting : Client
deleting = record quiet {
  batch_delete_instrumentation_configurations = λ _. Gateway.response (
      field (lit "SuccessfulDeletions")
        (list (cons (dict (field (lit "ResourceArn") (str (lit "arn:1")) end)) nil))
        (field (lit "Errors") (list nil) end));
}

abbrev pub watch_handler : Arguments
watch_handler = record {
  instrumentation_type = some (lit "breakpoint");
  service = lit "orders";
  environment = lit "prod";
  location = handler;
  capture_arguments = none;
  capture_return = none;
  capture_stack_trace = none;
  capture_locals = some (lit "total" ∷ []);
  limits = few_limits;
  attribute_filters = null;
  description = lit "";
  ttl_hours = some (pos 24);
}

abbrev pub by_hash : Target
by_hash = record {
  service = lit "orders";
  environment = lit "prod";
  instrumentation_type = some (lit "PROBE");
  location_hash = some some_hash;
  location = handler;
}

create_instrumentation-Sends_iff_example : Sends (create_instrumentation 0 watch_handler)
unfolding fold_word lit
create_instrumentation-Sends_iff_example =
    (create_instrumentation-Sends_iff 0 watch_handler).1
      (inl refl, (cc, cc, handler-IsBindable), (tt, (cc, (cc, tt)), inr cc), omega arith)

batch_delete_instrumentations_by_arns-Succeeds_iff_example :
    Succeeds
      (run deleting (batch_delete_instrumentations_by_arns (lit "arn:1" ∷ []) (some (lit "PROBE"))))
unfolding fold_word lit get text_eq nat_eq
batch_delete_instrumentations_by_arns-Succeeds_iff_example =
    (batch_delete_instrumentations_by_arns-Succeeds_iff deleting (lit "arn:1" ∷ [])
        (some (lit "PROBE"))).1
      (inr refl, (omega arith, omega arith, (cc, tt)), (tt, tt))

delete_instrumentation-Succeeds_iff_example : Succeeds (run quiet (delete_instrumentation by_hash))
unfolding fold_word lit
delete_instrumentation-Succeeds_iff_example =
    (delete_instrumentation-Succeeds_iff quiet by_hash).1 (inr refl, inl cc, tt)

-- A backend in which only READY has events.
abbrev ready_only : Query → StatusCheckResult
ready_only q = record { has_events = q.status == lit "READY"; events = []; error = none }

assess-state_example : state (assess ready_only 5 10 20).verdict ≡ is_ready
unfolding lit text_eq
assess-state_example = assess-state ready_only 5 10 20

assess-IsWithin_example : All (IsWithin ready_only 5 10 20) (assess ready_only 5 10 20).queries
assess-IsWithin_example = assess-IsWithin ready_only 5 10 20 (omega arith)

-- A service whose first query is running at the first poll and complete at the second.
abbrev two_polls : Logs
two_polls = record {
  start = λ _. response (field (lit "queryId") (str (lit "q-1")) end);
  poll = λ _ n. response (record {
    status = some (if n == 0 then lit "Running" else lit "Complete");
    results = [];
    messages = nil;
  });
  clock = λ n. n * 1000000;
}

abbrev any_query : QueryRequest
any_query = record {
  log_group_name = lit "/aws/service-events/orders";
  start_time = pos 0;
  end_time = pos 3600;
  query_string = lit "fields @timestamp";
}

execute_cloudwatch_query_total_example :
    HasNoStrayResults (execute_cloudwatch_query two_polls any_query 30)
execute_cloudwatch_query_total_example =
    execute_cloudwatch_query_total two_polls any_query 30 (omega arith, λ n. omega arith)

-- A service name with a quote and a backslash in it.
abbrev hostile : Text
hostile = lit "a\" or \\\""

lex-build_base_filters_example :
    lex b'"' outside [] (build_base_filters some_hash hostile (lit "prod"))
    ≡ some (
        raw hash_clause
        ∷ quoted some_hash
        ∷ raw service_clause
        ∷ quoted hostile
        ∷ raw environment_clause
        ∷ quoted (lit "prod")
        ∷ raw name_clause
        ∷ quoted (lit "prod")
        ∷ raw last_clause
        ∷ [])
lex-build_base_filters_example = lex-build_base_filters some_hash hostile (lit "prod")

lex-escape_example :
    (lex b'"' inside [] (escape_logs_insights_string hostile ++ (b'"' ∷ []))
      ≡ some (quoted hostile ∷ raw [] ∷ []))
    × (lex b'/' inside [] (escape_logs_insights_regex hostile ++ (b'/' ∷ []))
        ≡ some (quoted hostile ∷ raw [] ∷ []))
unfolding lex
lex-escape_example = lex-escape [] hostile []

call_allowed_example : call quiet (lit "delete_role") end ≡ disallowed (lit "delete_role")
unfolding lit text_eq
call_allowed_example = (call_allowed quiet (lit "delete_role") end).1 refl

abbrev denied : AwsException
denied = record {
  kind =
      client_error
        (dict (field (lit "Error") (dict (field (lit "Code") (str (lit "AccessDenied")) end)) end));
  text = lit "denied";
}

abbrev list_prose : Prose
list_prose = record {
  action = lit "list instrumentations";
  attempted_label = lit "ATTEMPTED PARAMETERS:";
  attempted = [];
  possible_causes = [];
  troubleshooting = [];
  trailer = [];
}

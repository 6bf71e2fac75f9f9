-- ===== src/Snapshot/Query.antt =====
-- di_snapshot_queries.py (.pi/skills/aws-observability/scripts): start a Logs Insights query and
-- poll for its results. The service and the clock are parameters: `start` answers `start_query`,
-- `poll` answers the n-th `get_query_results`, and `clock` is the n-th reading of `time.time()` in
-- microseconds. Replies have the fields that the API's documentation gives them.
pub mod Polling
pub mod Known
use kiro_usage_pipeline.Base.{
  ℤ, ℕ, zero, suc, ◌+◌, ◌*◌, Bool, true, false, Option, none, some, List, [], ◌∷◌, Text, lit,
  concat, show_nat, ltb, ◌==◌, contains, text_eq, if◌then◌else◌,
}
use kiro_usage_pipeline.Value.{Value, str, list, dict, Items, nil, cons, Fields, end, field, truthy}
use kiro_usage_pipeline.Value.Dict.{get_or_null, insert}
use kiro_usage_pipeline.Value.Show.{show}

pub record QueryRequest : Type 0 where
  pub log_group_name : Text
  pub start_time : ℤ
  pub end_time : ℤ
  pub query_string : Text

-- A response, or an exception with its text.
pub data Reply (A : Type 0) : Type 0 where
  response : A → Reply A
  client_error : Text → Reply A
  botocore_error : Text → Reply A

-- One field of a result line, each part of which may be missing.
pub record ResultField : Type 0 where
  pub name : Option Text
  pub value : Option Text

pub record PollResponse : Type 0 where
  pub status : Option Text
  pub results : List (List ResultField)
  pub messages : Items

pub record Logs : Type 0 where
  pub start : QueryRequest → Reply Fields
  pub poll : Text → ℕ → Reply PollResponse
  pub clock : ℕ → ℕ

-- The dict that the script returns; each part but the first two may be missing.
pub record QueryResult : Type 0 where
  pub status : Text
  pub results : List Fields
  pub error : Option Text
  pub query_id : Option Value
  pub messages : Option Items

abbrev or_text : Option Text → Text → Text
or_text none d = d
or_text (some s) d = s

-- `{field.get("field", ""): field.get("value", "") for field in line}`
unfoldable pub result_line : List ResultField → Fields → Fields
result_line [] d = d
result_line (f ∷ fs) d = result_line fs (insert (or_text f.name []) (str (or_text f.value [])) d)

unfoldable pub result_lines : List (List ResultField) → List Fields
unfolding result_line
result_lines [] = []
result_lines (l ∷ ls) = result_line l end ∷ result_lines ls

abbrev failed : Text → Option Value → QueryResult
failed error query_id = record {
  status = lit "Error";
  results = [];
  error = some error;
  query_id = query_id;
  messages = none;
}

abbrev pub terminal_statuses : List Text
terminal_statuses = lit "Complete" ∷ lit "Failed" ∷ lit "Cancelled" ∷ []

abbrev finished : Value → Text → PollResponse → QueryResult
finished query_id status r = record {
  status = status;
  results = result_lines r.results;
  error = none;
  query_id = some query_id;
  messages = some r.messages;
}

abbrev timed_out : Value → ℕ → QueryResult
timed_out query_id max_timeout = record {
  status = lit "Polling Timeout";
  results = [];
  error =
      some (
        concat
          (lit "Query did not complete within " ∷ show_nat max_timeout ∷ lit " seconds." ∷ []));
  query_id = some query_id;
  messages = none;
}

-- What one poll decides: a result, or `none` to sleep and poll again.
unfoldable pub after_poll : Value → Reply PollResponse → Option QueryResult
after_poll query_id (client_error e) =
    some (failed (concat (lit "Failed to get results: " ∷ e ∷ [])) (some query_id))
after_poll query_id (botocore_error e) = some (failed e (some query_id))
after_poll query_id (response r) =
    let status = or_text r.status (lit "Unknown") in
    if contains terminal_statuses status then some (finished query_id status r) else none

module _ (logs : Logs) where
  -- The `while` loop, with fuel, before the n-th poll and the n-th reading of the clock after the
  -- first. `none` is fuel that ran out.
  unfoldable pub poll_loop : ℕ → Value → ℕ → ℕ → ℕ → Option QueryResult
  poll_loop zero query_id deadline max_timeout n = none
  poll_loop (suc fuel) query_id deadline max_timeout n =
      let again = poll_loop fuel query_id deadline max_timeout (n + 1) in
      let polled : Option QueryResult = elim (after_poll query_id (logs.poll (show query_id) n)) [
        | some result ↦ some result
        | none ↦ again
      ] in
      if ltb (logs.clock (n + 1)) deadline then polled else some (timed_out query_id max_timeout)

  unfoldable pub after_start : Fields → ℕ → Option QueryResult
  after_start start_response max_timeout =
      let query_id = get_or_null (lit "queryId") start_response in
      let polled =
        poll_loop (max_timeout + 1) query_id (logs.clock 0 + max_timeout * 1000000) max_timeout 0 in
      if truthy query_id
      then polled
      else some (
          failed
            (concat (
              lit "start_query did not return a queryId (response: "
              ∷ show (dict start_response)
              ∷ lit ")"
              ∷ []))
            none)

  -- The fuel is one round for each second of the timeout and one for the last test.
  unfoldable pub execute_cloudwatch_query : QueryRequest → ℕ → Option QueryResult
  execute_cloudwatch_query request max_timeout = elim (logs.start request) [
    | client_error e ↦ some (failed (concat (lit "Failed to start query: " ∷ e ∷ [])) none)
    | botocore_error e ↦ some (failed e none)
    | response r ↦ after_start r max_timeout
  ]

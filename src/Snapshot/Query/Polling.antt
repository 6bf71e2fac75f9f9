-- ===== src/Snapshot/Query/Polling.antt =====
-- The polling loop ends, and what a result holds.
use mathlib.Core.Path.{subst}
use native.Mathlib.Numerals.{add-one}
use kiro_usage_pipeline.Base.{
  ℕ, zero, suc, ◌+◌, ◌*◌, ◌≤◌, ◌<◌, true, Option, none, some, [], ◌∷◌, ◌≡◌, refl, ◌⊎◌, arith, lit,
  concat, contains, text_eq, inl,
}
use kiro_usage_pipeline.Value.{Value, Fields}
use kiro_usage_pipeline.Value.Dict.{get_or_null}
use kiro_usage_pipeline.Value.Show.{show}
use kiro_usage_pipeline.Snapshot.Query.{
  QueryRequest, Reply, response, client_error, botocore_error, PollResponse, Logs, QueryResult,
  terminal_statuses, failed, after_poll, poll_loop, after_start, execute_cloudwatch_query,
}

-- `time.sleep(1)` suspends for a second at least, and the clock is not set back: neither before
-- the first test of the loop, nor between one test and the next.
abbrev pub Sleeps : Logs → Type 0
Sleeps logs =
    (logs.clock 0 ≤ logs.clock 1)
    × ((n : ℕ) → logs.clock (n + 1) + 1000000 ≤ logs.clock (n + 1 + 1))

-- Only a query that came to an end has results.
abbrev pub HasNoStrayResults : Option QueryResult → Type 0
HasNoStrayResults none = ⊥
HasNoStrayResults (some r) = (r.results ≡ []) ⊎ (contains terminal_statuses r.status ≡ true)

after_poll-HasNoStrayResults :
    (query_id : Value) (r : Reply PollResponse)
    → (after_poll query_id r ≡ none) ⊎ HasNoStrayResults (after_poll query_id r)
unfolding after_poll
after_poll-HasNoStrayResults query_id r = ground arith

module _ (logs : Logs) (sleeps : Sleeps logs) where
  clock-ge : (n : ℕ) → logs.clock 0 + n * 1000000 ≤ logs.clock (n + 1)
  clock-ge zero = omega (arith, sleeps.0)
  clock-ge (suc n) =
      subst (λ m. logs.clock 0 + m * 1000000 ≤ logs.clock (m + 1)) (add-one n)
        (omega (arith, clock-ge n, sleeps.1 n))

  poll_loop_total :
      (fuel : ℕ) (query_id : Value) (deadline max_timeout n : ℕ)
      → 0 < fuel
      → deadline + 1000000 ≤ logs.clock 0 + (n + fuel) * 1000000
      → HasNoStrayResults (poll_loop logs fuel query_id deadline max_timeout n)
  unfolding poll_loop
  poll_loop_total zero query_id deadline max_timeout n pos h = absurd (omega arith)
  poll_loop_total (suc fuel) query_id deadline max_timeout n pos h = ground (
    arith,
    clock-ge n,
    after_poll-HasNoStrayResults query_id (logs.poll (show query_id) n),
    poll_loop_total fuel query_id deadline max_timeout (n + 1),
  )

  after_start_total :
      (r : Fields) (max_timeout : ℕ) → HasNoStrayResults (after_start logs r max_timeout)
  unfolding after_start
  after_start_total r max_timeout = ground (
    arith,
    poll_loop_total (max_timeout + 1) (get_or_null (lit "queryId") r)
        (logs.clock 0 + max_timeout * 1000000) max_timeout 0 (omega arith) (omega arith),
  )

-- A query always ends in a result, within the given rounds of polling, and a result that is not
-- that of a finished query has no lines.
pub execute_cloudwatch_query_total :
    (logs : Logs) (request : QueryRequest) (max_timeout : ℕ)
    → Sleeps logs
    → HasNoStrayResults (execute_cloudwatch_query logs request max_timeout)
unfolding execute_cloudwatch_query
execute_cloudwatch_query_total logs request max_timeout sleeps =
    elim (logs.start request)
      as (λ reply. HasNoStrayResults (elim reply [
        | client_error e ↦ some (failed (concat (lit "Failed to start query: " ∷ e ∷ [])) none)
        | botocore_error e ↦ some (failed e none)
        | response r ↦ after_start logs r max_timeout
      ])) [
        | client_error e ↦ inl refl
        | botocore_error e ↦ inl refl
        | response r ↦ after_start_total logs sleeps r max_timeout
      ]

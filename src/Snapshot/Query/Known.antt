-- ===== src/Snapshot/Query/Known.antt =====
-- The statuses that a query ends with.
use kiro_usage_pipeline.Base.{
  ℕ, zero, suc, ◌+◌, ◌*◌, true, Option, none, some, List, [], ◌∷◌, Text, lit, contains, Bool-cases,
  text_eq, nat_eq, ◌≡◌, ◌⊎◌, refl, arith, inl, inr, concat,
}
use kiro_usage_pipeline.Value.{Value, Fields}
use kiro_usage_pipeline.Value.Dict.{get_or_null}
use kiro_usage_pipeline.Value.Show.{show}
use kiro_usage_pipeline.Snapshot.Query.{
  QueryResult, QueryRequest, Logs, Reply, response, client_error, botocore_error, PollResponse,
  or_text, terminal_statuses, failed, after_poll, poll_loop, after_start, execute_cloudwatch_query,
}

abbrev pub known_statuses : List Text
known_statuses = lit "Error" ∷ lit "Polling Timeout" ∷ terminal_statuses

pub known_cases :
    (status : Text)
    → contains known_statuses status ≡ true
    → (status ≡ lit "Error")
      ⊎ ((status ≡ lit "Polling Timeout")
          ⊎ ((status ≡ lit "Complete") ⊎ ((status ≡ lit "Failed") ⊎ (status ≡ lit "Cancelled"))))
known_cases status h = ground arith

abbrev pub IsKnown : Option QueryResult → Type 0
IsKnown none = Unit
IsKnown (some r) = contains known_statuses r.status ≡ true

known_error : contains known_statuses (lit "Error") ≡ true
unfolding lit text_eq
known_error = refl

known_timeout : contains known_statuses (lit "Polling Timeout") ≡ true
unfolding lit text_eq
known_timeout = refl

known_terminal : (s : Text) → contains terminal_statuses s ≡ true → contains known_statuses s ≡ true
known_terminal s h = ground arith

after_poll-IsKnown : (query_id : Value) (r : Reply PollResponse) → IsKnown (after_poll query_id r)
unfolding after_poll
after_poll-IsKnown query_id (client_error e) = known_error
after_poll-IsKnown query_id (botocore_error e) = known_error
after_poll-IsKnown query_id (response r) =
    let status = or_text r.status (lit "Unknown") in
    elim (Bool-cases (contains terminal_statuses status)) [
      | inl e ↦ rw e (known_terminal status e)
      | inr e ↦ rw e tt
    ]

module _ (logs : Logs) where
  poll_loop-IsKnown :
      (fuel : ℕ) (query_id : Value) (deadline max_timeout n : ℕ)
      → IsKnown (poll_loop logs fuel query_id deadline max_timeout n)
  unfolding poll_loop
  poll_loop-IsKnown zero query_id deadline max_timeout n = tt
  poll_loop-IsKnown (suc fuel) query_id deadline max_timeout n = ground (
    arith,
    known_timeout,
    after_poll-IsKnown query_id (logs.poll (show query_id) n),
    poll_loop-IsKnown fuel query_id deadline max_timeout (n + 1),
  )

  after_start-IsKnown : (r : Fields) (max_timeout : ℕ) → IsKnown (after_start logs r max_timeout)
  unfolding after_start
  after_start-IsKnown r max_timeout = ground (
    arith,
    known_error,
    poll_loop-IsKnown (max_timeout + 1) (get_or_null (lit "queryId") r)
        (logs.clock 0 + max_timeout * 1000000) max_timeout 0,
  )

  pub execute_cloudwatch_query-IsKnown :
      (request : QueryRequest) (max_timeout : ℕ)
      → IsKnown (execute_cloudwatch_query logs request max_timeout)
  unfolding execute_cloudwatch_query
  execute_cloudwatch_query-IsKnown request max_timeout =
      elim (logs.start request)
        as (λ reply. IsKnown (elim reply [
          | client_error e ↦ some (failed (concat (lit "Failed to start query: " ∷ e ∷ [])) none)
          | botocore_error e ↦ some (failed e none)
          | response r ↦ after_start logs r max_timeout
        ])) [
          | client_error e ↦ known_error
          | botocore_error e ↦ known_error
          | response r ↦ after_start-IsKnown r max_timeout
        ]

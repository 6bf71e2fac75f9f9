-- ===== src/Status/Assessment/Policy.antt =====
-- The time-window policy and the order of the checks.
use kiro_usage_pipeline.Base.{
  ℕ, ◌≤◌, ◌<◌, Bool, ◌&&◌, List, [], ◌∷◌, ◌≡◌, ◌≢◌, arith, All, Text, lit, ltb, if◌then◌else◌,
}
use kiro_usage_pipeline.Status.Assessment.{
  StatusCheckResult, Verdict, active, ready, error_or_pending, Query, latest, assess,
}

ready≢active : ◌≢◌ {A = Text} (lit "READY") (lit "ACTIVE")
unfolding lit
ready≢active = cc

error≢active : ◌≢◌ {A = Text} (lit "ERROR") (lit "ACTIVE")
unfolding lit
error≢active = cc

pub data State : Type 0 where
  is_active is_ready is_error is_pending : State

-- The state that a renderer reports for a verdict.
abbrev pub state : Verdict → State
state (active _) = is_active
state (ready _ _) = is_ready
state (error_or_pending _ _ e) = if e.has_events then is_error else is_pending

-- The first state whose check is positive.
abbrev pub first_confirmed : List (Bool × State) → State
first_confirmed [] = is_pending
first_confirmed ((b, s) ∷ rest) = if b then s else first_confirmed rest

module _ (check_status : Query → StatusCheckResult) (created_at requested_start query_end : ℕ) where
  abbrev has : Text → ℕ → Bool
  has status start =
      (check_status (record { status = status; start = start; end = query_end })).has_events

  -- The state reported is the first of ACTIVE, READY and ERROR that has events, PENDING if none
  -- has. ACTIVE is looked for from the later of the creation and the requested start, and not at
  -- all where that leaves no time; READY and ERROR are looked for in the whole window.
  pub assess-state :
      state (assess check_status created_at requested_start query_end).verdict
      ≡ first_confirmed (
          (
            ltb (latest created_at requested_start) query_end
                && has (lit "ACTIVE") (latest created_at requested_start),
            is_active,
          )
          ∷ (has (lit "READY") requested_start, is_ready)
          ∷ (has (lit "ERROR") requested_start, is_error)
          ∷ [])
  unfolding assess
  assess-state = ground arith

  abbrev pub IsWithin : Query → Type 0
  IsWithin q =
      (requested_start ≤ q.start)
      × (q.start < q.end)
      × (q.end ≡ query_end)
      × (q.status ≡ lit "ACTIVE" → created_at ≤ q.start)

  -- Every status query covers a window that is not empty and lies in the requested one, and an
  -- ACTIVE query does not reach back before the instrumentation was created.
  pub assess-IsWithin :
      requested_start < query_end
      → All IsWithin (assess check_status created_at requested_start query_end).queries
  unfolding assess
  assess-IsWithin h = ground (arith, ready≢active, error≢active)

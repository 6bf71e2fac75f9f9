-- ===== src/Status/Assessment.antt =====
-- di_status_assessment.py (.pi/skills/aws-observability/scripts): the consolidated check. Instants
-- are in microseconds and UTC, so that `astimezone` keeps them. The callback is a function of its
-- three arguments; since every call of it differs in the status, it may answer each call as it likes.
pub mod Policy
use kiro_usage_pipeline.Base.{
  ℕ, Bool, true, false, Option, none, some, List, [], ◌∷◌, Text, lit, concat, ltb, if◌then◌else◌,
}
use kiro_usage_pipeline.Value.{Value}
use kiro_usage_pipeline.Value.Time.{strftime}

pub record TimeWindow : Type 0 where
  pub created_at : Text
  pub requested_start : Text
  pub active_query_start : Text
  pub query_end : Text

pub record StatusCheckResult : Type 0 where
  pub has_events : Bool
  pub events : List Value
  pub error : Option Text

pub data Verdict : Type 0 where
  active : StatusCheckResult → Verdict
  ready : StatusCheckResult → StatusCheckResult → Verdict
  error_or_pending : StatusCheckResult → StatusCheckResult → StatusCheckResult → Verdict

-- One call of `check_status`.
pub record Query : Type 0 where
  pub status : Text
  pub start : ℕ
  pub end : ℕ

pub record Assessment : Type 0 where
  pub verdict : Verdict
  pub window : TimeWindow
  -- The calls made, in order.
  pub queries : List Query

abbrev pub latest : ℕ → ℕ → ℕ
latest a b = if ltb b a then a else b

abbrev pub skipped : TimeWindow → StatusCheckResult
skipped w = record {
  has_events = false;
  events = [];
  error = some (
      concat (
        lit "Skipped: ACTIVE query window is empty after applying created_at clamp (start="
        ∷ w.active_query_start
        ∷ lit ", end="
        ∷ w.query_end
        ∷ lit ")"
        ∷ []));
}

abbrev pub time_window : ℕ → ℕ → ℕ → TimeWindow
time_window created_at requested_start query_end = record {
  created_at = strftime created_at;
  requested_start = strftime requested_start;
  active_query_start = strftime (latest created_at requested_start);
  query_end = strftime query_end;
}

module _ (check_status : Query → StatusCheckResult) where
  -- The READY and ERROR checks, after an ACTIVE check that found nothing.
  unfoldable pub after_active : ℕ → ℕ → StatusCheckResult → Verdict × List Query
  after_active requested_start query_end act =
      let ready_query : Query = record {
        status = lit "READY";
        start = requested_start;
        end = query_end;
      } in
      let error_query : Query = record {
        status = lit "ERROR";
        start = requested_start;
        end = query_end;
      } in
      if (check_status ready_query).has_events
      then (ready act (check_status ready_query), ready_query ∷ [])
      else (
        error_or_pending act (check_status ready_query) (check_status error_query),
        ready_query ∷ error_query ∷ [],
      )

  -- What follows the ACTIVE check.
  unfoldable pub concluded : ℕ → ℕ → StatusCheckResult → Verdict × List Query
  concluded requested_start query_end act =
      if act.has_events then (active act, []) else after_active requested_start query_end act

  unfoldable pub assess : ℕ → ℕ → ℕ → Assessment
  unfolding after_active concluded
  assess created_at requested_start query_end =
      let window = time_window created_at requested_start query_end in
      let start = latest created_at requested_start in
      let active_query : Query = record { status = lit "ACTIVE"; start = start; end = query_end } in
      if ltb start query_end
      then (let (verdict, more) = concluded requested_start query_end (check_status active_query) in
          record { verdict = verdict; window = window; queries = active_query ∷ more })
      else (let (verdict, more) = concluded requested_start query_end (skipped window) in
          record { verdict = verdict; window = window; queries = more })

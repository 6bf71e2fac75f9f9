-- ===== src/Status/Rendering/Overall.antt =====
-- di_status_rendering.py: the texts of the consolidated check.
pub mod States
use kiro_usage_pipeline.Base.{
  ℕ, zero, suc, ◌+◌, Bool, true, false, ◌&&◌, List, [], ◌∷◌, ◌++◌, length, Text, lit, concat,
  without_suffix, ltb, ◌==◌, nat_eq, text_eq, if◌then◌else◌,
}
use kiro_usage_pipeline.Value.{Value, str}
use kiro_usage_pipeline.Value.Dict.{get_or}
use kiro_usage_pipeline.Value.Show.{show}
use kiro_usage_pipeline.Region.{resolve_snapshot_log_group}
use kiro_usage_pipeline.Crud.Rendering.{fields_of}
use kiro_usage_pipeline.Status.Assessment.{
  TimeWindow, StatusCheckResult, Verdict, active, ready, error_or_pending,
}
use kiro_usage_pipeline.Status.Rendering.{event_time, render_status_section}

-- What all three texts repeat.
pub record Common : Type 0 where
  pub location_hash : Text
  pub service : Text
  pub environment : Text
  pub normalized_type : Text
  pub window : TimeWindow

-- The first `k` items, reversed in front of `acc`.
oldest_first : ℕ → List Value → List Value → List Value
oldest_first zero acc events = acc
oldest_first (suc k) acc [] = acc
oldest_first (suc k) acc (e ∷ es) = oldest_first k (e ∷ acc) es

-- The label of item `n` of `total`: the last test that holds gives it.
abbrev label : ℕ → ℕ → Text
label n total =
    if (n + 1 == total) && ltb 0 n
    then lit " (most recent)"
    else if n == 0
    then lit " (oldest, try first)"
    else []

tip_lines : ℕ → ℕ → List Value → Text
unfolding nat_eq
tip_lines n total [] = []
tip_lines n total (event ∷ more) = concat (
    lit "  - status_timestamp=\""
    ∷ event_time (fields_of event) []
    ∷ lit "\""
    ∷ label n total
    ∷ lit "\n"
    ∷ tip_lines (n + 1) total more
    ∷ [])

unfoldable pub query_tip : Text → List Value → Text
unfolding oldest_first tip_lines
query_tip service events =
    let oldest = oldest_first 5 [] events in
    concat (
      lit
        "SNAPSHOT QUERY TIP: Try these timestamps with search_snapshots_for_status_event\n  (log group: \""
      ∷ resolve_snapshot_log_group service
      ∷ lit "\")\n  Oldest first — older events are more likely to have snapshots ingested:\n"
      ∷ tip_lines 0 (length oldest) oldest
      ∷ lit "\n"
      ∷ [])

abbrev pub active_line : Text
active_line = lit "OVERALL STATUS: ACTIVE ✓ (breakpoint is being hit)\n"

abbrev pub not_confirmed_line : Text
not_confirmed_line = lit "OVERALL STATUS: ACTIVE not confirmed yet\n"

abbrev pub ready_line : Text
ready_line = lit "OVERALL STATUS: READY (waiting for traffic)\n"

unfoldable pub active_section : Common → StatusCheckResult → Text
active_section c act = concat (
    lit "CONSOLIDATED STATUS CHECK\n\nINSTRUMENTATION INFO:\n- LocationHash: "
    ∷ c.location_hash
    ∷ lit "\n- Service: "
    ∷ c.service
    ∷ lit "\n- Environment: "
    ∷ c.environment
    ∷ lit "\n- Type: "
    ∷ c.normalized_type
    ∷ lit "\n\nTIME RANGE:\n- Created At: "
    ∷ c.window.created_at
    ∷ lit "\n- Requested Start: "
    ∷ c.window.requested_start
    ∷ lit "\n- ACTIVE Query Start: "
    ∷ c.window.active_query_start
    ∷ lit "\n- Query End: "
    ∷ c.window.query_end
    ∷ lit "\n\n"
    ∷ render_status_section (lit "ACTIVE") c.window.active_query_start c.window.query_end
        act.has_events act.events act.error false
    ∷ lit "\n"
    ∷ [])

unfoldable pub render_consolidated_active_status_output : Common → StatusCheckResult → Text
unfolding query_tip
render_consolidated_active_status_output c act =
    active_section c act
    ++ (if act.has_events
        then query_tip c.service act.events ++ active_line
        else not_confirmed_line)

unfoldable pub ready_section : Common → StatusCheckResult → Text
ready_section c r =
    render_status_section (lit "READY") c.window.requested_start c.window.query_end r.has_events
      r.events r.error false

unfoldable pub render_consolidated_ready_status_output :
    Common → StatusCheckResult → StatusCheckResult → Text
render_consolidated_ready_status_output c act r =
    without_suffix (render_consolidated_active_status_output c act) not_confirmed_line
    ++ (ready_section c r ++ (lit "\n" ++ ready_line))

unfoldable pub first_cause : List Value → Value
first_cause [] = str (lit "Unknown")
first_cause (event ∷ _) = get_or (lit "ErrorCause") (str (lit "Unknown")) (fields_of event)

-- `error_cause == "…"`, for a value that may be no text.
abbrev is_text : Value → Text → Bool
is_text (str s) t = s == t
is_text _ t = false

abbrev advice : Value → Text
advice cause =
    if is_text cause (lit "FILE_NOT_FOUND")
    then lit "- Verify file_path is correct\n"
    else if is_text cause (lit "METHOD_NOT_FOUND")
    then lit
        "- Verify method_name and code_unit are correct\n- Check if the function is loaded at runtime\n"
    else if is_text cause (lit "LINE_NOT_EXECUTABLE")
    then lit "- Verify line_number points to executable code (not comment/blank/declaration)\n"
    else concat (lit "- Check instrumentation configuration for " ∷ show cause ∷ lit "\n" ∷ [])

abbrev pub error_tail : StatusCheckResult → Text
error_tail e =
    let cause = first_cause e.events in
    concat (lit "ERROR (" ∷ show cause ∷ lit ")\n\nTROUBLESHOOTING:\n" ∷ advice cause ∷ [])

abbrev pub pending_tail : Text
pending_tail =
    lit
      "PENDING (no ACTIVE, READY, or ERROR events yet - wait longer or check configuration)\n\nNOTE: Status events can take 1-2 minutes to appear after creation.\n"

unfoldable pub error_section : Common → StatusCheckResult → Text
error_section c e =
    render_status_section (lit "ERROR") c.window.requested_start c.window.query_end e.has_events
      e.events e.error true

unfoldable pub render_consolidated_error_or_pending_status_output :
    Common → StatusCheckResult → StatusCheckResult → StatusCheckResult → Text
unfolding first_cause text_eq
render_consolidated_error_or_pending_status_output c act r e =
    without_suffix (render_consolidated_active_status_output c act) not_confirmed_line
    ++ (lit "\n"
        ++ (ready_section c r
            ++ (lit "\n"
                ++ (error_section c e
                    ++ (lit "\nOVERALL STATUS: "
                        ++ (if e.has_events then error_tail e else pending_tail))))))

unfoldable pub render_status_assessment : Common → Verdict → Text
render_status_assessment c (active a) = render_consolidated_active_status_output c a
render_status_assessment c (ready a r) = render_consolidated_ready_status_output c a r
render_status_assessment c (error_or_pending a r e) =
    render_consolidated_error_or_pending_status_output c a r e

-- ===== src/Status/Rendering.antt =====
-- di_status_rendering.py (.pi/skills/aws-observability/scripts): the status history, and a section
-- of the consolidated check. A response has the shape that the API documents: a list of dicts.
pub mod Overall
use kiro_usage_pipeline.Base.{
  ℕ, zero, suc, ◌+◌, ◌-◌, Bool, true, false, ◌&&◌, not, Option, none, some, List, [], ◌∷◌, ◌++◌,
  map, length, Text, lit, concat, show_nat, starts_with, ltb, ◌==◌, text_eq, nat_eq, is_empty,
  if◌then◌else◌,
}
use kiro_usage_pipeline.Value.{Value, str, dict, Fields, end, list, nil, truthy}
use kiro_usage_pipeline.Value.Dict.{get_or, get_or_null}
use kiro_usage_pipeline.Value.Show.{show}
use kiro_usage_pipeline.Validation.{or_blank}
use kiro_usage_pipeline.Location.Response.{location_from_response}
use kiro_usage_pipeline.Location.Block.{render_location_block}
use kiro_usage_pipeline.Crud.Rendering.{format_timestamp, dicts, fields_of}
use kiro_usage_pipeline.Crud.Rendering.Configurations.{page_line, hash_of}

abbrev event_time : Fields → Text → Text
event_time event default = format_timestamp (get_or_null (lit "Time") event) default

event_lines : ℕ → List Fields → Text
event_lines n [] = []
event_lines n (event ∷ more) =
    let cause = get_or_null (lit "ErrorCause") event in
    concat (
      lit "- Event "
      ∷ show_nat n
      ∷ lit ": "
      ∷ event_time event (lit "N/A")
      ∷ (if truthy cause then lit " | ErrorCause: " ++ show cause else [])
      ∷ lit "\n"
      ∷ event_lines (n + 1) more
      ∷ [])

abbrev confirmation : Text → List Fields → Text
confirmation status events =
    if is_empty events
    then concat (lit "- Status Confirmation: NOT CONFIRMED (no " ∷ status ∷ lit " events)\n" ∷ [])
    else concat (lit "- Status Confirmation: CONFIRMED (" ∷ status ∷ lit " events present)\n" ∷ [])

history_lines : Text → List Fields → Text
unfolding event_lines
history_lines status [] = concat (lit "- No " ∷ status ∷ lit " status events found\n" ∷ [])
history_lines status (e ∷ es) = event_lines 1 (e ∷ es)

history_body : Fields → Text → Text → Text → Text → Text → Text
unfolding history_lines
history_body response normalized_type service environment requested_status block =
    let events = dicts (get_or (lit "Events") (list nil) response) in
    concat (
      lit "INSTRUMENTATION STATUS\n\nTYPE: "
      ∷ normalized_type
      ∷ lit "\nSERVICE: "
      ∷ show (get_or (lit "Service") (str service) response)
      ∷ lit "\nENVIRONMENT: "
      ∷ show (get_or (lit "Environment") (str environment) response)
      ∷ lit "\nSIGNAL TYPE: "
      ∷ show (get_or (lit "SignalType") (str (lit "SNAPSHOT")) response)
      ∷ lit "\nREQUESTED STATUS FILTER: "
      ∷ requested_status
      ∷ lit "\nCURRENT STATUS: "
      ∷ show (get_or (lit "Status") (str (lit "N/A")) response)
      ∷ lit "\n\nLOCATION:\n"
      ∷ block
      ∷ lit "- Events Returned: "
      ∷ show_nat (length events)
      ∷ lit "\n"
      ∷ confirmation requested_status events
      ∷ lit
          "- Interpretation Rule: Do not treat CURRENT STATUS as confirmed unless STATUS EVENTS contain entries.\n"
      ∷ (if requested_status == lit "ACTIVE" && is_empty events
          then lit
              "- ACTIVE Clarification: Breakpoint is not confirmed as hit yet. If READY is not yet confirmed, check READY first. Otherwise wait for traffic and poll ACTIVE again.\n"
          else [])
      ∷ lit "\nSTATUS EVENTS:\n"
      ∷ history_lines requested_status events
      ∷ page_line (get_or_null (lit "NextToken") response)
      ∷ [])

unfoldable pub render_get_instrumentation_configuration_status_output :
    Fields → Text → Text → Text → Text → Option Text
unfolding history_body
render_get_instrumentation_configuration_status_output response normalized_type service environment
      requested_status =
    elim (render_location_block
      (location_from_response (get_or (lit "Location") (dict end) response)) (hash_of response)) [
        | none ↦ none
        | some block ↦
            some (history_body response normalized_type service environment requested_status block)
      ]

-- At most the first `k` events of a section, numbered.
section_events : ℕ → ℕ → Bool → List Value → Text
section_events zero n include_error_cause events = []
section_events (suc k) n include_error_cause [] = []
section_events (suc k) n include_error_cause (event ∷ more) = concat (
    lit "  - Event "
    ∷ show_nat n
    ∷ lit ": "
    ∷ event_time (fields_of event) (lit "N/A")
    ∷ (if include_error_cause
        then lit " | ErrorCause: "
          ++ show (get_or (lit "ErrorCause") (str (lit "Unknown")) (fields_of event))
        else [])
    ∷ lit "\n"
    ∷ section_events k (n + 1) include_error_cause more
    ∷ [])

abbrev more_events : ℕ → Text
more_events n =
    if ltb 3 n then concat (lit "  - ... and " ∷ show_nat (n - 3) ∷ lit " more\n" ∷ []) else []

abbrev checked_lines : Text → Bool → List Value → Bool → Text
checked_lines title has_events events include_error_cause =
    if has_events
    then concat (
        lit "- Confirmed: YES ("
        ∷ show_nat (length events)
        ∷ lit " event(s))\n"
        ∷ section_events 3 1 include_error_cause events
        ∷ more_events (length events)
        ∷ [])
    else concat (lit "- Confirmed: NO (no " ∷ title ∷ lit " events found)\n" ∷ [])

-- `if error:`; a missing error is blank.
result_lines : Text → Text → Text
result_lines lines [] = lines
result_lines lines (c ∷ s) =
    if starts_with (c ∷ s) (lit "Skipped:")
    then concat (lit "- Check Skipped: " ∷ (c ∷ s) ∷ lit "\n" ∷ [])
    else concat (lit "- Check Failed: " ∷ (c ∷ s) ∷ lit "\n" ∷ [])

unfoldable pub render_status_section :
    Text → Text → Text → Bool → List Value → Option Text → Bool → Text
unfolding section_events result_lines
render_status_section title start_time end_time has_events events error include_error_cause =
    concat (
      title
      ∷ lit " STATUS:\n- Time Window: "
      ∷ start_time
      ∷ lit " to "
      ∷ end_time
      ∷ lit "\n"
      ∷ result_lines (checked_lines title has_events events include_error_cause) (or_blank error)
      ∷ [])

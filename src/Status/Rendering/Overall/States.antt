-- ===== src/Status/Rendering/Overall/States.antt =====
-- The one overall state that the text of the consolidated check reports.
use kiro_usage_pipeline.Base.{
  ℕ, true, false, ◌++◌, ◌≡◌, ◌∙◌, ap, arith, Text, lit, without_suffix, without_suffix-append,
  if◌then◌else◌,
}
use kiro_usage_pipeline.Status.Assessment.{
  StatusCheckResult, Verdict, active, ready, error_or_pending, Query, assess, concluded,
}
use kiro_usage_pipeline.Status.Rendering.Overall.{
  Common, active_line, not_confirmed_line, ready_line, error_tail, pending_tail, active_section,
  ready_section, error_section, query_tip, render_consolidated_active_status_output,
  render_consolidated_ready_status_output, render_consolidated_error_or_pending_status_output,
  render_status_assessment,
}

-- After the ACTIVE section, where neither ACTIVE nor READY is confirmed.
abbrev pub error_text : Common → StatusCheckResult → StatusCheckResult → Text
error_text c r e =
    lit "\n"
    ++ (ready_section c r
        ++ (lit "\n"
            ++ (error_section c e
                ++ (lit "\nOVERALL STATUS: "
                    ++ (if e.has_events then error_tail e else pending_tail)))))

-- The sections of the checks made, and one overall line at their end.
abbrev pub one_state : Common → Verdict → Text
one_state c (active a) = active_section c a ++ (query_tip c.service a.events ++ active_line)
one_state c (ready a r) = active_section c a ++ (ready_section c r ++ (lit "\n" ++ ready_line))
one_state c (error_or_pending a r e) = active_section c a ++ error_text c r e

-- What a verdict says of the ACTIVE check.
abbrev pub IsConcluded : Verdict → Type 0
IsConcluded (active a) = a.has_events ≡ true
IsConcluded (ready a _) = a.has_events ≡ false
IsConcluded (error_or_pending a _ _) = a.has_events ≡ false

interim-cut :
    (c : Common) (a : StatusCheckResult)
    → a.has_events ≡ false
    → without_suffix (render_consolidated_active_status_output c a) not_confirmed_line
      ≡ active_section c a
unfolding render_consolidated_active_status_output
interim-cut c a e =
    ap
      (λ b.
        without_suffix
          (active_section c a
            ++ (if b then query_tip c.service a.events ++ active_line else not_confirmed_line))
          not_confirmed_line)
      e
    ∙ without_suffix-append (active_section c a) not_confirmed_line

active-shown :
    (c : Common) (a : StatusCheckResult)
    → a.has_events ≡ true
    → render_consolidated_active_status_output c a ≡ one_state c (active a)
unfolding render_consolidated_active_status_output
active-shown c a e =
    ap
      (λ b.
        active_section c a
        ++ (if b then query_tip c.service a.events ++ active_line else not_confirmed_line))
      e

render-IsConcluded :
    (c : Common) (v : Verdict) → IsConcluded v → render_status_assessment c v ≡ one_state c v
unfolding render_status_assessment render_consolidated_ready_status_output
    render_consolidated_error_or_pending_status_output
render-IsConcluded c (active a) e = active-shown c a e
render-IsConcluded c (ready a r) e =
    ap (λ s. s ++ (ready_section c r ++ (lit "\n" ++ ready_line))) (interim-cut c a e)
render-IsConcluded c (error_or_pending a r f) e =
    ap (λ s. s ++ error_text c r f) (interim-cut c a e)

module _ (check_status : Query → StatusCheckResult) (created_at requested_start query_end : ℕ) where
  assess-IsConcluded :
      IsConcluded (assess check_status created_at requested_start query_end).verdict
  unfolding assess concluded
  assess-IsConcluded = ground arith

  -- The text for the verdict of an assessment has the sections of the checks made and then one
  -- overall status: that of the verdict. The interim line on ACTIVE is gone wherever READY and
  -- ERROR were looked for.
  pub render_status_assessment-assess :
      (c : Common)
      → render_status_assessment c
          (assess check_status created_at requested_start query_end).verdict
        ≡ one_state c (assess check_status created_at requested_start query_end).verdict
  render_status_assessment-assess c = render-IsConcluded c _ assess-IsConcluded

-- ===== src/Status/Consolidated/Checks.antt =====
-- The consolidated check against a client is the assessment of that client's answers.
use kiro_usage_pipeline.Base.{
  ℕ, ◌<◌, true, false, none, List, [], map, ◌≡◌, refl, ap, ◌∙◌, arith, Text, lit, ltb, leb,
  Bool-cases, inl, inr, if◌then◌else◌,
}
use kiro_usage_pipeline.Gateway
use kiro_usage_pipeline.Gateway.{Client, call}
use kiro_usage_pipeline.Operation.{response, gateway_error, Op}
use kiro_usage_pipeline.Operation.Run.{IsHandled, returned, raised, Execution, run, log}
use kiro_usage_pipeline.Status.Timestamp.{Fromisoformat}
use kiro_usage_pipeline.Status.Assessment.{
  TimeWindow, StatusCheckResult, Verdict, active, ready, error_or_pending, Query, latest, skipped,
  time_window, after_active, concluded, assess,
}
use kiro_usage_pipeline.Status.Rendering.Overall.{render_status_assessment}
use kiro_usage_pipeline.Status.Consolidated.{
  Check, common, status_kwargs, status_result, check_status, after_active_with, after_check,
  assess_with, assessed, checked_window,
}

abbrev pub seen : Gateway.Reply → StatusCheckResult
seen (Gateway.response d) = status_result (response d)
seen (Gateway.aws_error e) = status_result (gateway_error e)
seen (Gateway.raises _) = record { has_events = false; events = []; error = none }

module _ (fromisoformat : Fromisoformat) (q : Check) (c : Client) (word : Text) where
  abbrev status_name : Text
  status_name = lit "get_instrumentation_configuration_status"

  -- The client as a callback.
  abbrev pub answers : Query → StatusCheckResult
  answers asked = seen (call c status_name (status_kwargs word q asked))

  abbrev pub Answers : Type 0
  Answers = (asked : Query) → IsHandled (call c status_name (status_kwargs word q asked))

  run-check_status :
      (asked : Query) (next : StatusCheckResult → Op)
      → Answers
      → run c (check_status fromisoformat q word asked next)
        ≡ log (status_name, status_kwargs word q asked) (run c (next (answers asked)))
  unfolding check_status run
  run-check_status asked next h =
      elim (call c status_name (status_kwargs word q asked))
          as (λ reply.
            IsHandled reply
            → log (status_name, status_kwargs word q asked)
                (elim reply [
                  | Gateway.response d ↦ run c (next (status_result (response d)))
                  | Gateway.aws_error e ↦ run c (next (status_result (gateway_error e)))
                  | Gateway.raises t ↦ record { outcome = raised t; sent = [] }
                ])
              ≡ log (status_name, status_kwargs word q asked) (run c (next (seen reply)))) [
                | Gateway.response d ↦ λ _. refl
                | Gateway.aws_error e ↦ λ _. refl
                | Gateway.raises t ↦ λ x. absurd x
              ]
        (h asked)

  -- What is returned and sent for a verdict and the queries that led to it.
  abbrev pub reported : TimeWindow → Verdict → List Query → Execution
  reported window verdict asked = record {
    outcome = returned (record {
      ok = true;
      text = render_status_assessment (common fromisoformat q word window) verdict;
    });
    sent = map (λ one. (status_name, status_kwargs word q one)) asked;
  }

  module _ (window : TimeWindow) (start stop : ℕ) (h : Answers) where
    abbrev give : Verdict → Op
    give verdict = assessed fromisoformat q word window verdict

    abbrev asking : Text → ℕ → Query
    asking status from = record { status = status; start = from; end = stop }

    run-give : (verdict : Verdict) → run c (give verdict) ≡ reported window verdict []
    unfolding assessed run
    run-give verdict = refl

    run-after_active :
        (act : StatusCheckResult)
        → run c (after_active_with (check_status fromisoformat q word) start stop act give)
          ≡ reported window
              (after_active answers start stop act).0
              (after_active answers start stop act).1
    unfolding after_active_with after_active
    run-after_active act =
        run-check_status (asking (lit "READY") start) _ h
        ∙ elim (Bool-cases ((answers (asking (lit "READY") start)).has_events)) [
          | inl e ↦ rw e (ap (log _) (run-give (ready act (answers (asking (lit "READY") start)))))
          | inr e ↦ rw e (
              ap (log _) (
                run-check_status (asking (lit "ERROR") start) _ h
                ∙ ap (log _) (run-give (error_or_pending act _ _))))
        ]

    run-after_check :
        (act : StatusCheckResult)
        → run c (after_check (check_status fromisoformat q word) start stop give act)
          ≡ reported window
              (concluded answers start stop act).0
              (concluded answers start stop act).1
    unfolding after_check concluded
    run-after_check act =
        elim (act.has_events)
          as (λ b.
            run c (
              if b
              then give (active act)
              else after_active_with (check_status fromisoformat q word) start stop act give)
            ≡ reported window
                (if b then (active act, []) else after_active answers start stop act).0
                (if b then (active act, []) else after_active answers start stop act).1) [
                  | true ↦ run-give (active act)
                  | false ↦ run-after_active act
                ]

  run-assess_with :
      (created_at start stop : ℕ)
      → Answers
      → run c (
          assess_with
            (check_status fromisoformat q word)
            created_at
            start
            stop
            (assessed fromisoformat q word (time_window created_at start stop)))
        ≡ reported
            (time_window created_at start stop)
            (assess answers created_at start stop).verdict
            (assess answers created_at start stop).queries
  unfolding assess_with assess
  run-assess_with created_at start stop h =
      let window = time_window created_at start stop in
      elim (Bool-cases (ltb (latest created_at start) stop)) [
        | inl e ↦ rw e (run-check_status _ _ h ∙ ap (log _) (run-after_check window start stop h _))
        | inr e ↦ rw e (run-after_check window start stop h (skipped window))
      ]

  -- For a client whose status calls answer or fail as AWS calls do, a check of a window that is not
  -- empty returns the text of the verdict that the assessment policy gives on the client's answers,
  -- and sends one request for each query of the policy, in its order.
  pub run-checked_window :
      (created_at start stop : ℕ)
      → Answers
      → start < stop
      → run c (checked_window fromisoformat q word created_at start stop)
        ≡ reported
            (time_window created_at start stop)
            (assess answers created_at start stop).verdict
            (assess answers created_at start stop).queries
  unfolding checked_window
  run-checked_window created_at start stop h valid =
      let not_empty : leb stop start ≡ false = ground arith in
      rw not_empty (run-assess_with created_at start stop h)

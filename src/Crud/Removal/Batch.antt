-- ===== src/Crud/Removal/Batch.antt =====
-- When a batch deletion is requested, and when it succeeds.
use mathlib.Core.Path.{subst}
use kiro_usage_pipeline.Base.{
  ◌≤◌, Bool, true, false, not, Option, none, some, List, [], ◌∷◌, ◌≡◌, ◌≢◌, ◌↔◌, refl, arith, Text,
  lit, strip, length, All,
}
use kiro_usage_pipeline.Value.{Fields}
use kiro_usage_pipeline.Validation.{fold_word}
use kiro_usage_pipeline.Errors.{AwsException, Prose}
use kiro_usage_pipeline.Gateway.{Client}
use kiro_usage_pipeline.Gateway.Allowed.{call-batch_delete}
use kiro_usage_pipeline.Operation.Run.{
  run, Succeeds, RespondsWith, run-request-Succeeds_iff, run-FailsOnRefusal,
}
use kiro_usage_pipeline.Operation.{response, gateway_error, answer_rendered}
use kiro_usage_pipeline.Crud.Guards.{
  Sends, IsTypeWord, Sends-FailsOnRefusal, with_type_iff, checked_iff,
}
use kiro_usage_pipeline.Crud.Rendering.Deletions.{format_batch_delete_response}
use kiro_usage_pipeline.Crud.Removal.Shapes.{IsClean, has_errors-IsClean_iff}
use kiro_usage_pipeline.Crud.Removal.{
  batch_kwargs, arns_target, arns_prose, has_blank, arns_error, checked_arns, batch_delete,
  batch_delete_instrumentations_by_arns, has_errors, batch_replied,
}

has_blank_iff : (arns : List Text) → (has_blank arns ≢ true) ↔ All (λ arn. strip arn ≢ []) arns
unfolding has_blank
has_blank_iff [] = ground arith
has_blank_iff (arn ∷ arns) = ground (arith, has_blank_iff arns)

-- One to fifty ARNs, none of them blank.
abbrev pub AreArns : List Text → Type 0
AreArns arns = (1 ≤ length arns) × (length arns ≤ 50) × All (λ arn. strip arn ≢ []) arns

arns_error_iff : (arns : List Text) → (arns_error arns ≡ none) ↔ AreArns arns
unfolding arns_error
arns_error_iff [] = ground arith
arns_error_iff (arn ∷ arns) = ground (arith, has_blank_iff (arn ∷ arns))

checked_arns-Sends_iff :
    (arns : List Text) (word : Text) → Sends (checked_arns arns word) ↔ AreArns arns
unfolding checked_arns batch_delete
checked_arns-Sends_iff arns word = ground (arith, arns_error_iff arns)

-- A batch deletion by ARNs is requested exactly when the type is BREAKPOINT or PROBE and there are
-- one to fifty ARNs, none of them blank.
pub batch_delete_instrumentations_by_arns-Sends_iff :
    (arns : List Text) (t : Option Text)
    → Sends (batch_delete_instrumentations_by_arns arns t)
      ↔ (IsTypeWord (fold_word t) × AreArns arns)
unfolding batch_delete_instrumentations_by_arns
batch_delete_instrumentations_by_arns-Sends_iff arns t = ground (
  arith,
  with_type_iff Sends Sends-FailsOnRefusal t (checked_arns arns),
  checked_arns-Sends_iff arns (fold_word t),
)

module _ (c : Client) where
  failure-refused :
      (summary : Fields → Option Text) (p : Prose) (e : AwsException)
      → Succeeds (run c (batch_replied summary p (gateway_error e)))
      → ⊥
  unfolding batch_replied run
  failure-refused summary p e h = cc

  rendered-Succeeds_iff :
      (ok : Bool) (o : Option Text)
      → Succeeds (run c (answer_rendered (not ok) o)) ↔ ((ok ≢ true) × (o ≢ none))
  unfolding run
  rendered-Succeeds_iff ok none = (λ h. absurd h, λ (_, r). absurd (r refl))
  rendered-Succeeds_iff true (some t) = (λ h. absurd cc, λ (k, _). absurd (k refl))
  rendered-Succeeds_iff false (some t) = (λ h. (λ e. absurd cc, λ e. absurd cc), λ h. refl)

  summary-Succeeds_iff :
      (summary : Fields → Option Text) (p : Prose) (d : Fields)
      → Succeeds (run c (batch_replied summary p (response d)))
        ↔ ((has_errors d ≢ true) × (summary d ≢ none))
  unfolding batch_replied
  summary-Succeeds_iff summary p d = rendered-Succeeds_iff (has_errors d) (summary d)

  batch_delete-Succeeds_iff :
      (target : Fields) (mode type service environment : Text) (p : Prose)
      → Succeeds (
          run c (
            batch_delete target
              (λ d. format_batch_delete_response mode d type service environment)
              p))
        ↔ RespondsWith IsClean (c.batch_delete_instrumentation_configurations (batch_kwargs target))
  unfolding batch_delete
  batch_delete-Succeeds_iff target mode type service environment p =
      let summary : Fields → Option Text =
        λ d. format_batch_delete_response mode d type service environment in
      subst (λ reply. Succeeds (run c (batch_delete target summary p)) ↔ RespondsWith IsClean reply)
        (call-batch_delete c (batch_kwargs target))
        (run-request-Succeeds_iff c _ _ _ (failure-refused summary p) (λ d.
          let read = summary-Succeeds_iff summary p d in
          let clean = has_errors-IsClean_iff mode d type service environment in
          (λ h. clean.0 (read.0 h), λ h. read.1 (clean.1 h))))

  checked_arns-Succeeds_iff :
      (arns : List Text) (word : Text)
      → Succeeds (run c (checked_arns arns word)) ↔ (
          AreArns arns
          × RespondsWith IsClean (
              c.batch_delete_instrumentation_configurations (batch_kwargs (arns_target word arns))))
  unfolding checked_arns
  checked_arns-Succeeds_iff arns word =
      let checked =
        checked_iff (λ op. Succeeds (run c op)) (run-FailsOnRefusal c) (arns_error arns) _ in
      let valid = arns_error_iff arns in
      let sent =
        batch_delete-Succeeds_iff (arns_target word arns) (lit "ResourceArns") word [] []
          (arns_prose word arns) in
      (
        λ h. let (e, s) = checked.0 h in (valid.0 e, sent.0 s),
        λ (v, r). checked.1 (valid.1 v, sent.1 r),
      )

  -- A batch deletion by ARNs is reported as a success exactly when the type and the ARNs are
  -- accepted and the backend answers with no errors, which are an empty list, text or dict or are
  -- missing, and with deletions that are a list of dicts, an empty text or dict or are missing; the
  -- summary's text is not read.
  pub batch_delete_instrumentations_by_arns-Succeeds_iff :
      (arns : List Text) (t : Option Text)
      → Succeeds (run c (batch_delete_instrumentations_by_arns arns t)) ↔ (
          IsTypeWord (fold_word t)
          × AreArns arns
          × RespondsWith IsClean (
              c.batch_delete_instrumentation_configurations
                (batch_kwargs (arns_target (fold_word t) arns))))
  unfolding batch_delete_instrumentations_by_arns
  batch_delete_instrumentations_by_arns-Succeeds_iff arns t =
      let typing =
        with_type_iff (λ op. Succeeds (run c op)) (run-FailsOnRefusal c) t (checked_arns arns) in
      let checked = checked_arns-Succeeds_iff arns (fold_word t) in
      (
        λ h. let (w, s) = typing.0 h in let (v, r) = checked.0 s in (w, v, r),
        λ (w, v, r). typing.1 (w, checked.1 (v, r)),
      )

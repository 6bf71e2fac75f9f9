-- ===== src/Crud/Removal/Totality.antt =====
-- The deletions always return.
use mathlib.Core.Path.{subst}
use kiro_usage_pipeline.Base.{
  Bool, true, false, not, Option, none, some, List, [], ◌≢◌, refl, sym, Text, lit,
}
use kiro_usage_pipeline.Value.{Fields}
use kiro_usage_pipeline.Validation.{fold_word}
use kiro_usage_pipeline.Location.{Location}
use kiro_usage_pipeline.Errors.{Prose}
use kiro_usage_pipeline.Gateway.{Client}
use kiro_usage_pipeline.Gateway.Allowed.{call-delete, call-batch_delete}
use kiro_usage_pipeline.Operation.{Op, Reply, response, gateway_error, answer, answer_rendered}
use kiro_usage_pipeline.Operation.Run.{
  run, IsHandled, IsHandledWith, IsReturned, run-request-IsReturned, run-request-IsReturned_with,
  run-answer-IsReturned,
}
use kiro_usage_pipeline.Crud.{Target}
use kiro_usage_pipeline.Crud.Guards.{
  with_type_holds, checked_holds, lookup_holds, target_location, with_target_identifier,
}
use kiro_usage_pipeline.Crud.Removal.{
  deleted, send_delete, find_and_delete, delete_instrumentation, has_errors, batch_replied,
  batch_delete, delete_scope, batch_delete_instrumentations_by_scope, arns_error, checked_arns,
  batch_delete_instrumentations_by_arns, arns_target, arns_prose, scope_target, scope_prose,
}
use kiro_usage_pipeline.Crud.Rendering.Deletions.{format_batch_delete_response}
use kiro_usage_pipeline.Crud.Removal.Shapes.{IsListed, format_batch_delete_response_iff}

module _ (c : Client) where
  -- The client's deletion methods answer or fail as AWS calls do, and the lists of an answered batch
  -- deletion, where they are given, are lists of dicts.
  abbrev pub DeletesHandled : Type 0
  DeletesHandled =
      (kwargs : Fields)
      → IsHandled (c.delete_instrumentation_configuration kwargs)
        × IsHandledWith IsListed (c.batch_delete_instrumentation_configurations kwargs)

  abbrev Returns : Op → Type 0
  Returns op = IsReturned (run c op)

  refused : (message : Text) → Returns (answer false message)
  refused message = run-answer-IsReturned c false message

  deleted-IsReturned :
      (t : Target) (word : Text) (location : Location) (reply : Reply)
      → Returns (deleted t word location reply)
  unfolding deleted
  deleted-IsReturned t word location (response d) = run-answer-IsReturned c true _
  deleted-IsReturned t word location (gateway_error e) = run-answer-IsReturned c false _

  answer_rendered-IsReturned :
      (ok : Bool) (o : Option Text) → o ≢ none → Returns (answer_rendered ok o)
  answer_rendered-IsReturned ok none h = absurd (h refl)
  answer_rendered-IsReturned ok (some t) h = run-answer-IsReturned c ok t

  module _ (handled : DeletesHandled) where
    send_delete-IsReturned :
        (t : Target) (word : Text) → Returns (send_delete t word (target_location t))
    unfolding send_delete
    send_delete-IsReturned t word = subst Returns (sym (with_target_identifier t _)) (
        run-request-IsReturned c _ _ _ (subst IsHandled (sym (call-delete c _)) (handled _).0)
          (deleted-IsReturned t word (target_location t)))

    find_and_delete-IsReturned : (t : Target) (word : Text) → Returns (find_and_delete t word)
    unfolding find_and_delete
    find_and_delete-IsReturned t word =
        lookup_holds Returns refused _ t (send_delete t word) (send_delete-IsReturned t word)

    batch_delete-IsReturned :
        (target : Fields) (mode type service environment : Text) (p : Prose)
        → Returns (
            batch_delete target
              (λ d. format_batch_delete_response mode d type service environment)
              p)
    unfolding batch_delete batch_replied
    batch_delete-IsReturned target mode type service environment p =
        run-request-IsReturned_with c _ _ _
          (subst (IsHandledWith IsListed) (sym (call-batch_delete c _)) (handled _).1)
          (λ d listed.
            answer_rendered-IsReturned (not (has_errors d)) _
              ((format_batch_delete_response_iff mode d type service environment).1 listed))
          (λ e. run-answer-IsReturned c false _)

    checked_arns-IsReturned : (arns : List Text) (word : Text) → Returns (checked_arns arns word)
    unfolding checked_arns
    checked_arns-IsReturned arns word = checked_holds Returns refused (arns_error arns) _ (
        batch_delete-IsReturned (arns_target word arns) (lit "ResourceArns") word [] []
          (arns_prose word arns))

    delete_scope-IsReturned :
        (service environment word : Text) → Returns (delete_scope service environment word)
    unfolding delete_scope
    delete_scope-IsReturned service environment word =
        batch_delete-IsReturned (scope_target word service environment) (lit "Scope") word service
          environment (scope_prose word service environment)

    -- Each of the three deletions returns a result, whatever its arguments are, when the client
    -- answers or fails as AWS calls do and the lists of an answered batch deletion, where they are
    -- given, are lists of dicts or empty texts or dicts.
    pub deletions-AreReturned :
        (t : Target) (service environment : Text) (arns : List Text) (type : Option Text)
        → IsReturned (run c (delete_instrumentation t))
          × IsReturned (run c (batch_delete_instrumentations_by_scope service environment type))
          × IsReturned (run c (batch_delete_instrumentations_by_arns arns type))
    unfolding delete_instrumentation batch_delete_instrumentations_by_scope
        batch_delete_instrumentations_by_arns
    deletions-AreReturned t service environment arns type = (
      with_type_holds Returns refused t.instrumentation_type (find_and_delete t)
          (find_and_delete-IsReturned t (fold_word t.instrumentation_type)),
      with_type_holds Returns refused type (delete_scope service environment)
          (delete_scope-IsReturned service environment (fold_word type)),
      with_type_holds Returns refused type (checked_arns arns)
          (checked_arns-IsReturned arns (fold_word type)),
    )

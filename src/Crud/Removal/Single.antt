-- ===== src/Crud/Removal/Single.antt =====
-- When `delete_instrumentation` reports success.
use kiro_usage_pipeline.Base.{◌↔◌, refl, sym, Text}
use kiro_usage_pipeline.Value.{Fields}
use kiro_usage_pipeline.Validation.{fold_word}
use kiro_usage_pipeline.Location.{Location}
use kiro_usage_pipeline.Errors.{AwsException}
use kiro_usage_pipeline.Gateway
use kiro_usage_pipeline.Gateway.{Client, call}
use kiro_usage_pipeline.Location.Lookup.{IsFindable}
use kiro_usage_pipeline.Gateway.Allowed.{call-delete}
use kiro_usage_pipeline.Operation.{response, gateway_error}
use kiro_usage_pipeline.Operation.Run.{
  run, Succeeds, RespondsWith, run-request-Succeeds_iff, run-FailsOnRefusal,
}
use kiro_usage_pipeline.Crud.{Target, target_kwargs}
use kiro_usage_pipeline.Crud.Guards.{
  IsTypeWord, with_type_iff, lookup_iff, with_target_identifier, target_location, target_identifier,
}
use kiro_usage_pipeline.Crud.Removal.{delete_instrumentation, find_and_delete, send_delete, deleted}

deleted-refused :
    (c : Client) (t : Target) (word : Text) (location : Location) (e : AwsException)
    → Succeeds (run c (deleted t word location (gateway_error e)))
    → ⊥
unfolding deleted run
deleted-refused c t word location e h = cc

deleted-Succeeds_iff :
    (c : Client) (t : Target) (word : Text) (location : Location) (d : Fields)
    → Succeeds (run c (deleted t word location (response d))) ↔ Unit {0}
unfolding deleted run
deleted-Succeeds_iff c t word location d = (λ _. tt, λ _. refl)

abbrev pub IsAnswered : Gateway.Reply → Type 0
IsAnswered reply = RespondsWith (λ _. Unit) reply

module _ (c : Client) (t : Target) where
  send_delete-Succeeds_iff :
      (word : Text)
      → Succeeds (run c (send_delete t word (target_location t)))
        ↔ IsAnswered
            (c.delete_instrumentation_configuration (target_kwargs word t (target_identifier t)))
  unfolding send_delete
  send_delete-Succeeds_iff word =
      rw
        (
          with_target_identifier t _,
          sym (call-delete c (target_kwargs word t (target_identifier t))),
        )
        (run-request-Succeeds_iff c _ _ _ (deleted-refused c t word (target_location t))
          (deleted-Succeeds_iff c t word (target_location t)))

  find_and_delete-Succeeds_iff :
      (word : Text)
      → Succeeds (run c (find_and_delete t word)) ↔ (
          IsFindable t.location_hash t.location
          × IsAnswered
              (c.delete_instrumentation_configuration (target_kwargs word t (target_identifier t))))
  unfolding find_and_delete
  find_and_delete-Succeeds_iff word =
      let found =
        lookup_iff (λ op. Succeeds (run c op)) (run-FailsOnRefusal c) _ t (send_delete t word) in
      let sent = send_delete-Succeeds_iff word in
      (λ h. let (f, s) = found.0 h in (f, sent.0 s), λ (f, a). found.1 (f, sent.1 a))

  -- A deletion is reported as a success exactly when the type is BREAKPOINT or PROBE, a hash or a
  -- language and a file path are given, and the backend answers the request for that location.
  pub delete_instrumentation-Succeeds_iff : Succeeds (run c (delete_instrumentation t)) ↔ (
      IsTypeWord (fold_word t.instrumentation_type)
      × IsFindable t.location_hash t.location
      × IsAnswered (
          c.delete_instrumentation_configuration
            (target_kwargs (fold_word t.instrumentation_type) t (target_identifier t))))
  unfolding delete_instrumentation
  delete_instrumentation-Succeeds_iff =
      let typing =
        with_type_iff (λ op. Succeeds (run c op)) (run-FailsOnRefusal c) t.instrumentation_type
          (find_and_delete t) in
      let found = find_and_delete-Succeeds_iff (fold_word t.instrumentation_type) in
      (
        λ h. let (w, s) = typing.0 h in let (f, a) = found.0 s in (w, f, a),
        λ (w, f, a). typing.1 (w, found.1 (f, a)),
      )

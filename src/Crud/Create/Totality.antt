-- ===== src/Crud/Create/Totality.antt =====
-- A create call always returns.
use mathlib.Core.Path.{subst}
use kiro_usage_pipeline.Base.{
  ℕ, true, false, Option, none, some, ◌≡◌, ◌≢◌, [], ◌∷◌, sym, refl, arith, Text, lit, ℤ, pos,
  negsuc,
}
use kiro_usage_pipeline.Value.{
  Value, null, bool, int, float, str, time, list, dict, nil, cons, Fields, end, field, truthy,
}
use kiro_usage_pipeline.Value.Dict.{insert}
use kiro_usage_pipeline.Validation.{fold_word, validate_probe_constraints}
use kiro_usage_pipeline.Location.{Location, code, to_api_payload}
use kiro_usage_pipeline.Location.Inputs.{code_location, parse_create_inputs}
use kiro_usage_pipeline.Location.Outcomes.{parse_create_inputs_code, parse_inputs-IsDecided}
use kiro_usage_pipeline.Location.Block.{render_location_block-is_some}
use kiro_usage_pipeline.Gateway.{Client}
use kiro_usage_pipeline.Gateway.Allowed.{call-create}
use kiro_usage_pipeline.Operation.{
  Op, Reply, response, gateway_error, raises, answer, answer_rendered,
}
use kiro_usage_pipeline.Operation.Run.{
  run, IsHandled, IsReturned, run-request-IsReturned, run-answer-IsReturned,
}
use kiro_usage_pipeline.Crud.{with_location}
use kiro_usage_pipeline.Crud.Guards.{with_type_holds, checked_holds, with_location_holds}
use kiro_usage_pipeline.Crud.Rendering.{Created, filters_line, render_create_success_message}
use kiro_usage_pipeline.Crud.Create.{
  Arguments, add_hours, handle_reply, send, send_with_expiry, build_request, capture_error,
  resolved, typed, create_instrumentation,
}
use kiro_usage_pipeline.Crud.Create.Guards.{IsExpirable}

-- Filters that have a length, or are falsy and are not counted.
abbrev pub AreCountable : Value → Type 0
AreCountable (list _) = Unit
AreCountable (str _) = Unit
AreCountable (dict _) = Unit
AreCountable null = Unit
AreCountable (bool b) = b ≡ false
AreCountable (int n) = n ≡ pos 0
AreCountable (float r) = truthy (float r) ≡ false
AreCountable (time _) = ⊥

filters_line-is_some : (v : Value) → AreCountable v → filters_line v ≢ none
unfolding filters_line
filters_line-is_some (list nil) h = λ e. absurd cc
filters_line-is_some (list (cons _ _)) h = λ e. absurd cc
filters_line-is_some (str []) h = λ e. absurd cc
filters_line-is_some (str (_ ∷ _)) h = λ e. absurd cc
filters_line-is_some (dict end) h = λ e. absurd cc
filters_line-is_some (dict (field _ _ _)) h = λ e. absurd cc
filters_line-is_some null h = λ e. absurd cc
filters_line-is_some (bool b) h = rw h (λ e. absurd cc)
filters_line-is_some (int n) h = rw h (λ e. absurd cc)
filters_line-is_some (float r) h = rw h (λ e. absurd cc)
filters_line-is_some (time _) h = absurd h

render_create_success_message-is_some :
    (d : Fields) (now : ℕ) (m : Created)
    → AreCountable m.attribute_filters
    → render_create_success_message d now m ≢ none
unfolding render_create_success_message
render_create_success_message-is_some d now m h =
    grind (arith, render_location_block-is_some, filters_line-is_some m.attribute_filters h)

add_hours-IsExpirable : (now : ℕ) (n : ℤ) → IsExpirable now (some n) → add_hours now n ≢ none
unfolding add_hours
add_hours-IsExpirable now (pos n) h = ground arith
add_hours-IsExpirable now (negsuc n) h = ground arith

module _ (c : Client) (now : ℕ) (a : Arguments) where
  rendered-IsReturned : (o : Option Text) → o ≢ none → IsReturned (run c (answer_rendered true o))
  rendered-IsReturned none h = absurd (h refl)
  rendered-IsReturned (some t) h = run-answer-IsReturned c true t

  handle_reply-IsReturned :
      (word : Text) (location : Location) (reply : Reply)
      → AreCountable a.attribute_filters
      → IsReturned (run c (handle_reply now a word location reply))
  unfolding handle_reply
  handle_reply-IsReturned word location (response d) countable =
      rendered-IsReturned _ (render_create_success_message-is_some d now _ countable)
  handle_reply-IsReturned word location (gateway_error e) countable =
      run-answer-IsReturned c false _

  -- The client's create method answers or fails as AWS calls do.
  abbrev pub CreatesHandled : Type 0
  CreatesHandled = (kwargs : Fields) → IsHandled (c.create_instrumentation_configuration kwargs)

  module _ (handled : CreatesHandled) (countable : AreCountable a.attribute_filters) where
    send-IsReturned :
        (word : Text) (location : Location) (kwargs : Fields)
        → IsReturned (run c (send now a word location kwargs))
    unfolding send
    send-IsReturned word location kwargs =
        run-request-IsReturned c _ _ _ (subst IsHandled (sym (call-create c _)) (handled _))
          (λ reply. handle_reply-IsReturned word location reply countable)

    send_with_expiry-IsReturned :
        (word : Text) (location : Location) (kwargs : Fields) (hours : Option ℤ)
        → IsExpirable now hours
        → IsReturned (run c (send_with_expiry now a word location kwargs hours))
    unfolding send_with_expiry
    send_with_expiry-IsReturned word location kwargs none h = send-IsReturned word location kwargs
    send_with_expiry-IsReturned word location kwargs (some n) h =
        elim (add_hours now n)
            as (λ o.
              o ≢ none
              → IsReturned (
                  run c (elim o [
                    | none ↦ raises (lit "OverflowError: date value out of range")
                    | some t ↦ send now a word location (insert (lit "ExpiresAt") (time t) kwargs)
                  ]))) [
                    | none ↦ λ x. absurd (x refl)
                    | some t ↦ λ _.
                        send-IsReturned word location (insert (lit "ExpiresAt") (time t) kwargs)
                  ]
          (add_hours-IsExpirable now n h)

    module _ (expirable : IsExpirable now a.ttl_hours) where
      abbrev Returns : Op → Type 0
      Returns op = IsReturned (run c op)

      refused : (message : Text) → Returns (answer false message)
      refused message = run-answer-IsReturned c false message

      build_request-IsReturned :
          (word : Text) → Returns (build_request now a word (code (code_location a.location)))
      unfolding build_request to_api_payload
      build_request-IsReturned word =
          send_with_expiry-IsReturned word (code (code_location a.location)) _ a.ttl_hours expirable

      resolved-IsReturned :
          (word : Text) → Returns (resolved now a word (code (code_location a.location)))
      unfolding resolved
      resolved-IsReturned word =
          checked_holds Returns refused (capture_error now a) _ (build_request-IsReturned word)

      located-IsReturned :
          (word : Text)
          → Returns
              (with_location (parse_create_inputs a.location) (answer false) (resolved now a word))
      located-IsReturned word =
          with_location_holds Returns refused _ _ _ (parse_inputs-IsDecided none a.location true).0
            refused
            (λ location e.
              subst (λ l. Returns (resolved now a word l))
                (sym (parse_create_inputs_code a.location e)) (resolved-IsReturned word))

      typed-IsReturned : (word : Text) → Returns (typed now a word)
      unfolding typed
      typed-IsReturned word =
          checked_holds Returns refused
            (validate_probe_constraints word a.location.language a.location.line_number) _
            (located-IsReturned word)

      -- A create call returns a result, whatever its other arguments and the response are, when the
      -- client answers or fails as AWS calls do, the filters have a length or are falsy, and the
      -- expiry, if one is asked for, is a date that can be written.
      pub create_instrumentation-IsReturned : IsReturned (run c (create_instrumentation now a))
      unfolding create_instrumentation
      create_instrumentation-IsReturned =
          with_type_holds Returns refused a.instrumentation_type (typed now a)
            (typed-IsReturned (fold_word a.instrumentation_type))

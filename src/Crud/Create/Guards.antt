-- ===== src/Crud/Create/Guards.antt =====
-- When `create_instrumentation` sends its request.
use mathlib.Core.Path.{subst}
use kiro_usage_pipeline.Base.{
  ℕ, suc, ◌+◌, ◌*◌, ◌≤◌, ◌<◌, true, false, Option, none, some, ◌≡◌, ◌≢◌, ◌⊎◌, ◌↔◌, arith, Text, lit,
  text_eq, ℤ, pos, negsuc,
}
use kiro_usage_pipeline.Value.{Fields}
use kiro_usage_pipeline.Value.Time.{end_of_time}
use kiro_usage_pipeline.Validation.{fold_word, fold_language, validate_probe_constraints}
use kiro_usage_pipeline.Validation.Names.{IsAcceptable, validate_capture_names_iff}
use kiro_usage_pipeline.Validation.Location.Bindable.{IsGiven, IsBindable}
use kiro_usage_pipeline.Location.{Location, code, to_api_payload}
use kiro_usage_pipeline.Location.Inputs.{code_location, parse_create_inputs}
use kiro_usage_pipeline.Location.Outcomes.{
  parse_create_inputs_iff, parse_create_inputs_code, parse_inputs-IsDecided,
}
use kiro_usage_pipeline.Operation.{answer}
use kiro_usage_pipeline.Crud.{with_location}
use kiro_usage_pipeline.Crud.Guards.{Sends, Sends-FailsOnRefusal, with_type_iff, with_location_iff}
use kiro_usage_pipeline.Crud.Create.{
  Arguments, hour, add_hours, send, send_with_expiry, build_request, capture_error, resolved, typed,
  create_instrumentation,
}

-- The expiry, if one is asked for, is a date that can be written.
abbrev pub IsExpirable : ℕ → Option ℤ → Type 0
IsExpirable now none = Unit
IsExpirable now (some (pos n)) = now + n * hour < end_of_time
IsExpirable now (some (negsuc n)) = suc n * hour ≤ now

abbrev pub IsProbeable : Arguments → Type 0
IsProbeable a =
    (fold_language a.location.language ≢ lit "javascript") × (a.location.line_number ≡ none)

abbrev pub HasCaptures : Arguments → Type 0
HasCaptures a =
    IsAcceptable a.capture_arguments
    × IsAcceptable a.capture_locals
    × ((a.location.line_number ≡ none) ⊎ (a.capture_locals ≢ none))

validate_probe_constraints_iff :
    (word : Text) (a : Arguments)
    → (validate_probe_constraints word a.location.language a.location.line_number ≡ none)
      ↔ ((word ≢ lit "PROBE") ⊎ IsProbeable a)
unfolding validate_probe_constraints
validate_probe_constraints_iff word a = ground arith

breakpoint≢probe : ◌≢◌ {A = Text} (lit "BREAKPOINT") (lit "PROBE")
unfolding lit
breakpoint≢probe = cc

module _ (now : ℕ) (a : Arguments) where
  capture_error_iff : (capture_error now a ≡ none) ↔ HasCaptures a
  unfolding capture_error
  capture_error_iff = ground (
    arith,
    validate_capture_names_iff (lit "capture_arguments") a.capture_arguments,
    validate_capture_names_iff (lit "capture_locals") a.capture_locals,
  )

  send_with_expiry-Sends_iff :
      (word : Text) (location : Location) (kwargs : Fields) (hours : Option ℤ)
      → Sends (send_with_expiry now a word location kwargs hours) ↔ IsExpirable now hours
  unfolding send_with_expiry send add_hours
  send_with_expiry-Sends_iff word location kwargs none = ground arith
  send_with_expiry-Sends_iff word location kwargs (some (pos n)) = ground arith
  send_with_expiry-Sends_iff word location kwargs (some (negsuc n)) = ground arith

  build_request-Sends_iff :
      (word : Text)
      → Sends (build_request now a word (code (code_location a.location)))
        ↔ IsExpirable now a.ttl_hours
  unfolding build_request to_api_payload
  build_request-Sends_iff word = send_with_expiry-Sends_iff word _ _ a.ttl_hours

  resolved-Sends_iff :
      (word : Text)
      → Sends (resolved now a word (code (code_location a.location)))
        ↔ (HasCaptures a × IsExpirable now a.ttl_hours)
  unfolding resolved
  resolved-Sends_iff word = ground (arith, capture_error_iff, build_request-Sends_iff word)

  abbrev IsLocatable : Type 0
  IsLocatable = IsGiven a.location.language × IsGiven a.location.file_path × IsBindable a.location

  located-Sends_iff :
      (word : Text)
      → Sends (with_location (parse_create_inputs a.location) (answer false) (resolved now a word))
        ↔ (IsLocatable × HasCaptures a × IsExpirable now a.ttl_hours)
  located-Sends_iff word =
      let parsed = parse_create_inputs_iff a.location in
      let located =
        with_location_iff Sends Sends-FailsOnRefusal (parse_create_inputs a.location) (answer false)
          (resolved now a word) (parse_inputs-IsDecided none a.location true).0 (λ _ x. x) in
      let sends = resolved-Sends_iff word in
      (
        λ h.
            let (location, e, s) = located.0 h in
            let same : location ≡ code (code_location a.location) =
              parse_create_inputs_code a.location e in
            let (c, x) = sends.0 (subst (λ l. Sends (resolved now a word l)) same s) in
            (parsed.0 (subst (λ l. parse_create_inputs a.location ≡ (some l, none)) same e), c, x),
        λ (l, c, x). located.1 (code (code_location a.location), parsed.1 l, sends.1 (c, x)),
      )

  typed-Sends_iff :
      (word : Text)
      → Sends (typed now a word) ↔ (
          ((word ≢ lit "PROBE") ⊎ IsProbeable a)
          × IsLocatable
          × HasCaptures a
          × IsExpirable now a.ttl_hours)
  unfolding typed
  typed-Sends_iff word =
      ground (arith, validate_probe_constraints_iff word a, located-Sends_iff word)

  -- The request of a create call is sent exactly when the type is BREAKPOINT, or PROBE for a
  -- target that is neither JavaScript nor a line, the location is given and bindable, the capture
  -- lists are acceptable and not missing for a line, and the expiry is a date that can be written.
  pub create_instrumentation-Sends_iff : Sends (create_instrumentation now a) ↔ (
      ((fold_word a.instrumentation_type ≡ lit "BREAKPOINT")
        ⊎ ((fold_word a.instrumentation_type ≡ lit "PROBE") × IsProbeable a))
      × IsLocatable
      × HasCaptures a
      × IsExpirable now a.ttl_hours)
  unfolding create_instrumentation
  create_instrumentation-Sends_iff =
      let word = fold_word a.instrumentation_type in
      let typing = with_type_iff Sends Sends-FailsOnRefusal a.instrumentation_type (typed now a) in
      let sends = typed-Sends_iff word in
      (
        λ h. let (t, s) = typing.0 h in let (p, l, c, x) = sends.0 s in (ground arith, l, c, x),
        λ (t, l, c, x).
            typing.1 (ground arith, sends.1 (ground (arith, breakpoint≢probe), l, c, x)),
      )

-- ===== src/Status/Consolidated/Guards.antt =====
-- The consolidated check as a whole: what it asks first, and what it returns.
use kiro_usage_pipeline.Base.{ℕ, ◌<◌, true, ◌≡◌, ◌↔◌, refl, ap, ◌∙◌, arith, Text, lit, text_eq}
use kiro_usage_pipeline.Value.{time, dict, Fields, end, field, truthy}
use kiro_usage_pipeline.Value.Dict.{get, get_or, get_or_null}
use kiro_usage_pipeline.Validation.{fold_word, is_valid_location_hash}
use kiro_usage_pipeline.Gateway
use kiro_usage_pipeline.Gateway.{Client, call}
use kiro_usage_pipeline.Gateway.Allowed.{call-get}
use kiro_usage_pipeline.Operation.{Op, response}
use kiro_usage_pipeline.Operation.Run.{run, log}
use kiro_usage_pipeline.Crud.Guards.{
  Sends, Sends-FailsOnRefusal, IsTypeWord, with_type_iff, with_type-accepted,
}
use kiro_usage_pipeline.Status.Timestamp.{
  Fromisoformat, aware, parse_iso_timestamp, with_timestamp, after_parse,
}
use kiro_usage_pipeline.Status.Assessment.{assess, time_window}
use kiro_usage_pipeline.Status.History.Guards.{validate_snapshot_signal_iff}
use kiro_usage_pipeline.Status.Consolidated.{
  Check, configuration_kwargs, checked_window, parse_window, created_window, with_created_at,
  configured, fetched, fetch, hashed, signalled, check_instrumentation_status,
}
use kiro_usage_pipeline.Status.Consolidated.Checks.{Answers, answers, reported, run-checked_window}

module _ (fromisoformat : Fromisoformat) (q : Check) where
  hashed-Sends_iff :
      (word : Text)
      → Sends (hashed fromisoformat q word) ↔ (is_valid_location_hash q.location_hash ≡ true)
  unfolding hashed fetch
  hashed-Sends_iff word = ground arith

  signalled-Sends_iff :
      (word : Text)
      → Sends (signalled fromisoformat q word) ↔ (
          (fold_word q.signal_type ≡ lit "SNAPSHOT")
          × (is_valid_location_hash q.location_hash ≡ true))
  unfolding signalled
  signalled-Sends_iff word =
      ground (arith, validate_snapshot_signal_iff q.signal_type, hashed-Sends_iff word)

  -- The consolidated check asks the backend for the configuration exactly when the type is
  -- BREAKPOINT or PROBE, the signal is SNAPSHOT and the location hash is valid.
  pub check_instrumentation_status-Sends_iff :
      Sends (check_instrumentation_status fromisoformat q) ↔ (
        IsTypeWord (fold_word q.instrumentation_type)
        × (fold_word q.signal_type ≡ lit "SNAPSHOT")
        × (is_valid_location_hash q.location_hash ≡ true))
  unfolding check_instrumentation_status
  check_instrumentation_status-Sends_iff =
      let typing =
        with_type_iff Sends Sends-FailsOnRefusal q.instrumentation_type
          (signalled fromisoformat q) in
      let sent = signalled-Sends_iff (fold_word q.instrumentation_type) in
      (
        λ h. let (w, s) = typing.0 h in let (v, r) = sent.0 s in (w, v, r),
        λ (w, v, r). typing.1 (w, sent.1 (v, r)),
      )

  truthy-of_get :
      (d : Fields) {t : ℕ} → get_or_null (lit "CreatedAt") d ≡ time t → truthy (dict d) ≡ true
  unfolding get
  truthy-of_get end h = absurd cc
  truthy-of_get (field k v d) h = refl

  signalled-fetch :
      (word : Text)
      → fold_word q.signal_type ≡ lit "SNAPSHOT"
      → is_valid_location_hash q.location_hash ≡ true
      → signalled fromisoformat q word ≡ fetch fromisoformat q word
  unfolding signalled hashed
  signalled-fetch word s h = ground (arith, (validate_snapshot_signal_iff q.signal_type).1 s)

  parse_window-parsed :
      (word : Text) (next : ℕ → ℕ → Op) {start stop : ℕ}
      → parse_iso_timestamp fromisoformat q.start_time ≡ aware start
      → parse_iso_timestamp fromisoformat q.end_time ≡ aware stop
      → parse_window fromisoformat q word next ≡ next start stop
  unfolding parse_window with_timestamp after_parse
  parse_window-parsed word next e f = rw (e, f) refl

  fetched-checked :
      (word : Text) (d config : Fields) {created_at start stop : ℕ}
      → get_or (lit "Configuration") (dict end) d ≡ dict config
      → get_or_null (lit "CreatedAt") config ≡ time created_at
      → parse_iso_timestamp fromisoformat q.start_time ≡ aware start
      → parse_iso_timestamp fromisoformat q.end_time ≡ aware stop
      → fetched fromisoformat q word (response d)
        ≡ checked_window fromisoformat q word created_at start stop
  unfolding fetched configured with_created_at created_window
  fetched-checked word d config g k e f =
      rw (g, truthy-of_get config k, k) (parse_window-parsed word _ e f)

  module _ (c : Client) where
    abbrev word_given : Text
    word_given = fold_word q.instrumentation_type

    abbrev asked_first : Text × Fields
    asked_first = (lit "get_instrumentation_configuration", configuration_kwargs word_given q)

    fetch-answered :
        (d : Fields)
        → c.get_instrumentation_configuration (configuration_kwargs word_given q)
          ≡ Gateway.response d
        → run c (fetch fromisoformat q word_given)
          ≡ log asked_first (run c (fetched fromisoformat q word_given (response d)))
    unfolding fetch run
    fetch-answered d h = rw (call-get c (configuration_kwargs word_given q) ∙ h) refl

    -- A consolidated check with valid inputs, for an instrumentation that the backend knows with its
    -- time of creation and over a window that is not empty: it asks for the configuration, then
    -- sends one request for each query of the assessment policy, in its order, and returns the
    -- text of the policy's verdict. The client's status calls answer or fail as AWS calls do.
    pub run-check_instrumentation_status :
        (d config : Fields) (created_at start stop : ℕ)
        → IsTypeWord word_given
        → fold_word q.signal_type ≡ lit "SNAPSHOT"
        → is_valid_location_hash q.location_hash ≡ true
        → c.get_instrumentation_configuration (configuration_kwargs word_given q)
          ≡ Gateway.response d
        → get_or (lit "Configuration") (dict end) d ≡ dict config
        → get_or_null (lit "CreatedAt") config ≡ time created_at
        → parse_iso_timestamp fromisoformat q.start_time ≡ aware start
        → parse_iso_timestamp fromisoformat q.end_time ≡ aware stop
        → Answers fromisoformat q c word_given
        → start < stop
        → run c (check_instrumentation_status fromisoformat q)
          ≡ log asked_first (
              reported fromisoformat q c word_given
                (time_window created_at start stop)
                (assess (answers fromisoformat q c word_given) created_at start stop).verdict
                (assess (answers fromisoformat q c word_given) created_at start stop).queries)
    unfolding check_instrumentation_status
    run-check_instrumentation_status d config created_at start stop w s v h g k e f a valid =
        ap (run c) (
          with_type-accepted q.instrumentation_type (signalled fromisoformat q) w
          ∙ signalled-fetch word_given s v)
        ∙ fetch-answered d h
        ∙ ap (λ op. log asked_first (run c op)) (fetched-checked word_given d config g k e f)
        ∙ ap (log asked_first)
            (run-checked_window fromisoformat q c word_given created_at start stop a valid)

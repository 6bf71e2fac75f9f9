-- ===== src/Snapshot/Tools/Refusals.antt =====
-- The refusals of the two operations are failures.
use mathlib.Core.Path.{subst}
use kiro_usage_pipeline.Base.{
  ℕ, ℤ, true, Option, none, some, Text, lit, lstrip, starts_with, is_space, nat_eq, text_eq,
  Bool-cases, ◌≡◌, ◌⊎◌, refl, arith, inl, inr, leb,
}
use kiro_usage_pipeline.Validation.{or_blank, is_valid_location_hash}
use kiro_usage_pipeline.Status.Timestamp.{Fromisoformat, parse_iso_timestamp}
use kiro_usage_pipeline.Snapshot.Filters.{build_base_filters}
use kiro_usage_pipeline.Snapshot.Limits.{Converted, converted, unconverted, overflows, to_int}
use kiro_usage_pipeline.Snapshot.Search.{
  Decision, refused, raises, asks, Search, filter_list, Filtered, unbalanced, filtered,
  append_filters, Span, span, invalid, overflow, span_around, instant_of, explicit_span,
  search_span, sample_query, request, with_limit, limited, with_span, with_event, hash_message,
  with_filters, search_request, sample_request,
}
use kiro_usage_pipeline.Snapshot.Tools.{SampleCall, is_failure}

module _ (float_repr : Text → Text) where
  -- A decision whose error text, if it has one, counts as a failure.
  abbrev pub RefusesLoudly : Decision → Type 0
  RefusesLoudly (refused message) = is_failure float_repr message ≡ true
  RefusesLoudly (raises _) = Unit
  RefusesLoudly (asks _) = Unit

  with_event-RefusesLoudly :
      (o : Option ℕ) (next : ℕ → Decision)
      → ((event : ℕ) → RefusesLoudly (next event))
      → RefusesLoudly (with_event o next)
  unfolding is_failure lstrip is_space starts_with lit nat_eq
  with_event-RefusesLoudly none next h = refl
  with_event-RefusesLoudly (some event) next h = h event

  -- The error texts of a window.
  abbrev SpeaksUp : Span → Type 0
  SpeaksUp (span _ _) = Unit
  SpeaksUp (invalid message) = is_failure float_repr message ≡ true
  SpeaksUp overflow = Unit

  with_span-RefusesLoudly :
      (s : Span) (next : ℕ → ℕ → Decision)
      → SpeaksUp s
      → ((start stop : ℕ) → RefusesLoudly (next start stop))
      → RefusesLoudly (with_span s next)
  with_span-RefusesLoudly (span start stop) next e h = h start stop
  with_span-RefusesLoudly (invalid message) next e h = e
  with_span-RefusesLoudly overflow next e h = tt

  with_limit-RefusesLoudly :
      (o : Converted) (next : ℤ → Decision)
      → ((n : ℤ) → RefusesLoudly (next n))
      → RefusesLoudly (with_limit o next)
  unfolding is_failure lstrip is_space starts_with lit nat_eq
  with_limit-RefusesLoudly (converted n) next h = h n
  with_limit-RefusesLoudly unconverted next h = refl
  with_limit-RefusesLoudly overflows next h = tt

  with_filters-RefusesLoudly :
      (f : Filtered) (next : Text → Decision)
      → ((text : Text) → RefusesLoudly (next text))
      → RefusesLoudly (with_filters f next)
  unfolding is_failure lstrip is_space starts_with lit nat_eq
  with_filters-RefusesLoudly (unbalanced f) next h = refl
  with_filters-RefusesLoudly (filtered text) next h = h text

  hash_message-failure : is_failure float_repr hash_message ≡ true
  unfolding is_failure lstrip is_space starts_with lit nat_eq
  hash_message-failure = refl

  explicit_span-SpeaksUp : (o p : Option ℕ) → SpeaksUp (explicit_span o p)
  unfolding is_failure lstrip is_space starts_with lit nat_eq
  explicit_span-SpeaksUp none p = refl
  explicit_span-SpeaksUp (some start) none = refl
  explicit_span-SpeaksUp (some start) (some stop) = elim (Bool-cases (leb stop start)) [
    | inl e ↦ rw e refl
    | inr e ↦ rw e tt
  ]

  span_around-SpeaksUp : (before after event : ℕ) → SpeaksUp (span_around before after event)
  unfolding span_around
  span_around-SpeaksUp before after event = ground arith

  module _ (fromisoformat : Fromisoformat) where
    search_span-SpeaksUp :
        (event : ℕ) (from until : Option Text)
        → SpeaksUp (search_span fromisoformat event from until)
    unfolding search_span is_failure lstrip is_space starts_with lit nat_eq
    search_span-SpeaksUp event none none = span_around-SpeaksUp 5 60 event
    search_span-SpeaksUp event none (some u) = refl
    search_span-SpeaksUp event (some f) none = refl
    search_span-SpeaksUp event (some f) (some u) =
        explicit_span-SpeaksUp (instant_of (parse_iso_timestamp fromisoformat f))
          (instant_of (parse_iso_timestamp fromisoformat u))

    abbrev appended : Search → Filtered
    appended q =
        append_filters (filter_list q.custom_filters)
          (build_base_filters (or_blank q.location_hash) q.service q.environment)

    limited-RefusesLoudly : (q : Search) (n : ℤ) → RefusesLoudly (limited fromisoformat q n)
    limited-RefusesLoudly q n =
        with_event-RefusesLoudly (instant_of (parse_iso_timestamp fromisoformat q.status_timestamp))
          _
          (λ event.
            with_span-RefusesLoudly (search_span fromisoformat event q.start_time q.end_time) _
              (search_span-SpeaksUp event q.start_time q.end_time)
              (λ start stop. with_filters-RefusesLoudly (appended q) _ (λ text. tt)))

    search_request-RefusesLoudly : (q : Search) → RefusesLoudly (search_request fromisoformat q)
    unfolding search_request
    search_request-RefusesLoudly q = elim (Bool-cases (is_valid_location_hash q.location_hash)) [
      | inl e ↦ rw e (
          with_limit-RefusesLoudly (to_int q.limit) (limited fromisoformat q)
            (limited-RefusesLoudly q))
      | inr e ↦ rw e hash_message-failure
    ]

    sample_request-RefusesLoudly :
        (c : SampleCall)
        → RefusesLoudly (
            sample_request fromisoformat c.service c.environment c.location_hash c.status_timestamp)
    unfolding sample_request
    sample_request-RefusesLoudly c = elim (Bool-cases (is_valid_location_hash c.location_hash)) [
      | inl e ↦ rw e (
          with_event-RefusesLoudly
            (instant_of (parse_iso_timestamp fromisoformat c.status_timestamp))
            (λ event. with_span (span_around 30 90 event) (λ start stop. asks (
              request c.service start stop
                (sample_query (or_blank c.location_hash) c.service c.environment))))
            (λ event.
              with_span-RefusesLoudly (span_around 30 90 event)
                (λ start stop. asks (
                  request c.service start stop
                    (sample_query (or_blank c.location_hash) c.service c.environment)))
                (span_around-SpeaksUp 30 90 event) (λ start stop. tt)))
      | inr e ↦ rw e hash_message-failure
    ]

    refused_message :
        (d : Decision) (message : Text)
        → RefusesLoudly d
        → d ≡ refused message
        → is_failure float_repr message ≡ true
    refused_message d message loud e = subst RefusesLoudly e loud

    -- Every text with which a search or a sample refuses its arguments counts as a failure.
    pub refusals_fail :
        (q : Search) (c : SampleCall) (message : Text)
        → (search_request fromisoformat q ≡ refused message)
          ⊎ (sample_request fromisoformat c.service c.environment c.location_hash c.status_timestamp
              ≡ refused message)
        → is_failure float_repr message ≡ true
    refusals_fail q c message (inl e) =
        refused_message (search_request fromisoformat q) message (search_request-RefusesLoudly q) e
    refusals_fail q c message (inr e) =
        refused_message
          (sample_request fromisoformat c.service c.environment c.location_hash c.status_timestamp)
          message (sample_request-RefusesLoudly c) e

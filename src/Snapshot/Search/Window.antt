-- ===== src/Snapshot/Search/Window.antt =====
-- What the search asks the log service.
use mathlib.Core.Path.{subst}
use kiro_usage_pipeline.Base.{
  ◌↔◌, ℕ, ℤ, [], ◌∷◌, lit, concat, show_int, sym, ◌+◌, ◌*◌, ◌<◌, true, Option, none, some, ◌++◌,
  ◌≡◌, refl, ap, inl, inr, Bool-cases, arith, All, Text,
}
use kiro_usage_pipeline.Value.Time.{second, end_of_time}
use kiro_usage_pipeline.Validation.{or_blank, is_valid_location_hash}
use kiro_usage_pipeline.Status.Timestamp.{Fromisoformat, parse_iso_timestamp}
use kiro_usage_pipeline.Snapshot.Filters.{build_base_filters}
use kiro_usage_pipeline.Snapshot.Limits.{Converted, converted, unconverted, overflows, to_int}
use kiro_usage_pipeline.Snapshot.Search.{
  SnapshotQuery, Decision, refused, raises, asks, Search, filter_list, Filtered, unbalanced,
  filtered, append_filters, Span, span, invalid, overflow, span_around, instant_of, explicit_span,
  search_span, search_query, with_limit, limited, with_span, with_event, with_filters,
  search_request,
}
use kiro_usage_pipeline.Snapshot.Search.Requests.{
  IsOver, IsFor, request-IsOver, request-IsFor, request_unique,
}
use kiro_usage_pipeline.Snapshot.Search.Filters.{
  IsClosed, appended, append_filters-filtered, append_filters_iff,
}

-- What the query of a decision satisfies, if it asks one.
abbrev pub Asked : (SnapshotQuery → Type 0) → Decision → Type 0
Asked P (refused _) = Unit
Asked P (raises _) = Unit
Asked P (asks r) = P r

module _ (P : SnapshotQuery → Type 0) where
  pub with_event-Asked :
      (o : Option ℕ) (next : ℕ → Decision)
      → ((event : ℕ) → o ≡ some event → Asked P (next event))
      → Asked P (with_event o next)
  with_event-Asked none next h = tt
  with_event-Asked (some event) next h = h event refl

  pub with_span-Asked :
      (s : Span) (next : ℕ → ℕ → Decision)
      → ((start stop : ℕ) → s ≡ span start stop → Asked P (next start stop))
      → Asked P (with_span s next)
  with_span-Asked (span start stop) next h = h start stop refl
  with_span-Asked (invalid _) next h = tt
  with_span-Asked overflow next h = tt

  with_limit-Asked :
      (o : Converted) (next : ℤ → Decision)
      → ((n : ℤ) → o ≡ converted n → Asked P (next n))
      → Asked P (with_limit o next)
  with_limit-Asked (converted n) next h = h n refl
  with_limit-Asked unconverted next h = tt
  with_limit-Asked overflows next h = tt

  with_filters-Asked :
      (f : Filtered) (next : Text → Decision)
      → ((text : Text) → f ≡ filtered text → Asked P (next text))
      → Asked P (with_filters f next)
  with_filters-Asked (unbalanced _) next h = tt
  with_filters-Asked (filtered text) next h = h text refl

module _ (fromisoformat : Fromisoformat) where
  -- The window for an event: both ends given and in order, or from five seconds before it to a
  -- minute after it.
  abbrev pub IsWindow : ℕ → Option Text → Option Text → ℕ → ℕ → Type 0
  IsWindow event none none start stop =
      (start + 5 * second ≡ event) × (stop ≡ event + 60 * second) × (stop < end_of_time)
  IsWindow event none (some _) start stop = ⊥
  IsWindow event (some _) none start stop = ⊥
  IsWindow event (some from) (some until) start stop =
      (instant_of (parse_iso_timestamp fromisoformat from) ≡ some start)
      × (instant_of (parse_iso_timestamp fromisoformat until) ≡ some stop)
      × (start < stop)

  explicit_span-eq :
      (o p : Option ℕ) {start stop : ℕ}
      → explicit_span o p ≡ span start stop
      → (o ≡ some start) × (p ≡ some stop) × (start < stop)
  explicit_span-eq none p h = absurd cc
  explicit_span-eq (some a) none h = absurd cc
  explicit_span-eq (some a) (some b) h = ground arith

  search_span-IsWindow :
      (event : ℕ) (from until : Option Text) {start stop : ℕ}
      → search_span fromisoformat event from until ≡ span start stop
      → IsWindow event from until start stop
  unfolding search_span span_around
  search_span-IsWindow event none none h = ground arith
  search_span-IsWindow event none (some u) h = absurd cc
  search_span-IsWindow event (some f) none h = absurd cc
  search_span-IsWindow event (some f) (some u) h =
      explicit_span-eq (instant_of (parse_iso_timestamp fromisoformat f))
        (instant_of (parse_iso_timestamp fromisoformat u)) h

  window-span :
      (event : ℕ) (from until : Option Text) {start stop : ℕ}
      → IsWindow event from until start stop
      → search_span fromisoformat event from until ≡ span start stop
  unfolding search_span span_around
  window-span event none none (before, after, within) = ground arith
  window-span event none (some u) h = absurd h
  window-span event (some f) none h = absurd h
  window-span event (some f) (some u) (s, e, o) = rw (s, e) (ground arith)

  module _ (q : Search) where
    abbrev pub base : Text
    base = build_base_filters (or_blank q.location_hash) q.service q.environment

    abbrev pub whole : Text
    whole = base ++ appended (filter_list q.custom_filters)

    abbrev appended_filters : Filtered
    appended_filters = append_filters (filter_list q.custom_filters) base

    -- The text of the query: the base filter and the custom filters, from the earliest on, and at
    -- most `n` results.
    abbrev pub text_for : ℤ → Text
    text_for n = concat (
        lit "fields @timestamp, @message\n| filter "
        ∷ whole
        ∷ lit "\n| sort @timestamp asc\n| limit "
        ∷ show_int n
        ∷ [])

    -- A query is asked about a valid hash, in the service's log group, over the window for the event,
    -- with the base filter and then the custom filters, each of which passes the check, and with the
    -- limit, which is an integer.
    abbrev pub IsSound : SnapshotQuery → Type 0
    IsSound r =
        (is_valid_location_hash q.location_hash ≡ true)
        × All IsClosed (filter_list q.custom_filters)
        × ((event : ℕ) × (start : ℕ) × (stop : ℕ) × (n : ℤ) × (instant_of
                (parse_iso_timestamp fromisoformat q.status_timestamp)
              ≡ some event)
            × IsWindow event q.start_time q.end_time start stop
            × (to_int q.limit ≡ converted n)
            × IsOver start stop r
            × IsFor q.service (text_for n) r)

    limited-IsSound :
        (n : ℤ)
        → is_valid_location_hash q.location_hash ≡ true
        → to_int q.limit ≡ converted n
        → Asked IsSound (limited fromisoformat q n)
    unfolding search_query
    limited-IsSound n valid number =
        with_event-Asked IsSound (instant_of (parse_iso_timestamp fromisoformat q.status_timestamp))
          _
          (λ event e.
            with_span-Asked IsSound (search_span fromisoformat event q.start_time q.end_time) _
              (λ start stop w. with_filters-Asked IsSound appended_filters _ (λ text f.
                let (closed, joined) =
                  append_filters-filtered (filter_list q.custom_filters) base f in
                (
                  valid,
                  closed,
                  (
                    event,
                    start,
                    stop,
                    n,
                    e,
                    search_span-IsWindow event q.start_time q.end_time w,
                    number,
                    request-IsOver q.service start stop text,
                    rw joined (request-IsFor q.service start stop (text_for n)),
                  ),
                ))))

    search_request-IsSound : Asked IsSound (search_request fromisoformat q)
    unfolding search_request
    search_request-IsSound = elim (Bool-cases (is_valid_location_hash q.location_hash)) [
      | inl valid ↦ rw valid (
          with_limit-Asked IsSound (to_int q.limit) (limited fromisoformat q)
            (λ n number. limited-IsSound n valid number))
      | inr bad ↦ rw bad tt
    ]

    search_request-asks : {r : SnapshotQuery} → IsSound r → search_request fromisoformat q ≡ asks r
    unfolding search_request search_query
    search_request-asks {r}
          (valid, closed, (event, start, stop, n, e, w, number, over, for_service)) =
        rw
          (
            valid,
            number,
            e,
            window-span event q.start_time q.end_time w,
            (append_filters_iff (filter_list q.custom_filters) base).1 closed,
          )
          (ap asks (sym (request_unique q.service start stop (text_for n) r over for_service)))

    pub search_request_iff :
        (r : SnapshotQuery) → (search_request fromisoformat q ≡ asks r) ↔ IsSound r
    search_request_iff r =
        (λ h. subst (Asked IsSound) h search_request-IsSound, search_request-asks)

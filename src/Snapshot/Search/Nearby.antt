-- ===== src/Snapshot/Search/Nearby.antt =====
-- What a request for a sample asks the log service.
use mathlib.Core.Path.{subst}
use kiro_usage_pipeline.Base.{
  ◌↔◌, ℕ, ◌+◌, ◌*◌, ◌<◌, true, Option, some, ◌++◌, ◌≡◌, sym, ap, inl, inr, Bool-cases, arith, Text,
  lit,
}
use kiro_usage_pipeline.Value.Time.{second, end_of_time}
use kiro_usage_pipeline.Validation.{or_blank, is_valid_location_hash}
use kiro_usage_pipeline.Status.Timestamp.{Fromisoformat, parse_iso_timestamp}
use kiro_usage_pipeline.Snapshot.Filters.{build_base_filters}
use kiro_usage_pipeline.Snapshot.Search.Requests.{
  IsOver, IsFor, request-IsOver, request-IsFor, request_unique,
}
use kiro_usage_pipeline.Snapshot.Search.{
  SnapshotQuery, asks, span, span_around, instant_of, sample_query, with_span, request,
  sample_request,
}
use kiro_usage_pipeline.Snapshot.Search.Window.{Asked, with_event-Asked, with_span-Asked}

span_around_iff :
    (before after event start stop : ℕ)
    → (span_around before after event ≡ span start stop)
      ↔ ((start + before * second ≡ event) × (stop ≡ event + after * second) × (stop < end_of_time))
unfolding span_around
span_around_iff before after event start stop = ground arith

module _ (fromisoformat : Fromisoformat) (service environment : Text) (location_hash : Option Text)
    (status_timestamp : Text) where
  -- The text of the query: the base filter, from the latest on, and one result.
  abbrev pub query : Text
  query =
      lit "fields @timestamp, @message\n| filter "
      ++ (build_base_filters (or_blank location_hash) service environment
          ++ lit "\n| sort @timestamp desc\n| limit 1")

  -- The query covers half a minute before the timestamp and a minute and a half after it.
  abbrev pub IsNear : SnapshotQuery → Type 0
  IsNear r =
      (is_valid_location_hash location_hash ≡ true)
      × ((event : ℕ) × (start : ℕ) × (stop : ℕ) × (instant_of
              (parse_iso_timestamp fromisoformat status_timestamp)
            ≡ some event)
          × ((start + 30 * second ≡ event) × (stop ≡ event + 90 * second) × (stop < end_of_time))
          × IsOver start stop r
          × IsFor service query r)

  sample_request-IsNear :
      Asked IsNear (sample_request fromisoformat service environment location_hash status_timestamp)
  unfolding sample_request sample_query
  sample_request-IsNear = elim (Bool-cases (is_valid_location_hash location_hash)) [
    | inl valid ↦ rw valid (
        with_event-Asked IsNear (instant_of (parse_iso_timestamp fromisoformat status_timestamp))
          (λ event.
            with_span (span_around 30 90 event)
              (λ start stop. asks (request service start stop query)))
          (λ event e.
            with_span-Asked IsNear (span_around 30 90 event)
              (λ start stop. asks (request service start stop query))
              (λ start stop w. (
                valid,
                (
                  event,
                  start,
                  stop,
                  e,
                  (span_around_iff 30 90 event start stop).0 w,
                  request-IsOver service start stop query,
                  request-IsFor service start stop query,
                ),
              ))))
    | inr bad ↦ rw bad tt
  ]

  sample_request-asks :
      {r : SnapshotQuery}
      → IsNear r
      → sample_request fromisoformat service environment location_hash status_timestamp ≡ asks r
  unfolding sample_request sample_query
  sample_request-asks {r} (valid, (event, start, stop, e, w, over, for_service)) =
      rw (valid, e, (span_around_iff 30 90 event start stop).1 w)
        (ap asks (sym (request_unique service start stop query r over for_service)))

  pub sample_request_iff :
      (r : SnapshotQuery)
      → (sample_request fromisoformat service environment location_hash status_timestamp ≡ asks r)
        ↔ IsNear r
  sample_request_iff r = (λ h. subst (Asked IsNear) h sample_request-IsNear, sample_request-asks)

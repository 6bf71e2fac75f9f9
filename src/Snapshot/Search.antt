-- ===== src/Snapshot/Search.antt =====
-- di_snapshot_tools.py (.pi/skills/aws-observability/scripts): the two operations up to the query
-- that they send.
pub mod Filters
pub mod Requests
pub mod Window
pub mod Sample
pub mod Nearby
use kiro_usage_pipeline.Base.{
  ℕ, zero, suc, ◌+◌, ◌-◌, ◌*◌, ◌/◌, ◌%◌, Bool, true, false, ◌&&◌, not, Option, none, some, List, [],
  ◌∷◌, ◌++◌, Text, lit, concat, strip, is_empty, ltb, leb, ◌==◌, nat_eq, ℤ, pos, negsuc, show_int,
  if◌then◌else◌,
}
use kiro_usage_pipeline.Value.Time.{second, end_of_time}
use kiro_usage_pipeline.Value.Show.{repr_text}
use kiro_usage_pipeline.Validation.{or_blank, is_valid_location_hash}
use kiro_usage_pipeline.Region.{resolve_snapshot_log_group}
use kiro_usage_pipeline.Status.Timestamp.{
  Parsed, naive, aware, value_error, Fromisoformat, parse_iso_timestamp,
}
use kiro_usage_pipeline.Snapshot.Filters.{build_base_filters}
use kiro_usage_pipeline.Snapshot.Query.{QueryRequest}
use kiro_usage_pipeline.Snapshot.Limits.{
  Limit, Converted, converted, unconverted, overflows, to_int,
}

-- A query to send, with the window that it is for.
pub record SnapshotQuery : Type 0 where
  pub sent : QueryRequest
  pub window_start : ℕ
  pub window_stop : ℕ

-- An error text, an exception, or a query to send.
pub data Decision : Type 0 where
  refused : Text → Decision
  raises : Text → Decision
  asks : SnapshotQuery → Decision

-- `custom_filters`: a single text is taken as a list of one.
pub data CustomFilters : Type 0 where
  missing : CustomFilters
  bare : Text → CustomFilters
  listed : List Text → CustomFilters

pub record Search : Type 0 where
  pub service : Text
  pub environment : Text
  pub location_hash : Option Text
  pub status_timestamp : Text
  pub limit : Limit
  pub custom_filters : CustomFilters
  pub start_time : Option Text
  pub end_time : Option Text

abbrev pub filter_list : CustomFilters → List Text
filter_list missing = []
filter_list (bare f) = f ∷ []
filter_list (listed fs) = fs

-- `s.count('"')`
unfoldable pub count_quotes : Text → ℕ
count_quotes [] = 0
count_quotes (c ∷ s) = let rest = count_quotes s in if c == b'"' then rest + 1 else rest

-- The occurrences of a backslash and a quote, from left to right.
unfoldable pub count_escaped : Text → ℕ
count_escaped [] = 0
count_escaped (c ∷ []) = 0
count_escaped (c ∷ d ∷ s) =
    let after = count_escaped s in
    let next = count_escaped (d ∷ s) in if (c == 92) && (d == b'"') then after + 1 else next

-- There are at least as many quotes as escaped quotes.
unfoldable pub has_open_quote : Text → Bool
has_open_quote f = not ((count_quotes f - count_escaped f) % 2 == 0)

pub data Filtered : Type 0 where
  unbalanced : Text → Filtered
  filtered : Text → Filtered

unfoldable pub append_filters : List Text → Text → Filtered
append_filters [] base = filtered base
append_filters (f ∷ fs) base =
    let same = append_filters fs base in
    let longer = append_filters fs (base ++ (lit " and " ++ strip f)) in
    if is_empty (strip f)
    then same
    else if has_open_quote (strip f)
    then unbalanced (strip f)
    else longer

-- `int(t.timestamp())`: whole seconds since 1970, toward zero.
abbrev pub unix_epoch : ℕ
unix_epoch = 719162 * 86400 * second

abbrev negative : ℕ → ℤ
negative zero = pos 0
negative (suc n) = negsuc n

unfoldable pub epoch_seconds : ℕ → ℤ
epoch_seconds t =
    if ltb t unix_epoch
    then negative ((unix_epoch - t) / second)
    else pos ((t - unix_epoch) / second)

pub data Span : Type 0 where
  span : ℕ → ℕ → Span
  invalid : Text → Span
  overflow : Span

-- `event - timedelta(seconds=before)` and `event + timedelta(seconds=after)`.
unfoldable pub span_around : ℕ → ℕ → ℕ → Span
span_around before after event =
    if ltb event (before * second)
    then overflow
    else if ltb (event + after * second) end_of_time
    then span (event - before * second) (event + after * second)
    else overflow

-- The instant of a parse. `parse_iso_timestamp` is never naive.
abbrev pub instant_of : Parsed → Option ℕ
instant_of (naive t) = some t
instant_of (aware t) = some t
instant_of (value_error _) = none

abbrev pub timestamp_message : Text
timestamp_message =
    lit "ERROR: status_timestamp must be ISO 8601 format like \"2025-02-03T18:42:00Z\""

abbrev together_message : Text
together_message =
    lit
      "ERROR: start_time and end_time must be provided together (both ISO 8601), or both omitted to use the status_timestamp-anchored window"

abbrev window_message : Text
window_message =
    lit "ERROR: start_time and end_time must be ISO 8601 format like \"2025-02-03T18:42:00Z\""

-- Both ends of an explicit window.
abbrev pub explicit_span : Option ℕ → Option ℕ → Span
explicit_span none _ = invalid window_message
explicit_span (some _) none = invalid window_message
explicit_span (some start) (some stop) =
    if leb stop start
    then invalid (lit "ERROR: end_time must be after start_time")
    else span start stop

unfoldable pub search_span : Fromisoformat → ℕ → Option Text → Option Text → Span
search_span fromisoformat event none none = span_around 5 60 event
search_span fromisoformat event none (some _) = invalid together_message
search_span fromisoformat event (some _) none = invalid together_message
search_span fromisoformat event (some start) (some stop) =
    explicit_span (instant_of (parse_iso_timestamp fromisoformat start))
      (instant_of (parse_iso_timestamp fromisoformat stop))

unfoldable pub search_query : Text → ℤ → Text
search_query filters limit = concat (
    lit "fields @timestamp, @message\n| filter "
    ∷ filters
    ∷ lit "\n| sort @timestamp asc\n| limit "
    ∷ show_int limit
    ∷ [])

unfoldable pub sample_query : Text → Text → Text → Text
sample_query location_hash service environment =
    lit "fields @timestamp, @message\n| filter "
    ++ (build_base_filters location_hash service environment
        ++ lit "\n| sort @timestamp desc\n| limit 1")

abbrev pub request : Text → ℕ → ℕ → Text → SnapshotQuery
request service start stop query = record {
  sent = record {
    log_group_name = resolve_snapshot_log_group service;
    start_time = epoch_seconds start;
    end_time = epoch_seconds stop;
    query_string = query;
  };
  window_start = start;
  window_stop = stop;
}

abbrev pub with_span : Span → (ℕ → ℕ → Decision) → Decision
with_span (span start stop) next = next start stop
with_span (invalid message) next = refused message
with_span overflow next = raises (lit "OverflowError: date value out of range")

abbrev pub with_event : Option ℕ → (ℕ → Decision) → Decision
with_event none next = refused timestamp_message
with_event (some event) next = next event

abbrev pub hash_message : Text
hash_message = lit "ERROR: location_hash must be a 16-character hex string"

abbrev pub with_filters : Filtered → (Text → Decision) → Decision
with_filters (unbalanced f) next =
    refused (lit "ERROR: custom_filters has unbalanced quotes: " ++ repr_text f)
with_filters (filtered filters) next = next filters

abbrev pub limit_message : Text
limit_message = lit "ERROR: limit must be an integer"

abbrev pub with_limit : Converted → (ℤ → Decision) → Decision
with_limit (converted n) next = next n
with_limit unconverted next = refused limit_message
with_limit overflows next = raises (lit "OverflowError: cannot convert float infinity to integer")

module _ (fromisoformat : Fromisoformat) where
  -- The steps of a search after its limit is read.
  abbrev pub limited : Search → ℤ → Decision
  limited q limit =
      let base = build_base_filters (or_blank q.location_hash) q.service q.environment in
      with_event (instant_of (parse_iso_timestamp fromisoformat q.status_timestamp)) (λ event.
        with_span (search_span fromisoformat event q.start_time q.end_time) (λ start stop.
          with_filters (append_filters (filter_list q.custom_filters) base)
            (λ filters. asks (request q.service start stop (search_query filters limit)))))

  unfoldable pub search_request : Search → Decision
  search_request q =
      if is_valid_location_hash q.location_hash
      then with_limit (to_int q.limit) (limited q)
      else refused hash_message

  unfoldable pub sample_request : Text → Text → Option Text → Text → Decision
  sample_request service environment location_hash status_timestamp =
      if is_valid_location_hash location_hash
      then with_event (instant_of (parse_iso_timestamp fromisoformat status_timestamp)) (λ event.
        with_span (span_around 30 90 event) (λ start stop.
          asks (
            request service start stop
              (sample_query (or_blank location_hash) service environment))))
      else refused hash_message

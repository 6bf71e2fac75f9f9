-- ===== src/Entry/Snapshots/Arguments.antt =====
-- The arguments of the two snapshot operations, of the types that their signatures are annotated
-- with. `none` is an argument of another type.
use kiro_usage_pipeline.Base.{
  ℕ, pos, Bool, false, Option, none, some, List, [], ◌∷◌, Text, lit, ◌>>=◌,
}
use kiro_usage_pipeline.Value.{
  Value, null, bool, int, float, str, time, list, dict, Items, nil, cons, Fields,
}
use kiro_usage_pipeline.Value.Dict.{get_or, get_or_null}
use kiro_usage_pipeline.Snapshot.Limits.{Limit, whole, truth, written, unlike}
use kiro_usage_pipeline.Snapshot.Search.{CustomFilters, missing, bare, listed, Search}
use kiro_usage_pipeline.Snapshot.Tools.{SampleCall}

abbrev as_text : Value → Option Text
as_text (str s) = some s
as_text _ = none

-- `Optional[str]`
abbrev as_optional : Value → Option (Option Text)
as_optional null = some none
as_optional (str s) = some (some s)
as_optional _ = none

-- The limit takes every value; `none` is a float, whose whole part is not known here.
abbrev as_limit : Value → Option Limit
as_limit null = some unlike
as_limit (bool b) = some (truth b)
as_limit (int n) = some (whole n)
as_limit (float _) = none
as_limit (str s) = some (written s)
as_limit (time _) = some unlike
as_limit (list _) = some unlike
as_limit (dict _) = some unlike

abbrev as_seconds : Value → Option ℕ
as_seconds (int (pos n)) = some n
as_seconds _ = none

abbrev as_bool : Value → Option Bool
as_bool (bool b) = some b
as_bool _ = none

abbrev as_texts : Items → Option (List Text)
as_texts nil = some []
as_texts (cons v vs) = do s ← as_text v; ss ← as_texts vs; some (s ∷ ss)

abbrev as_listed : Option (List Text) → Option CustomFilters
as_listed none = none
as_listed (some fs) = some (listed fs)

abbrev as_filters : Value → Option CustomFilters
as_filters null = some missing
as_filters (str f) = some (bare f)
as_filters (list vs) = as_listed (as_texts vs)
as_filters _ = none

-- The arguments of a search, with the defaults of its signature, and its timeout.
unfoldable pub search_of : Fields → Option (Search × ℕ)
search_of d = do
  service ← as_text (get_or_null (lit "service") d)
  environment ← as_text (get_or_null (lit "environment") d)
  location_hash ← as_optional (get_or_null (lit "location_hash") d)
  status_timestamp ← as_text (get_or_null (lit "status_timestamp") d)
  limit ← as_limit (get_or (lit "limit") (int (pos 10)) d)
  max_timeout ← as_seconds (get_or (lit "max_timeout") (int (pos 30)) d)
  custom_filters ← as_filters (get_or_null (lit "custom_filters") d)
  start_time ← as_optional (get_or_null (lit "start_time") d)
  end_time ← as_optional (get_or_null (lit "end_time") d)
  some (
    record {
      service = service;
      environment = environment;
      location_hash = location_hash;
      status_timestamp = status_timestamp;
      limit = limit;
      custom_filters = custom_filters;
      start_time = start_time;
      end_time = end_time;
    },
    max_timeout,
  )

unfoldable pub sample_of : Fields → Option (SampleCall × ℕ)
sample_of d = do
  service ← as_text (get_or_null (lit "service") d)
  environment ← as_text (get_or_null (lit "environment") d)
  location_hash ← as_optional (get_or_null (lit "location_hash") d)
  status_timestamp ← as_text (get_or_null (lit "status_timestamp") d)
  max_timeout ← as_seconds (get_or (lit "max_timeout") (int (pos 30)) d)
  include_raw ← as_bool (get_or (lit "include_raw") (bool false) d)
  some (
    record {
      service = service;
      environment = environment;
      location_hash = location_hash;
      status_timestamp = status_timestamp;
      include_raw = include_raw;
    },
    max_timeout,
  )

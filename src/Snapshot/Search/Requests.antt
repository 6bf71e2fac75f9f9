-- ===== src/Snapshot/Search/Requests.antt =====
-- What a query over a window says, and that this is all it says.
use kiro_usage_pipeline.Base.{
  ℕ, zero, suc, ◌+◌, ◌*◌, ◌<◌, ◌≤◌, ◌++◌, ◌≡◌, refl, ap, arith, Text, lit, ℤ, pos, negsuc,
}
use kiro_usage_pipeline.Value.Time.{second}
use kiro_usage_pipeline.Region.{resolve_snapshot_log_group}
use kiro_usage_pipeline.Snapshot.Search.{SnapshotQuery, unix_epoch, epoch_seconds, request}

-- The time in seconds since 1970, rounded toward zero.
abbrev pub IsRounded : ℤ → ℕ → Type 0
IsRounded (pos zero) t = (unix_epoch < t + second) × (t < unix_epoch + second)
IsRounded (pos (suc n)) t =
    (unix_epoch + suc n * second ≤ t) × (t < unix_epoch + (suc n + 1) * second)
IsRounded (negsuc n) t = (t + suc n * second ≤ unix_epoch) × (unix_epoch < t + (suc n + 1) * second)

epoch_seconds-IsRounded : (t : ℕ) → IsRounded (epoch_seconds t) t
unfolding epoch_seconds
epoch_seconds-IsRounded t = ground arith

-- A query over a window, in whole seconds.
abbrev pub IsOver : ℕ → ℕ → SnapshotQuery → Type 0
IsOver start stop r =
    (r.window_start ≡ start)
    × (r.window_stop ≡ stop)
    × IsRounded r.sent.start_time start
    × IsRounded r.sent.end_time stop

-- A query with a text in the log group of a service.
abbrev pub IsFor : Text → Text → SnapshotQuery → Type 0
IsFor service text r =
    (r.sent.log_group_name ≡ lit "/aws/service-events/" ++ service) × (r.sent.query_string ≡ text)

pub request-IsOver :
    (service : Text) (start stop : ℕ) (text : Text)
    → IsOver start stop (request service start stop text)
request-IsOver service start stop text =
    (refl, refl, epoch_seconds-IsRounded start, epoch_seconds-IsRounded stop)

pub request-IsFor :
    (service : Text) (start stop : ℕ) (text : Text)
    → IsFor service text (request service start stop text)
unfolding resolve_snapshot_log_group
request-IsFor service start stop text = (refl, refl)

IsRounded-unique : (m n : ℤ) (t : ℕ) → IsRounded m t → IsRounded n t → m ≡ n
IsRounded-unique (pos zero) (pos zero) t h k = refl
IsRounded-unique (pos zero) (pos (suc n)) t h k = absurd (omega arith)
IsRounded-unique (pos (suc m)) (pos zero) t h k = absurd (omega arith)
IsRounded-unique (pos (suc m)) (pos (suc n)) t h k =
    let same : m ≡ n = omega arith in ap (λ i. pos (suc i)) same
IsRounded-unique (pos zero) (negsuc n) t h k = absurd (omega arith)
IsRounded-unique (pos (suc m)) (negsuc n) t h k = absurd (omega arith)
IsRounded-unique (negsuc m) (pos zero) t h k = absurd (omega arith)
IsRounded-unique (negsuc m) (pos (suc n)) t h k = absurd (omega arith)
IsRounded-unique (negsuc m) (negsuc n) t h k = let same : m ≡ n = omega arith in ap negsuc same

abbrev query_of : Text → ℤ → ℤ → Text → ℕ → ℕ → SnapshotQuery
query_of group start_time end_time text start stop = record {
  sent = record {
    log_group_name = group;
    start_time = start_time;
    end_time = end_time;
    query_string = text;
  };
  window_start = start;
  window_stop = stop;
}

query_of-same :
    {g h : Text} {a b c d : ℤ} {s t : Text} {k l m n : ℕ}
    → g ≡ h
    → a ≡ b
    → c ≡ d
    → s ≡ t
    → k ≡ l
    → m ≡ n
    → query_of g a c s k m ≡ query_of h b d t l n
query_of-same e f g h i j = cc

-- A query over a window for a service is the request.
pub request_unique :
    (service : Text) (start stop : ℕ) (text : Text) (r : SnapshotQuery)
    → IsOver start stop r
    → IsFor service text r
    → r ≡ request service start stop text
unfolding resolve_snapshot_log_group
request_unique service start stop text r (before, after, from, until) (group, same) =
    query_of-same group
      (IsRounded-unique r.sent.start_time (epoch_seconds start) start from
        (epoch_seconds-IsRounded start))
      (IsRounded-unique r.sent.end_time (epoch_seconds stop) stop until
        (epoch_seconds-IsRounded stop))
      same before after

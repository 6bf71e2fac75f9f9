-- ===== src/Status/History/Guards.antt =====
-- When a status history is requested.
use mathlib.Core.Path.{subst}
use kiro_usage_pipeline.Base.{
  ℕ, Option, none, some, [], ◌∷◌, ◌≡◌, ◌⊎◌, ◌↔◌, sym, arith, Text, lit, text_eq,
}
use kiro_usage_pipeline.Value.{Fields}
use kiro_usage_pipeline.Validation.{fold_word, validate_snapshot_signal}
use kiro_usage_pipeline.Location.{Location}
use kiro_usage_pipeline.Location.Lookup.{IsFindable}
use kiro_usage_pipeline.Operation.{Op, request}
use kiro_usage_pipeline.Crud.Guards.{
  Sends, Sends-FailsOnRefusal, IsTypeWord, with_type_iff, checked_iff, lookup_iff, target_location,
  target_identifier, with_target_identifier,
}
use kiro_usage_pipeline.Status.Timestamp.{
  Parsed, naive, aware, value_error, Fromisoformat, parse_iso_timestamp, with_timestamp,
  with_optional_timestamp, after_parse,
}
use kiro_usage_pipeline.Status.History.{
  HistoryQuery, render_status_identifier_help, status_error, history_kwargs, send_history,
  history_of, signalled, get_instrumentation_configuration_status,
}

abbrev pub IsTime : Parsed → Type 0
IsTime (naive _) = Unit
IsTime (aware _) = Unit
IsTime (value_error _) = ⊥

-- A time that is given and not blank can be parsed.
abbrev pub AreTimes : Fromisoformat → Option Text → Type 0
AreTimes fromisoformat none = Unit
AreTimes fromisoformat (some []) = Unit
AreTimes fromisoformat (some (c ∷ s)) = IsTime (parse_iso_timestamp fromisoformat (c ∷ s))

abbrev pub IsStatusWord : Text → Type 0
IsStatusWord word =
    (word ≡ lit "READY") ⊎ (word ≡ lit "ACTIVE") ⊎ (word ≡ lit "ERROR") ⊎ (word ≡ lit "DISABLED")

status_error_iff :
    (status : Option Text) → (status_error status ≡ none) ↔ IsStatusWord (fold_word status)
unfolding status_error lit
status_error_iff status = ground arith

pub validate_snapshot_signal_iff :
    (signal : Option Text)
    → (validate_snapshot_signal signal ≡ none) ↔ (fold_word signal ≡ lit "SNAPSHOT")
unfolding validate_snapshot_signal
validate_snapshot_signal_iff signal = ground arith

module _ (P : Type 0) where
  pub after_parse-Sends_iff :
      (name : Text) (next : ℕ → Op) (p : Parsed)
      → ((t : ℕ) → Sends (next t) ↔ P)
      → Sends (after_parse name next p) ↔ (IsTime p × P)
  unfolding after_parse
  after_parse-Sends_iff name next (naive t) h = (λ x. (tt, (h t).0 x), λ (_, x). (h t).1 x)
  after_parse-Sends_iff name next (aware t) h = (λ x. (tt, (h t).0 x), λ (_, x). (h t).1 x)
  after_parse-Sends_iff name next (value_error e) h = (λ x. absurd x, λ (x, _). absurd x)

  pub with_optional_timestamp-Sends_iff :
      (fromisoformat : Fromisoformat) (name : Text) (value : Option Text) (next : Option ℕ → Op)
      → ((o : Option ℕ) → Sends (next o) ↔ P)
      → Sends (with_optional_timestamp fromisoformat name value next)
        ↔ (AreTimes fromisoformat value × P)
  unfolding with_optional_timestamp with_timestamp
  with_optional_timestamp-Sends_iff fromisoformat name none next h =
      (λ x. (tt, (h none).0 x), λ (_, x). (h none).1 x)
  with_optional_timestamp-Sends_iff fromisoformat name (some []) next h =
      (λ x. (tt, (h none).0 x), λ (_, x). (h none).1 x)
  with_optional_timestamp-Sends_iff fromisoformat name (some (c ∷ s)) next h =
      after_parse-Sends_iff name _ (parse_iso_timestamp fromisoformat (c ∷ s)) (λ t. h (some t))

module _ (fromisoformat : Fromisoformat) (q : HistoryQuery) where
  abbrev HasTimes : Type 0
  HasTimes = AreTimes fromisoformat q.start_time × AreTimes fromisoformat q.end_time

  send_history-Sends_iff :
      (word : Text) (location : Location) (identifier : Fields)
      → Sends (send_history fromisoformat q word location identifier) ↔ HasTimes
  unfolding send_history
  send_history-Sends_iff word location identifier =
      with_optional_timestamp-Sends_iff (AreTimes fromisoformat q.end_time) fromisoformat
        (lit "start_time") q.start_time _
        (λ start.
          let stop =
            with_optional_timestamp-Sends_iff (Unit {0}) fromisoformat (lit "end_time") q.end_time
              (λ stop. request _ (history_kwargs word q identifier start stop) _)
              (λ _. (λ _. tt, λ _. tt)) in
          (λ x. (stop.0 x).0, λ t. stop.1 (t, tt)))

  history_of-Sends_iff :
      (word : Text)
      → Sends (history_of fromisoformat q word (target_location q.target))
        ↔ (IsStatusWord (fold_word q.status) × HasTimes)
  unfolding history_of
  history_of-Sends_iff word =
      let checked = checked_iff Sends Sends-FailsOnRefusal (status_error q.status) _ in
      let valid = status_error_iff q.status in
      let sent =
        send_history-Sends_iff word (target_location q.target) (target_identifier q.target) in
      let same =
        with_target_identifier q.target
          (send_history fromisoformat q word (target_location q.target)) in
      (
        λ h. let (e, s) = checked.0 h in (valid.0 e, sent.0 (subst Sends same s)),
        λ (v, t). checked.1 (valid.1 v, subst Sends (sym same) (sent.1 t)),
      )

  signalled-Sends_iff :
      (word : Text)
      → Sends (signalled fromisoformat q word) ↔ (
          (fold_word q.signal_type ≡ lit "SNAPSHOT")
          × IsFindable q.target.location_hash q.target.location
          × IsStatusWord (fold_word q.status)
          × HasTimes)
  unfolding signalled
  signalled-Sends_iff word =
      let checked =
        checked_iff Sends Sends-FailsOnRefusal (validate_snapshot_signal q.signal_type) _ in
      let valid = validate_snapshot_signal_iff q.signal_type in
      let found =
        lookup_iff Sends Sends-FailsOnRefusal render_status_identifier_help q.target
          (history_of fromisoformat q word) in
      let sent = history_of-Sends_iff word in
      (
        λ h.
            let (e, s) = checked.0 h in
            let (f, r) = found.0 s in let (w, t) = sent.0 r in (valid.0 e, f, w, t),
        λ (v, f, w, t). checked.1 (valid.1 v, found.1 (f, sent.1 (w, t))),
      )

  -- The history of a status is requested exactly when the type is BREAKPOINT or PROBE, the signal
  -- is SNAPSHOT, a hash or a language and a file path are given, the status is READY, ACTIVE, ERROR
  -- or DISABLED, and the times that are given can be parsed.
  pub get_instrumentation_configuration_status-Sends_iff :
      Sends (get_instrumentation_configuration_status fromisoformat q) ↔ (
        IsTypeWord (fold_word q.target.instrumentation_type)
        × (fold_word q.signal_type ≡ lit "SNAPSHOT")
        × IsFindable q.target.location_hash q.target.location
        × IsStatusWord (fold_word q.status)
        × HasTimes)
  unfolding get_instrumentation_configuration_status
  get_instrumentation_configuration_status-Sends_iff =
      let typing =
        with_type_iff Sends Sends-FailsOnRefusal q.target.instrumentation_type
          (signalled fromisoformat q) in
      let sent = signalled-Sends_iff (fold_word q.target.instrumentation_type) in
      (
        λ h. let (w, s) = typing.0 h in let (v, f, r, t) = sent.0 s in (w, v, f, r, t),
        λ (w, v, f, r, t). typing.1 (w, sent.1 (v, f, r, t)),
      )

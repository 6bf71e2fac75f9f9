-- ===== src/Snapshot/Tools/Statuses.antt =====
-- The statuses that the two operations write.
use mathlib.Core.Path.{subst}
use kiro_usage_pipeline.Base.{
  ℕ, Bool, true, false, ◌&&◌, ltb, not, Option, none, some, List, [], ◌∷◌, Text, lit, strip, upper,
  contains, nat_eq, text_eq, ◌≡◌, refl, sym, inl, inr, ◌==◌, if◌then◌else◌,
}
use kiro_usage_pipeline.Value.{Value, null, bool, int, float, str, time, list, dict, Items, Fields}
use kiro_usage_pipeline.Snapshot.Fields.{parse_snapshot_fields}
use kiro_usage_pipeline.Value.Dict.{get_or, get}
use kiro_usage_pipeline.Snapshot.Query.{QueryResult}
use kiro_usage_pipeline.Snapshot.Query.Known.{known_statuses, known_cases}
use kiro_usage_pipeline.Snapshot.Rendering.{
  Subject, Window, with_summaries, snapshot_summaries, search_output,
}
use kiro_usage_pipeline.Snapshot.Rendering.Sample.{
  with_summary, of_size, of_message, of_results, raw_snapshot_size_threshold, utf8_size,
  sample_output,
}
use kiro_usage_pipeline.Snapshot.Tools.{query_failure_statuses}

-- What the renderers write for a status.
abbrev pub written_status : Text → Text
written_status status =
    if status == lit "Error"
    then lit "ERROR"
    else if status == lit "Polling Timeout"
    then lit "TIMEOUT"
    else status

abbrev pub Writes : Text → Option Fields → Type 0
Writes status none = Unit
Writes status (some d) = get_or (lit "status") (str []) d ≡ str status

Writes-if :
    (b : Bool) (x y : Text) (o p : Option Fields)
    → (b ≡ true → Writes x o)
    → (b ≡ false → Writes y p)
    → Writes (if b then x else y) (if b then o else p)
Writes-if true x y o p h k = h refl
Writes-if false x y o p h k = k refl

Writes-same :
    (b : Bool) (x : Text) (o p : Option Fields)
    → Writes x o
    → Writes x p
    → Writes x (if b then o else p)
Writes-same true x o p h k = h
Writes-same false x o p h k = k

abbrev pub Fails : Text → Bool → Type 0
Fails status b = contains query_failure_statuses (upper (strip (written_status status))) ≡ b

-- A failed status, for a status that is known.
pub failed-written_status :
    (status : Text)
    → contains known_statuses status ≡ true
    → Fails status (not (status == lit "Complete"))
unfolding upper strip lit text_eq nat_eq
failed-written_status status h =
    let Goal = λ (t : Text). Fails t (not (t == lit "Complete")) in
    elim (known_cases status h) [
      | inl e ↦ subst Goal (sym e) refl
      | inr (inl e) ↦ subst Goal (sym e) refl
      | inr (inr (inl e)) ↦ subst Goal (sym e) refl
      | inr (inr (inr (inl e))) ↦ subst Goal (sym e) refl
      | inr (inr (inr (inr e))) ↦ subst Goal (sym e) refl
    ]

abbrev pub found_status : List Fields → Text
found_status [] = lit "NO_SNAPSHOTS_FOUND"
found_status (_ ∷ _) = lit "SUCCESS"

abbrev pub sample_status : Text → List Fields → Text
sample_status status results =
    if status == lit "Error"
    then lit "ERROR"
    else if status == lit "Polling Timeout"
    then lit "TIMEOUT"
    else if status == lit "Complete"
    then found_status results
    else status

abbrev pub SampleFails : List Fields → Text → Bool → Type 0
SampleFails results status b =
    contains query_failure_statuses (upper (strip (sample_status status results))) ≡ b

found_not_failed : (results : List Fields) → SampleFails results (lit "Complete") false
unfolding upper strip lit text_eq nat_eq
found_not_failed [] = refl
found_not_failed (_ ∷ _) = refl

pub failed-sample_status :
    (status : Text) (results : List Fields)
    → contains known_statuses status ≡ true
    → SampleFails results status (not (status == lit "Complete"))
unfolding upper strip lit text_eq nat_eq
failed-sample_status status results h =
    let Goal = λ (t : Text). SampleFails results t (not (t == lit "Complete")) in
    elim (known_cases status h) [
      | inl e ↦ subst Goal (sym e) refl
      | inr (inl e) ↦ subst Goal (sym e) refl
      | inr (inr (inl e)) ↦ subst Goal (sym e) (found_not_failed results)
      | inr (inr (inr (inl e))) ↦ subst Goal (sym e) refl
      | inr (inr (inr (inr e))) ↦ subst Goal (sym e) refl
    ]

module _ (float_repr : Text → Text) where
  -- The status of a sample, from the results of the query.
  found_with :
      (s : Subject) (r : QueryResult) (result : Fields) (raw_size : ℕ) (o : Option Fields)
      → Writes (lit "SUCCESS") (with_summary s r result raw_size o)
  unfolding get lit text_eq nat_eq
  found_with s r result raw_size none = tt
  found_with s r result raw_size (some parsed) = refl

  of_size-Writes :
      (s : Subject) (r : QueryResult) (include_raw : Bool) (result : Fields) (message : Text)
      (o : Option ℕ)
      → Writes (lit "SUCCESS") (of_size float_repr s r include_raw result message o)
  unfolding get lit text_eq nat_eq
  of_size-Writes s r include_raw result message none = tt
  of_size-Writes s r include_raw result message (some raw_size) =
      Writes-same (ltb raw_snapshot_size_threshold raw_size && not include_raw) (lit "SUCCESS") _ _
        (found_with s r result raw_size (parse_snapshot_fields float_repr result)) refl

  of_message-Writes :
      (s : Subject) (r : QueryResult) (include_raw : Bool) (result : Fields) (v : Value)
      → Writes (lit "SUCCESS") (of_message float_repr s r include_raw result v)
  of_message-Writes s r include_raw result (str message) =
      of_size-Writes s r include_raw result message (utf8_size message)
  of_message-Writes s r include_raw result null = tt
  of_message-Writes s r include_raw result (bool _) = tt
  of_message-Writes s r include_raw result (int _) = tt
  of_message-Writes s r include_raw result (float _) = tt
  of_message-Writes s r include_raw result (time _) = tt
  of_message-Writes s r include_raw result (list _) = tt
  of_message-Writes s r include_raw result (dict _) = tt

  of_results-Writes :
      (s : Subject) (r : QueryResult) (include_raw : Bool) (results : List Fields)
      → Writes (found_status results) (of_results float_repr s r include_raw results)
  unfolding get lit text_eq nat_eq
  of_results-Writes s r include_raw [] = refl
  of_results-Writes s r include_raw (result ∷ _) =
      of_message-Writes s r include_raw result (get_or (lit "@message") (str (lit "{}")) result)

  pub sample_output-Writes :
      (s : Subject) (max_timeout : ℕ) (include_raw : Bool) (r : QueryResult)
      → Writes
          (sample_status r.status r.results)
          (sample_output float_repr s max_timeout include_raw r)
  unfolding sample_output get lit text_eq nat_eq
  sample_output-Writes s max_timeout include_raw r =
      Writes-if (r.status == lit "Error") _ _ _ _ (λ e. refl)
        (λ e.
          Writes-if (r.status == lit "Polling Timeout") _ _ _ _ (λ e. refl)
            (λ e.
              Writes-if (r.status == lit "Complete") _ _ _ _
                (λ e. of_results-Writes s r include_raw r.results) (λ e. refl)))

  with_summaries-Writes :
      (s : Subject) (fs : List Text) (w : Window) (r : QueryResult) (o : Option Items)
      → Writes r.status (with_summaries s fs w r o)
  unfolding get lit text_eq nat_eq
  with_summaries-Writes s fs w r none = tt
  with_summaries-Writes s fs w r (some vs) = refl

  pub search_output-Writes :
      (s : Subject) (fs : List Text) (w : Window) (r : QueryResult)
      → Writes (written_status r.status) (search_output float_repr s fs w r)
  unfolding search_output get lit text_eq nat_eq
  search_output-Writes s fs w r =
      Writes-if (r.status == lit "Error") _ _ _ _ (λ e. refl)
        (λ e.
          Writes-if (r.status == lit "Polling Timeout") _ _ _ _ (λ e. refl)
            (λ e.
              Writes-same (r.status == lit "Complete") r.status _ _
                (with_summaries-Writes s fs w r (snapshot_summaries float_repr r.results)) refl))

-- ===== src/Snapshot/Tools/Failures.antt =====
-- What the entry script makes of the texts.
use kiro_usage_pipeline.Base.{
  false, ◌||◌, some, Text, lit, lstrip, starts_with, is_space, nat_eq, text_eq, ◌≡◌, refl, ◌∙◌, ap,
}
use kiro_usage_pipeline.Value.{dict, Fields, end, field}
use kiro_usage_pipeline.Json.Write.{write, dumps}
use kiro_usage_pipeline.Json.Read.{loads}
use kiro_usage_pipeline.Json.Pieces.{IsReadable}
use kiro_usage_pipeline.Json.RoundTrip.{loads-dumps}
use kiro_usage_pipeline.Snapshot.Tools.{has_failed_status, is_failure}

-- A JSON object does not begin with ERROR.
write-object : (d : Fields) → starts_with (lstrip (write 0 (dict d))) (lit "ERROR") ≡ false
unfolding write lstrip is_space starts_with lit nat_eq
write-object end = refl
write-object (field k v d) = refl

module _ (float_repr : Text → Text) where
  -- The text of a dict is a failure exactly when the dict has a failed status.
  pub is_failure-dumps :
      (d : Fields)
      → IsReadable float_repr (dict d)
      → (t : Text) × (dumps (dict d) ≡ some t)
        × (is_failure float_repr t ≡ has_failed_status (some (dict d)))
  unfolding is_failure
  is_failure-dumps d h =
      let (written, back) = loads-dumps float_repr (dict d) h in
      (
        write 0 (dict d),
        written,
        ap (λ b. b || has_failed_status (loads float_repr (write 0 (dict d)))) (write-object d)
            ∙ ap has_failed_status back,
      )

-- ===== src/Validation/Words.antt =====
-- The words that the scripts normalise: instrumentation types, languages and signal types.
use kiro_usage_pipeline.Base.{
  Option, none, some, ◌≡◌, refl, ◌⊎◌, inl, inr, arith, Text, lit, text_eq,
}
use kiro_usage_pipeline.Validation.{
  fold_language, canonical_of, canonical_language, fold_word, normalize_instrumentation_type,
}

breakpoint_word :
    normalize_instrumentation_type (some (lit "BREAKPOINT")) ≡ (lit "BREAKPOINT", none)
unfolding normalize_instrumentation_type fold_word lit text_eq
breakpoint_word = refl

probe_word : normalize_instrumentation_type (some (lit "PROBE")) ≡ (lit "PROBE", none)
unfolding normalize_instrumentation_type fold_word lit text_eq
probe_word = refl

-- An accepted instrumentation type is BREAKPOINT or PROBE, and is accepted again unchanged.
pub normalize_instrumentation_type_stable :
    (t : Option Text) {word : Text}
    → normalize_instrumentation_type t ≡ (word, none)
    → ((word ≡ lit "BREAKPOINT") ⊎ (word ≡ lit "PROBE"))
      × (normalize_instrumentation_type (some word) ≡ (word, none))
normalize_instrumentation_type_stable t {word} h =
    let e : (word ≡ lit "BREAKPOINT") ⊎ (word ≡ lit "PROBE") =
      unfold normalize_instrumentation_type in ground arith in
    (e, elim e [ inl p ↦ rw p breakpoint_word | inr p ↦ rw p probe_word ])

python_word : (fold_language (some (lit "Python")) ≡ lit "python")
unfolding fold_language lit
python_word = refl

java_word : (fold_language (some (lit "Java")) ≡ lit "java")
unfolding fold_language lit
java_word = refl

javascript_word : (fold_language (some (lit "Javascript")) ≡ lit "javascript")
unfolding fold_language lit
javascript_word = refl

-- A canonical language is read by every check as the language that the caller wrote, and is
-- canonical already.
pub canonical_language_stable :
    (language : Option Text) {c : Text}
    → canonical_language language ≡ some c
    → (fold_language (some c) ≡ fold_language language) × (canonical_language (some c) ≡ some c)
canonical_language_stable language {c} h =
    let same : fold_language (some c) ≡ fold_language language =
      unfold canonical_language canonical_of in
      ground (arith, python_word, java_word, javascript_word) in
    (same, unfold canonical_language in rw same (unfold canonical_language in h))

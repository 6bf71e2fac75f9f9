-- ===== src/Snapshot/Fields/Failures.antt =====
-- When a snapshot has no summary.
use mathlib.Core.Path.{subst}
use kiro_usage_pipeline.Base.{
  true, false, Option, none, some, List, [], ◌∷◌, Text, ◌==◌, nat_eq, text_eq, contains, ◌≡◌, ◌↔◌,
  inl, inr, refl, sym, ◌∙◌, ap, arith, Bool-cases,
}
use kiro_usage_pipeline.Value.{Fields}
use kiro_usage_pipeline.Decimals.{are_digits, are_decimal_digits}
use kiro_usage_pipeline.Snapshot.Fields.{
  LineKey, line_key, Keyed, cons_keyed, in_order, keyed, distinct, sorted_numbers, Lines,
  line_numbers, lines_of, snapshot_of, summarised, parse_snapshot_fields,
}
use kiro_usage_pipeline.Snapshot.Fields.Ordering.{contains-distinct}
use kiro_usage_pipeline.Snapshot.Fields.Contents.{
  all_keys, has_line, captured_lines, contains-lines_of,
}

-- A text that is given and has no key.
abbrev NoKey : List Text → Type 0
NoKey ss = (a : Text) × (contains ss a ≡ true) × (line_key a ≡ none)

cons_keyed-none :
    (s : Text) (ss : List Text) (o : Option LineKey) (r : Option (List Keyed))
    → line_key s ≡ o
    → (r ≡ none → NoKey ss)
    → cons_keyed o s r ≡ none
    → NoKey (s ∷ ss)
unfolding text_eq
cons_keyed-none s ss none r e h n = (s, ground arith, e)
cons_keyed-none s ss (some k) none e h n = let (a, inside, bad) = h refl in (a, ground arith, bad)
cons_keyed-none s ss (some k) (some ks) e h n = absurd cc

keyed-none : (ss : List Text) → keyed ss ≡ none → NoKey ss
unfolding keyed
keyed-none [] h = absurd cc
keyed-none (s ∷ ss) h = cons_keyed-none s ss (line_key s) (keyed ss) refl (keyed-none ss) h

cons_keyed-fails : (o : Option LineKey) (s : Text) → cons_keyed o s none ≡ none
cons_keyed-fails none s = refl
cons_keyed-fails (some k) s = refl

keyed-fails :
    (ss : List Text) (a : Text) → contains ss a ≡ true → line_key a ≡ none → keyed ss ≡ none
unfolding keyed text_eq
keyed-fails [] a h e = absurd cc
keyed-fails (s ∷ ss) a h e = elim (Bool-cases (a == s)) [
  | inl here ↦
      let same : a ≡ s = ground arith in
      ap (λ o. cons_keyed o s (keyed ss)) (subst (λ t. line_key t ≡ none) same e)
  | inr there ↦
      let inside : contains ss a ≡ true = ground arith in
      ap (cons_keyed (line_key s) s) (keyed-fails ss a inside e) ∙ cons_keyed-fails (line_key s) s
]

in_order-none : (o : Option (List Keyed)) → (in_order o ≡ none) ↔ (o ≡ none)
in_order-none none = (λ h. refl, λ h. refl)
in_order-none (some ks) = (λ h. absurd cc, λ h. absurd cc)

summarised-none :
    (result snapshot_data : Fields) (lines : Lines) (o : Option (List Text))
    → (summarised result snapshot_data lines o ≡ none) ↔ (o ≡ none)
summarised-none result snapshot_data lines none = (λ h. refl, λ h. refl)
summarised-none result snapshot_data lines (some ns) = (λ h. absurd cc, λ h. absurd cc)

line_key-none :
    (a : Text) → (line_key a ≡ none) ↔ ((are_digits a ≡ true) × (are_decimal_digits a ≡ false))
unfolding line_key are_decimal_digits
line_key-none [] = (λ h. absurd cc, λ h. absurd cc)
line_key-none (c ∷ s) = ground arith

sorted_numbers-none : (ss : List Text) → (sorted_numbers ss ≡ none) ↔ NoKey ss
unfolding sorted_numbers
sorted_numbers-none ss = (
  λ h.
      let (a, inside, bad) = keyed-none (distinct ss) ((in_order-none (keyed (distinct ss))).0 h) in
      (a, sym (contains-distinct a ss) ∙ inside, bad),
  λ (a, inside, bad).
      (in_order-none (keyed (distinct ss))).1
        (keyed-fails (distinct ss) a (contains-distinct a ss ∙ inside) bad),
)

-- Parsing a snapshot fails, and with it the tool, exactly when a line with content has a number
-- that `isdigit` takes for digits and `int` refuses, such as a superscript.
pub parse_snapshot_fields-none_iff :
    (float_repr : Text → Text) (result : Fields)
    → (parse_snapshot_fields float_repr result ≡ none) ↔ (
        (a : Text) × (has_line (captured_lines (snapshot_of float_repr result)) a ≡ true)
        × (are_digits a ≡ true)
        × (are_decimal_digits a ≡ false))
unfolding parse_snapshot_fields
parse_snapshot_fields-none_iff float_repr result =
    let snapshot_data = snapshot_of float_repr result in
    let lines = lines_of snapshot_data in
    (
      λ h.
          let (a, inside, bad) =
            (sorted_numbers-none (all_keys lines)).0
              ((summarised-none result snapshot_data lines (line_numbers lines)).0 h) in
          let (digits, beyond) = (line_key-none a).0 bad in
          (a, sym (contains-lines_of snapshot_data a) ∙ inside, digits, beyond),
      λ (a, inside, digits, not_all).
          (summarised-none result snapshot_data lines (line_numbers lines)).1 (
            (sorted_numbers-none (all_keys lines)).1 (
              a,
              contains-lines_of snapshot_data a ∙ inside,
              (line_key-none a).1 (digits, not_all),
            )),
    )

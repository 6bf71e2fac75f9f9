-- ===== src/Snapshot/Search/Filters.antt =====
-- The check on custom filters.
use kiro_usage_pipeline.Base.{
  ℕ, ◌+◌, ◌%◌, false, Option, none, some, List, [], ◌∷◌, ◌++◌, ◌≡◌, ◌≢◌, ◌⊎◌, ◌↔◌, refl, sym, ap,
  arith, append_assoc, append-nil, All, Text, lit, strip, nat_eq, if◌then◌else◌, is_empty, ◌==◌,
  Bool-cases, inl, inr,
}
use kiro_usage_pipeline.Snapshot.Escape.Lexer.{
  Piece, Mode, raw, quoted, outside, inside, cons_piece, lex,
}
use kiro_usage_pipeline.Snapshot.Search.{
  count_quotes, count_escaped, has_open_quote, filtered, append_filters,
}

count_escaped-zero : (s : Text) → All (λ c. c ≢ 92) s → count_escaped s ≡ 0
unfolding count_escaped
count_escaped-zero [] h = refl
count_escaped-zero (c ∷ []) h = refl
count_escaped-zero (c ∷ d ∷ s) (p, h) = ground (arith, count_escaped-zero (d ∷ s) h)

cons_piece-ne-none_iff :
    (p : Piece) (o : Option (List Piece)) → (cons_piece p o ≢ none) ↔ (o ≢ none)
cons_piece-ne-none_iff p none = (λ x. x, λ x. x)
cons_piece-ne-none_iff p (some ps) = (λ _. cc, λ _. cc)

odd-add_one_iff : (n : ℕ) → (n % 2 ≡ 1) ↔ ((n + 1) % 2 ≡ 0)
odd-add_one_iff n = (λ h. omega (arith, h), λ h. omega (arith, h))

even-add_one_iff : (n : ℕ) → (n % 2 ≡ 0) ↔ ((n + 1) % 2 ≡ 1)
even-add_one_iff n = (λ h. omega (arith, h), λ h. omega (arith, h))

abbrev Closes : Mode → Text → Text → ℕ → Type 0
Closes mode acc s parity = (lex b'"' mode acc s ≢ none) ↔ (count_quotes s % 2 ≡ parity)

module _ (acc s : Text) (c : ℕ) where
  outside-step :
      Closes inside [] s 1 → Closes outside (acc ++ (c ∷ [])) s 0 → Closes outside acc (c ∷ s) 0
  unfolding lex count_quotes
  outside-step quote other = elim (Bool-cases (c == b'"')) [
    | inl e ↦ rw e (
        let piece = cons_piece-ne-none_iff (raw acc) (lex b'"' inside [] s) in
        let odd = odd-add_one_iff (count_quotes s) in
        (λ x. odd.0 (quote.0 (piece.0 x)), λ h. piece.1 (quote.1 (odd.1 h))))
    | inr e ↦ rw e other
  ]

  inside-step :
      c ≢ 92
      → Closes outside [] s 0
      → Closes inside (acc ++ (c ∷ [])) s 1
      → Closes inside acc (c ∷ s) 1
  unfolding lex count_quotes
  inside-step h quote other =
      let plain : (c == 92) ≡ false = ground arith in
      elim (Bool-cases (c == b'"')) [
        | inl e ↦
            rw (plain, e)
              (let piece = cons_piece-ne-none_iff (quoted acc) (lex b'"' outside [] s) in
                let even = even-add_one_iff (count_quotes s) in
                (λ x. even.0 (quote.0 (piece.0 x)), λ k. piece.1 (quote.1 (even.1 k))))
        | inr e ↦ rw (plain, e) other
      ]

lex-parity : (acc s : Text) → All (λ c. c ≢ 92) s → Closes outside acc s 0 × Closes inside acc s 1
unfolding lex count_quotes
lex-parity acc [] h = ground arith
lex-parity acc (c ∷ s) (p, h) =
    let rest = lex-parity [] s h in
    let more = lex-parity (acc ++ (c ∷ [])) s h in
    (outside-step acc s c rest.1 more.0, inside-step acc s c p rest.0 more.1)

-- A filter without a backslash passes the check exactly when every quoted part of it is closed.
pub has_open_quote_iff :
    (s : Text) → All (λ c. c ≢ 92) s → (has_open_quote s ≡ false) ↔ (lex b'"' outside [] s ≢ none)
unfolding has_open_quote nat_eq
has_open_quote_iff s h = ground (arith, lex-parity [] s h, count_escaped-zero s h)

-- A filter that is blank or passes the check.
abbrev pub IsClosed : Text → Type 0
IsClosed f = (strip f ≡ []) ⊎ (has_open_quote (strip f) ≡ false)

-- The filters that are not blank, each after `and`.
abbrev pub appended : List Text → Text
appended [] = []
appended (f ∷ fs) =
    let rest = appended fs in if is_empty (strip f) then rest else (lit " and " ++ strip f) ++ rest

-- Custom filters are appended in order, blank ones left out, exactly when each passes the check.
pub append_filters_iff :
    (fs : List Text) (base : Text)
    → (append_filters fs base ≡ filtered (base ++ appended fs)) ↔ All IsClosed fs
unfolding append_filters
append_filters_iff [] base = (λ _. tt, λ _. ap filtered (sym (append-nil base)))
append_filters_iff (f ∷ fs) base = ground (
  arith,
  append_filters_iff fs base,
  append_filters_iff fs (base ++ (lit " and " ++ strip f)),
  append_assoc base (lit " and " ++ strip f) (appended fs),
)

pub append_filters-filtered :
    (fs : List Text) (base : Text) {text : Text}
    → append_filters fs base ≡ filtered text
    → All IsClosed fs × (text ≡ base ++ appended fs)
unfolding append_filters
append_filters-filtered [] base h = (tt, ground (arith, append-nil base))
append_filters-filtered (f ∷ fs) base {text} h =
    let same = append_filters-filtered fs base {text = text} in
    let longer = append_filters-filtered fs (base ++ (lit " and " ++ strip f)) {text = text} in
    ground (arith, append_assoc base (lit " and " ++ strip f) (appended fs))

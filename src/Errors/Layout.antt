-- ===== src/Errors/Layout.antt =====
-- How a rendered failure begins.
use mathlib.Core.List.{reverse, reverse-append, reverse-reverse, reverse-cons}
use kiro_usage_pipeline.Base.{
  ℕ, false, List, [], ◌∷◌, ◌++◌, ◌≡◌, refl, sym, ap, ◌∙◌, arith, append_assoc, Text, lit, concat,
  lstrip, rstrip, is_space, nat_eq,
}
use kiro_usage_pipeline.Value.{Value}
use kiro_usage_pipeline.Errors.{
  Kind, client_error, endpoint_connection, read_timeout, connect_timeout, no_credentials,
  partial_credentials, other, with_trailer, AwsException, Context, Prose, render_client_error,
  translate_aws_error,
}

-- `s.startswith(t)`, with what follows.
abbrev pub StartsWith : Text → Text → Type 0
StartsWith s t = (rest : Text) × (s ≡ t ++ rest)

module _ (x : ℕ) (dark : is_space x ≡ false) where
  lstrip-append : (u r : Text) → lstrip (u ++ (x ∷ r)) ≡ lstrip u ++ (x ∷ r)
  unfolding lstrip
  lstrip-append [] r = ground (arith, dark)
  lstrip-append (c ∷ u) r = ground (arith, lstrip-append u r)

  -- Stripping at the right end stops at a character that is no space.
  rstrip-append : (a b : Text) → rstrip (a ++ (x ∷ b)) ≡ a ++ (x ∷ rstrip b)
  unfolding rstrip
  rstrip-append a b =
      ap (λ r. reverse (lstrip r))
        (reverse-append a (x ∷ b)
          ∙ ap (λ r. r ++ reverse a) (reverse-cons x b)
          ∙ append_assoc (reverse b) (x ∷ []) (reverse a))
      ∙ ap reverse (lstrip-append (reverse b) (reverse a))
      ∙ reverse-append (lstrip (reverse b)) (x ∷ reverse a)
      ∙ ap (λ r. r ++ rstrip b)
          (reverse-cons x (reverse a) ∙ ap (λ r. r ++ (x ∷ [])) (reverse-reverse a))
      ∙ append_assoc a (x ∷ []) (rstrip b)

concat-StartsWith : (a b : Text) (ps : List Text) → StartsWith (concat (a ∷ b ∷ ps)) (a ++ b)
unfolding concat
concat-StartsWith a b ps = (concat ps, sym (append_assoc a b (concat ps)))

StartsWith-append : (s t u : Text) → StartsWith s t → StartsWith (s ++ u) t
StartsWith-append s t u (rest, e) = (rest ++ u, ap (λ r. r ++ u) e ∙ append_assoc t rest u)

-- The blank line and the first letter after the action.
first_lines :
    (action b : Text)
    → (lit "Failed to " ++ (action ++ lit "\n")) ++ (lit "\nError: " ++ b)
      ≡ ((lit "Failed to " ++ action) ++ lit "\n\n") ++ (b'E' ∷ (lit "rror: " ++ b))
unfolding lit
first_lines action b = simp append_assoc

letter_is_dark : is_space b'E' ≡ false
unfolding is_space nat_eq
letter_is_dark = refl

rstrip-StartsWith :
    (action b : Text)
    → StartsWith
        (rstrip ((lit "Failed to " ++ (action ++ lit "\n")) ++ (lit "\nError: " ++ b)))
        (lit "Failed to " ++ action)
rstrip-StartsWith action b = (
  lit "\n\n" ++ (b'E' ∷ rstrip (lit "rror: " ++ b)),
  ap rstrip (first_lines action b)
      ∙ rstrip-append b'E' letter_is_dark ((lit "Failed to " ++ action) ++ lit "\n\n") _
      ∙ append_assoc (lit "Failed to " ++ action) (lit "\n\n") _,
)

body-StartsWith :
    (action b c : Text)
    → StartsWith
        (rstrip ((lit "Failed to " ++ (action ++ lit "\n")) ++ ((lit "\nError: " ++ b) ++ c)))
        (lit "Failed to " ++ action)
body-StartsWith action b c =
    rw (append_assoc (lit "\nError: ") b c) (rstrip-StartsWith action (b ++ c))

with_trailer-StartsWith :
    (body t trailer : Text) → StartsWith body t → StartsWith (with_trailer body trailer) t
unfolding concat
with_trailer-StartsWith body t [] h = h
with_trailer-StartsWith body t (c ∷ s) h = StartsWith-append body t _ h

pub render_client_error-StartsWith :
    (response : Value) (text : Text) (p : Prose)
    → StartsWith (render_client_error response text p) (lit "Failed to " ++ p.action)
render_client_error-StartsWith response text p =
    unfold render_client_error in
    with_trailer-StartsWith _ _ p.trailer (unfold concat in body-StartsWith p.action _ _)

translate_of_kind :
    (k : Kind) (text action : Text) (context : Context)
    → StartsWith
        (translate_aws_error (record { kind = k; text = text }) action context)
        (lit "Failed to " ++ action)
unfolding translate_aws_error
translate_of_kind (client_error r) text action context = concat-StartsWith _ _ _
translate_of_kind endpoint_connection text action context = concat-StartsWith _ _ _
translate_of_kind read_timeout text action context = concat-StartsWith _ _ _
translate_of_kind connect_timeout text action context = concat-StartsWith _ _ _
translate_of_kind no_credentials text action context = concat-StartsWith _ _ _
translate_of_kind partial_credentials text action context = concat-StartsWith _ _ _
translate_of_kind other text action context = concat-StartsWith _ _ _

pub translate_aws_error-StartsWith :
    (exc : AwsException) (action : Text) (context : Context)
    → StartsWith (translate_aws_error exc action context) (lit "Failed to " ++ action)
translate_aws_error-StartsWith exc action context =
    translate_of_kind exc.kind exc.text action context

-- ===== src/Json/Steps.antt =====
-- What the machine does on the pieces that a written value is made of.
use kiro_usage_pipeline.Base.{
  ℕ, zero, suc, true, false, none, [], ◌∷◌, ◌++◌, ◌≡◌, refl, sym, ◌∙◌, ap, arith, append_assoc,
  append-nil, All, Text, nat_eq, is_empty,
}
use kiro_usage_pipeline.Json.Write.{escape_text, quote, spaces, newline}
use kiro_usage_pipeline.Json.Read.{
  Parser, Machine, in_text, in_atom, in_unit, in_escape, outside, failed, is_atom_char, on_mark,
  on_text, mark_after, flush, step, run,
}
use kiro_usage_pipeline.Json.Texts.{IsScalar, run-append, run-escape_text}
use kiro_usage_pipeline.Json.Numbers.{all_atom_chars}

module _ (float_repr : Text → Text) where
  run-in_atom :
      (a s : Text) (p : Parser)
      → all_atom_chars s ≡ true
      → run float_repr (in_atom a p) s ≡ in_atom (a ++ s) p
  unfolding run step all_atom_chars
  run-in_atom a [] p h = ap (λ t. in_atom t p) (sym (append-nil a))
  run-in_atom a (c ∷ s) p h =
      ground (arith, run-in_atom (a ++ (c ∷ [])) s p, append_assoc a (c ∷ []) s)

  pub run-atom :
      (s : Text) (p : Parser)
      → is_empty s ≡ false
      → all_atom_chars s ≡ true
      → run float_repr (outside p) s ≡ in_atom s p
  unfolding run step all_atom_chars
  run-atom [] p e h = absurd cc
  run-atom (c ∷ s) p e h = ground (arith, run-in_atom (c ∷ []) s p)

  -- Where a value ends, the next mark is read after it, also when the value was an atom.
  pub run-mark :
      (m : Machine) (c : ℕ) (s : Text) (q : Parser)
      → is_atom_char c ≡ false
      → flush float_repr m ≡ outside q
      → run float_repr m (c ∷ s) ≡ run float_repr (on_mark c q) s
  unfolding run step
  run-mark (outside p) c s q h e = rw h (ap (λ r. run float_repr (on_mark c r) s) (cc))
  run-mark (in_atom a p) c s q h e = rw h (ap (λ m. run float_repr (mark_after c m) s) e)
  run-mark (in_text acc high p) c s q h e = absurd cc
  run-mark (in_escape acc high p) c s q h e = absurd cc
  run-mark (in_unit n v acc high p) c s q h e = absurd cc
  run-mark failed c s q h e = absurd cc

  run-spaces :
      (n : ℕ) (s : Text) (q : Parser)
      → run float_repr (outside q) (spaces n ++ s) ≡ run float_repr (outside q) s
  unfolding run step spaces on_mark is_atom_char nat_eq
  run-spaces zero s q = refl
  run-spaces (suc n) s q = run-spaces n s q

  pub run-newline :
      (m : Machine) (n : ℕ) (s : Text) (q : Parser)
      → flush float_repr m ≡ outside q
      → run float_repr m (newline n ++ s) ≡ run float_repr (outside q) s
  unfolding is_atom_char on_mark nat_eq
  run-newline m n s q e = run-mark m 10 (spaces n ++ s) q refl e ∙ run-spaces n s q

  pub run-quote :
      (s rest : Text) (p : Parser)
      → All IsScalar s
      → run float_repr (outside p) (quote s ++ rest) ≡ run float_repr (outside (on_text s p)) rest
  unfolding run step on_mark is_atom_char nat_eq
  run-quote s rest p h = rw (
    append_assoc (escape_text s) (34 ∷ []) rest,
    run-append float_repr (in_text [] none p) (escape_text s) (34 ∷ rest),
    run-escape_text float_repr s [] p h,
    append-nil s,
  )

-- ===== src/Entry/Success.antt =====
-- Runs that end with exit code 0.
use mathlib.Core.Path.{subst}
use kiro_usage_pipeline.Base.{
  ℕ, Bool, true, false, Text, ◌≡◌, ◌↔◌, ◌⊎◌, inl, inr, refl, if◌then◌else◌,
}
use kiro_usage_pipeline.Value.{Fields}
use kiro_usage_pipeline.Entry.{Step, ok, usage, crash, ◌>>=◌, ToolRun, answered, type_error}

module _ {A : Type 0} (code : A → ℕ) where
  -- The run ends with exit code 0.
  abbrev pub Succeeds : Step A → Type 0
  Succeeds (ok a) = code a ≡ 0
  Succeeds (usage _) = ⊥
  Succeeds crash = ⊥

  pub bind-Succeeds :
      (m : Step Fields) (f : Fields → Step A)
      → Succeeds (m >>= f) ↔ ((d : Fields) × (m ≡ ok d) × Succeeds (f d))
  bind-Succeeds (ok d) f = (λ h. (d, refl, h), λ (e, same, h). subst (λ x. Succeeds (f x)) (cc) h)
  bind-Succeeds (usage e) f = (λ h. absurd h, λ (d, same, h). absurd cc)
  bind-Succeeds crash f = (λ h. absurd h, λ (d, same, h). absurd cc)

  pub choice :
      (m n : Step A)
      → Succeeds m
      → (b : Bool) → Succeeds (if b then m else n) ↔ ((b ≡ true) ⊎ ((b ≡ false) × Succeeds n))
  choice m n h true = (λ s. inl refl, λ s. h)
  choice m n h false = (λ s. inr (refl, s), λ c. elim c [ inl e ↦ absurd (cc) | inr (_, s) ↦ s ])

-- A call that is made only where it binds.
pub if-answered :
    {A : Type 0} (b : Bool) (t : ToolRun A) (e : Text) (r : A)
    → ((if b then t else type_error e) ≡ answered r) ↔ ((b ≡ true) × (t ≡ answered r))
if-answered true t e r = (λ h. (refl, h), λ (_, h). h)
if-answered false t e r = (λ h. absurd cc, λ (h, _). absurd cc)

-- ===== src/Crud/Create/Captures.antt =====
-- What `create_instrumentation` captures, from its arguments.
use kiro_usage_pipeline.Base.{
  Bool, true, false, not, Option, none, some, List, [], ◌∷◌, ◌≡◌, refl, Text,
}
use kiro_usage_pipeline.Value.{str, Items, nil, cons}
use kiro_usage_pipeline.Capture.{CodeCapture}
use kiro_usage_pipeline.Crud.Create.{
  Arguments, is_given, or_bool, text_items, names_items, capture_of,
}

abbrev pub AreTexts : List Text → Items → Type 0
AreTexts [] nil = Unit
AreTexts [] (cons v vs) = ⊥
AreTexts (n ∷ ns) nil = ⊥
AreTexts (n ∷ ns) (cons v vs) = (v ≡ str n) × AreTexts ns vs

-- The items are the names, in their order, and are missing where there are none.
abbrev pub AreNames : Option (List Text) → Option Items → Type 0
AreNames none none = Unit
AreNames none (some _) = ⊥
AreNames (some _) none = ⊥
AreNames (some ns) (some vs) = AreTexts ns vs

text_items-AreTexts : (ns : List Text) → AreTexts ns (text_items ns)
text_items-AreTexts [] = tt
text_items-AreTexts (n ∷ ns) = (refl, text_items-AreTexts ns)

names_items-AreNames : (ns : Option (List Text)) → AreNames ns (names_items ns)
names_items-AreNames none = tt
names_items-AreNames (some ns) = text_items-AreTexts ns

abbrev pub return_wanted {ℓ} : {A : Type ℓ} → Option Bool → Option A → Bool
return_wanted (some b) line = b
return_wanted none none = true
return_wanted none (some _) = false

return_wanted_lem {ℓ} :
    {A : Type ℓ} (o : Option Bool) (line : Option A)
    → or_bool o (not (is_given line)) ≡ return_wanted o line
return_wanted_lem none none = refl
return_wanted_lem none (some _) = refl
return_wanted_lem (some b) line = refl

abbrev pub trace_wanted : Option Bool → Bool
trace_wanted none = true
trace_wanted (some b) = b

trace_wanted_lem : (o : Option Bool) → or_bool o true ≡ trace_wanted o
trace_wanted_lem none = refl
trace_wanted_lem (some b) = refl

module _ (a : Arguments) where
  -- The capture that a call was given: names and limits as they are, the stack trace unless it is
  -- switched off, and the return value by default where no line is given.
  abbrev pub IsGiven : CodeCapture → Type 0
  IsGiven c =
      AreNames a.capture_arguments c.capture_arguments
      × AreNames a.capture_locals c.capture_locals
      × (c.capture_return ≡ return_wanted a.capture_return a.location.line_number)
      × (c.capture_stack_trace ≡ trace_wanted a.capture_stack_trace)
      × (c.limits ≡ a.limits)

  pub capture_of-IsGiven : IsGiven (capture_of a)
  unfolding capture_of
  capture_of-IsGiven = (
    names_items-AreNames a.capture_arguments,
    names_items-AreNames a.capture_locals,
    return_wanted_lem a.capture_return a.location.line_number,
    trace_wanted_lem a.capture_stack_trace,
    refl,
  )

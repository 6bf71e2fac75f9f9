-- ===== src/Validation/Location/Bindable.antt =====
-- Which location inputs `_validate_location_inputs` accepts.
use kiro_usage_pipeline.Base.{
  zero, suc, ◌≤◌, true, Option, none, some, List, [], ◌∷◌, ◌++◌, ◌≡◌, refl, ◌⊎◌, ◌↔◌, ◌≢◌, arith,
  All, Text, lit, strip, has_substring, starts_with, text_eq, nat_eq, ℤ, pos, negsuc,
}
use kiro_usage_pipeline.Validation.{or_blank, fold_language}
use kiro_usage_pipeline.Validation.Location.{
  Inputs, path_errors, line_errors, language_errors, is_dotted, java_errors, python_errors,
  javascript_errors, rule_errors, location_errors, validate_location_inputs,
}

abbrev pub IsGiven : Option Text → Type 0
IsGiven o = or_blank o ≢ []

-- A line number, where one is given, is at least 1.
abbrev pub IsOneBased : Option ℤ → Type 0
IsOneBased none = Unit
IsOneBased (some (pos n)) = 1 ≤ n
IsOneBased (some (negsuc n)) = ⊥

-- What each language needs to bind the instrumentation.
abbrev pub Binds : Text → Inputs → Type 0
Binds lang i =
    ((lang ≡ lit "java")
      × IsGiven i.code_unit
      × IsGiven i.class_name
      × IsGiven i.method_name
      × All (λ c. c ≢ b'.') (or_blank i.class_name))
    ⊎ ((lang ≡ lit "python") × IsGiven i.code_unit × IsGiven i.method_name)
    ⊎ ((lang ≡ lit "javascript") × (i.line_number ≢ none))

abbrev pub IsBindable : Inputs → Type 0
IsBindable i =
    (strip (or_blank i.file_path) ≢ [])
    × IsOneBased i.line_number
    × Binds (fold_language i.language) i

strip-nil : strip [] ≡ []
unfolding strip
strip-nil = refl

path_errors_iff : (p : Option Text) → (path_errors p ≡ []) ↔ (strip (or_blank p) ≢ [])
unfolding path_errors
path_errors_iff none = ground (arith, strip-nil)
path_errors_iff (some []) = ground (arith, strip-nil)
path_errors_iff (some (c ∷ s)) = ground arith

line_errors_iff : (n : Option ℤ) → (line_errors n ≡ []) ↔ IsOneBased n
unfolding line_errors
line_errors_iff none = ground arith
line_errors_iff (some (pos zero)) = ground arith
line_errors_iff (some (pos (suc n))) = (λ _. omega arith, λ _. refl)
line_errors_iff (some (negsuc n)) = ground arith

has_substring-dot_iff : (s : Text) → (has_substring s (lit ".") ≢ true) ↔ All (λ c. c ≢ b'.') s
unfolding has_substring lit starts_with nat_eq
has_substring-dot_iff [] = ground arith
has_substring-dot_iff (c ∷ []) = ground arith
has_substring-dot_iff (c ∷ d ∷ s) = ground (arith, has_substring-dot_iff (d ∷ s))

java_errors_iff :
    (i : Inputs)
    → (java_errors i ≡ []) ↔ (
        IsGiven i.code_unit
        × IsGiven i.class_name
        × IsGiven i.method_name
        × All (λ c. c ≢ b'.') (or_blank i.class_name))
unfolding java_errors is_dotted
java_errors_iff i = grind (arith, has_substring-dot_iff (or_blank i.class_name))

python_errors_iff :
    (i : Inputs) → (python_errors i ≡ []) ↔ (IsGiven i.code_unit × IsGiven i.method_name)
unfolding python_errors
python_errors_iff i = ground arith

javascript_errors_iff : (i : Inputs) → (javascript_errors i ≡ []) ↔ (i.line_number ≢ none)
unfolding javascript_errors
javascript_errors_iff i = ground arith

java≢python : ◌≢◌ {A = Text} (lit "java") (lit "python")
unfolding lit
java≢python = cc

java≢javascript : ◌≢◌ {A = Text} (lit "java") (lit "javascript")
unfolding lit
java≢javascript = cc

python≢javascript : ◌≢◌ {A = Text} (lit "python") (lit "javascript")
unfolding lit
python≢javascript = cc

rule_errors_iff :
    (lang : Text) (i : Inputs)
    → ((language_errors lang i.language ≡ []) × (rule_errors lang i ≡ [])) ↔ Binds lang i
unfolding language_errors rule_errors
rule_errors_iff lang i = ground (
  arith,
  java_errors_iff i,
  python_errors_iff i,
  javascript_errors_iff i,
  java≢python,
  java≢javascript,
  python≢javascript,
)

append-eq-nil_iff {ℓ} :
    {A : Type ℓ} (a b c d : List A)
    → (a ++ (b ++ (c ++ d)) ≡ []) ↔ ((a ≡ []) × (b ≡ []) × (c ≡ []) × (d ≡ []))
append-eq-nil_iff [] [] [] d = ground arith
append-eq-nil_iff (x ∷ a) b c d = ground arith
append-eq-nil_iff [] (x ∷ b) c d = ground arith
append-eq-nil_iff [] [] (x ∷ c) d = ground arith

location_errors_iff : (i : Inputs) → (location_errors i ≡ []) ↔ IsBindable i
unfolding location_errors
location_errors_iff i =
    let p = path_errors_iff i.file_path in
    let l = line_errors_iff i.line_number in
    let r = rule_errors_iff (fold_language i.language) i in
    let lang = fold_language i.language in
    let parts =
      append-eq-nil_iff (path_errors i.file_path) (line_errors i.line_number)
        (language_errors lang i.language) (rule_errors lang i) in
    (
      λ e. let (a, b, c, d) = parts.0 e in (p.0 a, l.0 b, r.0 (c, d)),
      λ (a, b, c). let (d, e) = r.1 c in parts.1 (p.1 a, l.1 b, d, e),
    )

-- Location inputs are accepted exactly when the file path is not blank, a given line number is at
-- least 1, and the fields are there that the language needs: for Java the package, a class name
-- without a dot and the method, for Python the module and the function, for JavaScript the line.
pub validate_location_inputs_iff : (i : Inputs) → (validate_location_inputs i ≡ none) ↔ IsBindable i
unfolding validate_location_inputs
validate_location_inputs_iff i = ground (arith, location_errors_iff i)

-- ===== src/Crud/Guards.antt =====
-- When an operation of di_crud_tools.py gets as far as to send a request.
use mathlib.Core.Path.{subst}
use kiro_usage_pipeline.Base.{
  true, false, Option, none, some, [], ◌∷◌, ◌++◌, ◌≡◌, ◌⊎◌, ◌↔◌, refl, sym, arith, Text, lit,
  text_eq,
}
use kiro_usage_pipeline.Validation.{fold_word, type_error_text, normalize_instrumentation_type}
use kiro_usage_pipeline.Operation.{Op, done, raises, request, answer}
use kiro_usage_pipeline.Value.{Fields}
use kiro_usage_pipeline.Location.{Location, to_identifier}
use kiro_usage_pipeline.Location.Inputs.{Outcome}
use kiro_usage_pipeline.Location.Inputs.{parse_lookup_inputs}
use kiro_usage_pipeline.Location.Outcomes.{IsDecided, parse_inputs-IsDecided}
use kiro_usage_pipeline.Location.Lookup.{
  IsFindable, location_of, identifier_of, parse_lookup_inputs_iff, to_identifier-location_of,
}
use kiro_usage_pipeline.Crud.{
  with_type, with_location, with_identifier, Target, lookup, lookup_failed,
}

abbrev pub Sends : Op → Type 0
Sends (done _) = ⊥
Sends (raises _) = ⊥
Sends (request _ _ _) = Unit

abbrev pub IsTypeWord : Text → Type 0
IsTypeWord word = (word ≡ lit "BREAKPOINT") ⊎ (word ≡ lit "PROBE")

-- A predicate that fails on every refusal: an answer that is not ok, or an exception.
abbrev pub FailsOnRefusal : (Op → Type 0) → Type 0
FailsOnRefusal F =
    ((message : Text) → F (answer false message) → ⊥) × ((message : Text) → F (raises message) → ⊥)

module _ (F : Op → Type 0) (refused : FailsOnRefusal F) where
  pub with_type_iff :
      (t : Option Text) (next : Text → Op)
      → F (with_type t next) ↔ (IsTypeWord (fold_word t) × F (next (fold_word t)))
  unfolding with_type normalize_instrumentation_type
  with_type_iff t next = ground (arith, refused.0 (type_error_text t))

  pub checked_iff :
      (error : Option Text) (next : Op)
      → F (elim error [ some message ↦ answer false message | none ↦ next ])
        ↔ ((error ≡ none) × F next)
  checked_iff none next = (λ x. (refl, x), λ (e, x). x)
  checked_iff (some message) next = (λ x. absurd (refused.0 message x), λ (e, x). absurd cc)

  pub with_location_iff :
      (outcome : Outcome) (failed : Text → Op) (next : Location → Op)
      → IsDecided outcome
      → ((message : Text) → F (failed message) → ⊥)
      → F (with_location outcome failed next)
        ↔ ((location : Location) × (outcome ≡ (some location, none)) × F (next location))
  unfolding with_location
  with_location_iff (none, none) failed next h fails = absurd h
  with_location_iff (none, some []) failed next h fails = absurd (h refl)
  with_location_iff (none, some (c ∷ s)) failed next h fails =
      (λ x. absurd (fails (c ∷ s) x), λ (l, e, x). absurd cc)
  with_location_iff (some l, none) failed next h fails =
      (λ s. (l, refl, s), λ (m, e, s). let same : m ≡ l = cc in subst (λ x. F (next x)) same s)
  with_location_iff (some l, some _) failed next h fails = absurd h

pub Sends-FailsOnRefusal : FailsOnRefusal Sends
Sends-FailsOnRefusal = (λ _ x. x, λ _ x. x)

-- What the request of an operation satisfies, if it sends one.
abbrev pub Requests : (Text → Fields → Type 0) → Op → Type 0
Requests P (done _) = Unit
Requests P (raises _) = Unit
Requests P (request name kwargs _) = P name kwargs

pub Requests-map :
    {P Q : Text → Fields → Type 0} (op : Op)
    → ((name : Text) (d : Fields) → P name d → Q name d)
    → Requests P op
    → Requests Q op
Requests-map (done _) f h = tt
Requests-map (raises _) f h = tt
Requests-map (request name kwargs _) f h = f name kwargs h

-- A predicate that holds of every refusal, through the checks that the operations share.
module _ (F : Op → Type 0) (refused : (message : Text) → F (answer false message)) where
  pub with_type_holds :
      (t : Option Text) (next : Text → Op) → F (next (fold_word t)) → F (with_type t next)
  unfolding with_type normalize_instrumentation_type
  with_type_holds t next h = ground (arith, refused (type_error_text t))

  pub checked_holds :
      (error : Option Text) (next : Op)
      → F next
      → F (elim error [ some message ↦ answer false message | none ↦ next ])
  checked_holds none next h = h
  checked_holds (some message) next h = refused message

  pub with_location_holds :
      (outcome : Outcome) (failed : Text → Op) (next : Location → Op)
      → IsDecided outcome
      → ((message : Text) → F (failed message))
      → ((location : Location) → outcome ≡ (some location, none) → F (next location))
      → F (with_location outcome failed next)
  unfolding with_location
  with_location_holds (none, none) failed next d f h = absurd d
  with_location_holds (none, some []) failed next d f h = absurd (d refl)
  with_location_holds (none, some (c ∷ s)) failed next d f h = f (c ∷ s)
  with_location_holds (some l, none) failed next d f h = h l refl
  with_location_holds (some l, some _) failed next d f h = absurd d

pub with_identifier-some :
    (location : Location) {d : Fields} (next : Fields → Op)
    → to_identifier location ≡ some d
    → with_identifier location next ≡ next d
unfolding with_identifier
with_identifier-some location next e = ground arith

abbrev pub target_location : Target → Location
target_location t = location_of t.location_hash t.location

abbrev pub target_identifier : Target → Fields
target_identifier t = identifier_of t.location_hash t.location

pub with_target_identifier :
    (t : Target) (next : Fields → Op)
    → with_identifier (target_location t) next ≡ next (target_identifier t)
with_target_identifier t next =
    with_identifier-some (target_location t) next
      (to_identifier-location_of t.location_hash t.location)

module _ (F : Op → Type 0) (refused : FailsOnRefusal F) where
  lookup_failed-refused : (help message : Text) → F (lookup_failed help message) → ⊥
  unfolding lookup_failed
  lookup_failed-refused help message =
      ground (arith, refused.0 help, refused.0 (lit "ERROR: " ++ message))

  pub lookup_iff :
      (help : Text) (t : Target) (next : Location → Op)
      → F (lookup help t next)
        ↔ (IsFindable t.location_hash t.location × F (next (target_location t)))
  unfolding lookup
  lookup_iff help t next =
      let found =
        with_location_iff F refused (parse_lookup_inputs t.location_hash t.location true) _ next
          (parse_inputs-IsDecided t.location_hash t.location true).1 (lookup_failed-refused help) in
      let parsed = parse_lookup_inputs_iff t.location_hash t.location in
      (
        λ h.
            let (location, e, s) = found.0 h in
            let (f, same) = (parsed location).0 e in (f, subst (λ l. F (next l)) same s),
        λ (f, s). found.1 (target_location t, (parsed (target_location t)).1 (f, refl), s),
      )

pub with_type-accepted :
    (t : Option Text) (next : Text → Op)
    → IsTypeWord (fold_word t)
    → with_type t next ≡ next (fold_word t)
unfolding with_type normalize_instrumentation_type
with_type-accepted t next h = ground arith

module _ (F : Op → Type 0) (refused : (message : Text) → F (answer false message)) where
  lookup_failed_holds : (help message : Text) → F (lookup_failed help message)
  unfolding lookup_failed
  lookup_failed_holds help message =
      ground (arith, refused help, refused (lit "ERROR: " ++ message))

  pub lookup_holds :
      (help : Text) (t : Target) (next : Location → Op)
      → F (next (target_location t))
      → F (lookup help t next)
  unfolding lookup
  lookup_holds help t next h =
      with_location_holds F refused (parse_lookup_inputs t.location_hash t.location true) _ next
        (parse_inputs-IsDecided t.location_hash t.location true).1 (lookup_failed_holds help)
        (λ location e.
          subst (λ l. F (next l))
            (sym ((parse_lookup_inputs_iff t.location_hash t.location location).0 e).1) h)

-- ===== src/Clients/Kept.antt =====
-- A client is built once and kept.
use mathlib.Core.Path.{subst}
use mathlib.Core.Option.{some-injective}
use kiro_usage_pipeline.Base.{
  ℕ, ◌+◌, Bool, true, false, Option, none, some, List, [], ◌∷◌, Text, lit, contains, text_eq,
  Bool-cases, ◌≡◌, inl, inr, refl, sym, if◌then◌else◌,
}
use kiro_usage_pipeline.Clients.{
  Environ, Sdk, Cache, Attribute, attribute_error, allowed_logs_operations, disallowed,
  min_di_operation, Obtained, client, runtime_error, build_client, method_of, get_attribute,
  checked, obtained, get_application_signals_client,
}

abbrev pub Lookup : Type 0
Lookup = Text × Environ

module _ {C : Type 0} (sdk : Sdk C) where
  -- Lookups on the proxy, one after the other, each in the environment of its moment.
  unfoldable pub lookups : List Lookup → Cache C → List (Attribute C) × Cache C
  lookups [] cache = ([], cache)
  lookups (l ∷ ls) cache =
      let here = get_attribute sdk l.0 l.1 cache in
      let rest = lookups ls here.1 in (here.0 ∷ rest.0, rest.1)

  unfoldable pub is_allowed : Lookup → Bool
  is_allowed l = contains allowed_logs_operations l.0

  -- The client of the first lookup that is allowed.
  unfoldable pub first_client : List Lookup → Option C
  first_client [] = none
  first_client (l ∷ ls) =
      let later = first_client ls in
      if is_allowed l then some (build_client sdk (lit "logs") l.1) else later

  -- What a lookup gives where this is the client of all.
  unfoldable pub answer : Option C → Lookup → Attribute C
  answer none l = attribute_error (disallowed l.0)
  answer (some c) l = if is_allowed l then method_of sdk l.0 c else attribute_error (disallowed l.0)

  unfoldable pub answers : Option C → List Lookup → List (Attribute C)
  answers o [] = []
  answers o (l ∷ ls) = answer o l ∷ answers o ls

  abbrev pub holding : Option C → Cache C
  holding none = record { client = none; builds = 0 }
  holding (some c) = record { client = some c; builds = 1 }

  get_attribute-held :
      (c : C) (l : Lookup)
      → get_attribute sdk l.0 l.1 (holding (some c)) ≡ (answer (some c) l, holding (some c))
  unfolding get_attribute answer is_allowed
  get_attribute-held c l = elim (Bool-cases (is_allowed l)) [
    | inl e ↦ rw e refl
    | inr e ↦ rw e refl
  ]

  lookups-held :
      (c : C) (ls : List Lookup)
      → lookups ls (holding (some c)) ≡ (answers (some c) ls, holding (some c))
  unfolding lookups answers first_client
  lookups-held c [] = refl
  lookups-held c (l ∷ ls) = rw (get_attribute-held c l, lookups-held c ls) refl

  get_attribute-allowed :
      (l : Lookup)
      → is_allowed l ≡ true
      → let c = build_client sdk (lit "logs") l.1 in
        get_attribute sdk l.0 l.1 (holding none) ≡ (answer (some c) l, holding (some c))
  unfolding get_attribute answer is_allowed
  get_attribute-allowed l e = rw e refl

  get_attribute-disallowed :
      (l : Lookup)
      → is_allowed l ≡ false
      → get_attribute sdk l.0 l.1 (holding none) ≡ (attribute_error (disallowed l.0), holding none)
  unfolding get_attribute answer is_allowed
  get_attribute-disallowed l e = rw e refl

  answer-disallowed :
      (o : Option C) (l : Lookup)
      → is_allowed l ≡ false
      → answer o l ≡ attribute_error (disallowed l.0)
  unfolding answer
  answer-disallowed none l e = refl
  answer-disallowed (some c) l e = rw e refl

  first_client-empty : first_client [] ≡ none
  unfolding first_client
  first_client-empty = refl

  first_client-allowed :
      (l : Lookup) (ls : List Lookup)
      → is_allowed l ≡ true
      → first_client (l ∷ ls) ≡ some (build_client sdk (lit "logs") l.1)
  unfolding first_client
  first_client-allowed l ls e = rw e refl

  first_client-disallowed :
      (l : Lookup) (ls : List Lookup)
      → is_allowed l ≡ false
      → first_client (l ∷ ls) ≡ first_client ls
  unfolding first_client
  first_client-disallowed l ls e = rw e refl

  lookups-empty : lookups [] (holding none) ≡ (answers none [], holding none)
  unfolding lookups answers
  lookups-empty = refl

  lookups-allowed :
      (l : Lookup) (ls : List Lookup)
      → is_allowed l ≡ true
      → let c = build_client sdk (lit "logs") l.1 in
        lookups (l ∷ ls) (holding none) ≡ (answers (some c) (l ∷ ls), holding (some c))
  unfolding lookups answers
  lookups-allowed l ls e =
      rw (get_attribute-allowed l e, lookups-held (build_client sdk (lit "logs") l.1) ls) refl

  lookups-disallowed :
      (l : Lookup) (ls : List Lookup) (o : Option C)
      → is_allowed l ≡ false
      → lookups ls (holding none) ≡ (answers o ls, holding o)
      → lookups (l ∷ ls) (holding none) ≡ (answers o (l ∷ ls), holding o)
  unfolding lookups answers
  lookups-disallowed l ls o e later =
      rw (get_attribute-disallowed l e, later, answer-disallowed o l e) refl

  -- Any sequence of lookups gives the methods of one client, that of the first allowed lookup in its
  -- environment, and errors for the names that are not allowed, as if the client had been there from
  -- the start. It is built once, and not at all where no lookup is allowed.
  pub lookups-first_client :
      (ls : List Lookup)
      → lookups ls (holding none) ≡ (answers (first_client ls) ls, holding (first_client ls))
  lookups-first_client [] =
      subst (λ o. lookups [] (holding none) ≡ (answers o [], holding o)) (sym first_client-empty)
        lookups-empty
  lookups-first_client (l ∷ ls) = elim (Bool-cases (is_allowed l)) [
    | inl e ↦
        subst (λ o. lookups (l ∷ ls) (holding none) ≡ (answers o (l ∷ ls), holding o))
          (sym (first_client-allowed l ls e)) (lookups-allowed l ls e)
    | inr e ↦
        subst (λ o. lookups (l ∷ ls) (holding none) ≡ (answers o (l ∷ ls), holding o))
          (sym (first_client-disallowed l ls e))
          (lookups-disallowed l ls (first_client ls) e (lookups-first_client ls))
  ]

  -- A client is kept only if its model has the operation that is needed.
  abbrev pub IsSupported : Cache C → Type 0
  IsSupported cache = (c : C) → cache.client ≡ some c → sdk.supports c min_di_operation ≡ true

  -- A client that is handed over is kept.
  abbrev pub IsKept : Obtained C × Cache C → Type 0
  IsKept (client c, cache) = cache.client ≡ some c
  IsKept (runtime_error e, cache) = cache.client ≡ none

  checked-IsSupported :
      (c : C) (builds : ℕ) → IsSupported (checked sdk c builds).1 × IsKept (checked sdk c builds)
  checked-IsSupported c builds = elim (Bool-cases (sdk.supports c min_di_operation)) [
    | inl e ↦ rw e (
      λ c' q. subst (λ x. sdk.supports x min_di_operation ≡ true) (some-injective c c' q) e,
      refl,
    )
    | inr e ↦ rw e (λ c' q. absurd cc, refl)
  ]

  obtained-IsSupported :
      (environ : Environ) (o : Option C) (builds : ℕ)
      → IsSupported (record { client = o; builds = builds })
      → IsSupported (obtained sdk environ o builds).1 × IsKept (obtained sdk environ o builds)
  obtained-IsSupported environ (some c) builds h = (h, refl)
  obtained-IsSupported environ none builds h =
      checked-IsSupported (build_client sdk (lit "application-signals") environ) (builds + 1)

  -- Where the client that is kept, if there is one, has the operation that is needed, this holds
  -- after it was asked for as well; a client that is handed over is the one that is kept, and after
  -- an error none is.
  pub get_application_signals_client-IsSupported :
      (environ : Environ) (cache : Cache C)
      → IsSupported cache
      → IsSupported (get_application_signals_client sdk environ cache).1
        × IsKept (get_application_signals_client sdk environ cache)
  unfolding get_application_signals_client
  get_application_signals_client-IsSupported environ cache h =
      obtained-IsSupported environ cache.client cache.builds h

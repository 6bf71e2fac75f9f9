-- ===== src/Entry/Contract/Binding.antt =====
-- What the contract says of a call is what a call binds.
use kiro_usage_pipeline.Base.{
  Bool, true, false, ◌&&◌, ◌||◌, not, Option, none, some, List, [], ◌∷◌, Text, lit, contains, ◌==◌,
  text_eq, nat_eq, ◌≡◌, refl, sym, ◌∙◌, ap, arith, All, if◌then◌else◌,
}
use kiro_usage_pipeline.Value.{Value, null, bool, dict, Fields, end, field, is_true}
use kiro_usage_pipeline.Value.Dict.{get, get_or_null, or_else, has, insert, get-insert}
use kiro_usage_pipeline.Entry.Contract.{
  Param, names, is_needed, all_known, all_given, binds, update, with_default, hint_of, describe,
  describe_all,
}

abbrev is_required : Value → Bool
is_required (dict d) = is_true (get_or_null (lit "required") d)
is_required _ = false

-- The keys of the payload are all arguments of the contract.
abbrev keys_known : Fields → Fields → Bool
keys_known args end = true
keys_known args (field k v d) = has k args && keys_known args d

-- The arguments that the contract calls required are keys of the payload.
abbrev required_given : Fields → Fields → Bool
required_given end d = true
required_given (field k v args) d =
    (if is_required v then has k d else true) && required_given args d

abbrev pub accepts : Fields → Fields → Bool
accepts args payload = keys_known args payload && required_given args payload

has-insert : (k j : Text) (v : Value) (d : Fields) → has j (insert k v d) ≡ (j == k || has j d)
has-insert k j v d = ground (arith, get-insert k j v d)

and_true : (b : Bool) → (b && true) ≡ b
and_true true = refl
and_true false = refl

and_assoc : (a b c : Bool) → ((a && b) && c) ≡ (a && (b && c))
and_assoc true b c = refl
and_assoc false b c = refl

or_shift : (a b c : Bool) → (a || (b || c)) ≡ ((b || a) || c)
or_shift true true c = refl
or_shift true false c = refl
or_shift false true c = refl
or_shift false false c = refl

module _ (hints : Fields) where
  has-describe_all :
      (ps : List Param) (d : Fields) (k : Text)
      → has k (describe_all hints ps d) ≡ (contains (names ps) k || has k d)
  unfolding describe_all
  has-describe_all [] d k = refl
  has-describe_all (p ∷ ps) d k =
      has-describe_all ps (insert p.name (dict (describe hints p)) d) k
      ∙ ap (λ b. contains (names ps) k || b) (has-insert p.name k (dict (describe hints p)) d)
      ∙ or_shift (contains (names ps) k) (k == p.name) (has k d)

  or_none : (b : Bool) → (b || false) ≡ b
  or_none true = refl
  or_none false = refl

  keys_known-describe_all :
      (ps : List Param) (payload : Fields)
      → keys_known (describe_all hints ps end) payload ≡ all_known ps payload
  unfolding all_known get
  keys_known-describe_all ps end = refl
  keys_known-describe_all ps (field k v d) =
      ap (λ b. b && keys_known (describe_all hints ps end) d)
        (has-describe_all ps end k ∙ or_none (contains (names ps) k))
      ∙ ap (λ b. contains (names ps) k && b) (keys_known-describe_all ps d)

  get-update : (k : Text) (d e : Fields) → has k e ≡ false → get k (update d e) ≡ get k d
  unfolding get
  get-update k d end h = refl
  get-update k d (field j v e) h = ground (arith, get-update k (insert j v d) e, get-insert j k v d)

  -- No hint speaks of the key `required`.
  abbrev pub LeavesRequired : Param → Type 0
  LeavesRequired p = has (lit "required") (hint_of (get p.name hints)) ≡ false

  required-with_default :
      (o : Option Value) (b : Bool)
      → is_true
          (get_or_null (lit "required") (with_default o (field (lit "required") (bool b) end)))
        ≡ b
  unfolding get insert lit text_eq nat_eq
  required-with_default none true = refl
  required-with_default none false = refl
  required-with_default (some v) b = ground arith

  is_required-describe :
      (p : Param) → LeavesRequired p → is_required (dict (describe hints p)) ≡ is_needed p.default
  unfolding describe
  is_required-describe p h =
      ap (λ o. is_true (or_else o null))
        (get-update (lit "required")
          (with_default p.default (field (lit "required") (bool (is_needed p.default)) end))
          (hint_of (get p.name hints)) h)
      ∙ required-with_default p.default (is_needed p.default)

  required_given-insert :
      (k : Text) (v : Value) (d payload : Fields)
      → has k d ≡ false
      → required_given (insert k v d) payload
        ≡ (required_given d payload && (if is_required v then has k payload else true))
  unfolding get insert
  required_given-insert k v end payload h = and_true (if is_required v then has k payload else true)
  required_given-insert k v (field j w d) payload h =
      ground (arith, required_given-insert k v d payload)

  -- None of the parameters is described yet.
  abbrev AreFresh : List Param → Fields → Type 0
  AreFresh ps d = All (λ p. has p.name d ≡ false) ps

  AreFresh-insert :
      (k : Text) (v : Value) (ps : List Param) (d : Fields)
      → contains (names ps) k ≡ false
      → AreFresh ps d
      → AreFresh ps (insert k v d)
  unfolding text_eq
  AreFresh-insert k v [] d e h = tt
  AreFresh-insert k v (p ∷ ps) d e (f, h) =
      (ground (arith, has-insert k p.name v d), AreFresh-insert k v ps d (ground arith) h)

  -- The names differ, and no hint speaks of `required`.
  abbrev pub AreFit : List Param → Type 0
  AreFit [] = Unit
  AreFit (p ∷ ps) = (contains (names ps) p.name ≡ false) × LeavesRequired p × AreFit ps

  abbrev pub are_fit : List Param → Bool
  are_fit [] = true
  are_fit (p ∷ ps) =
      not (contains (names ps) p.name)
      && (not (has (lit "required") (hint_of (get p.name hints))) && are_fit ps)

  are_fit-AreFit : (ps : List Param) → are_fit ps ≡ true → AreFit ps
  are_fit-AreFit [] h = tt
  are_fit-AreFit (p ∷ ps) h = (ground arith, ground arith, are_fit-AreFit ps (ground arith))

  required_given-describe_all :
      (ps : List Param) (d payload : Fields)
      → AreFit ps
      → AreFresh ps d
      → required_given (describe_all hints ps d) payload
        ≡ (required_given d payload && all_given ps payload)
  unfolding describe_all all_given
  required_given-describe_all [] d payload fit fresh = sym (and_true (required_given d payload))
  required_given-describe_all (p ∷ ps) d payload (apart, leaves, fit) (new, fresh) =
      required_given-describe_all ps (insert p.name (dict (describe hints p)) d) payload fit
        (AreFresh-insert p.name (dict (describe hints p)) ps d apart fresh)
      ∙ ap (λ b. b && all_given ps payload)
          (required_given-insert p.name (dict (describe hints p)) d payload new
            ∙ ap (λ b. required_given d payload && (if b then has p.name payload else true))
                (is_required-describe p leaves))
      ∙ and_assoc (required_given d payload)
          (if is_needed p.default then has p.name payload else true) (all_given ps payload)

  all_fresh : (ps : List Param) → AreFresh ps end
  unfolding get
  all_fresh [] = tt
  all_fresh (p ∷ ps) = (refl, all_fresh ps)

  -- A payload is accepted by the contract exactly when the call binds it.
  pub accepts-describe_all :
      (ps : List Param) (payload : Fields)
      → are_fit ps ≡ true
      → accepts (describe_all hints ps end) payload ≡ binds ps payload
  unfolding binds
  accepts-describe_all ps payload fit =
      ap (λ b. b && required_given (describe_all hints ps end) payload)
        (keys_known-describe_all ps payload)
      ∙ ap (λ b. all_known ps payload && b)
          (required_given-describe_all ps end payload (are_fit-AreFit ps fit) (all_fresh ps))

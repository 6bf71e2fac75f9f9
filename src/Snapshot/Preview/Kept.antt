-- ===== src/Snapshot/Preview/Kept.antt =====
-- What a preview keeps of a captured value.
use kiro_usage_pipeline.Base.{
  sym, ◌∙◌, true, false, Bool, Option, none, some, ◌≡◌, refl, arith, Text, lit, ◌==◌, text_eq,
  nat_eq, inl, inr, Bool-cases,
}
use kiro_usage_pipeline.Value.{
  Value, null, bool, int, float, str, time, list, dict, Fields, end, field, truthy, is_true,
}
use kiro_usage_pipeline.Value.Dict.{get, get_or_null, insert, insert_if, get-insert}
use kiro_usage_pipeline.Snapshot.Preview.{
  is_typed, type_preview, insert_some, nonempty_or, entries_preview, elements_preview,
  object_preview, value_preview, reason_preview, dict_preview, preview_captured_value,
  first_preview,
}

insert-truthy : (k : Text) (v : Value) (d : Fields) → truthy (dict (insert k v d)) ≡ true
unfolding insert
insert-truthy k v end = refl
insert-truthy k v (field j w d) = ground arith

get-truthy : (k : Text) (d : Fields) {v : Value} → get k d ≡ some v → truthy (dict d) ≡ true
unfolding get
get-truthy k end h = absurd cc
get-truthy k (field _ _ _) h = refl

is_typed-full : (d : Fields) → is_typed d ≡ true → truthy (dict d) ≡ true
unfolding get
is_typed-full end h = absurd cc
is_typed-full (field _ _ _) h = refl

get-single : (v : Value) → get_or_null (lit "type") (insert (lit "type") v end) ≡ v
unfolding get insert lit text_eq nat_eq
get-single v = refl

module _ (d : Fields) where
  -- Where the captured value has a type, so has the preview.
  abbrev HasType : Fields → Type 0
  HasType p = is_typed d ≡ true → get_or_null (lit "type") p ≡ get_or_null (lit "type") d

  abbrev IsKept : Fields → Type 0
  IsKept p = (truthy (dict p) ≡ truthy (dict d)) × HasType p

  -- Something was looked up in the captured value, or nothing was.
  abbrev IsFound : Option Value → Type 0
  IsFound o = (v : Value) → o ≡ some v → truthy (dict d) ≡ true

  insert-IsKept :
      (k : Text) (v : Value) (p : Fields)
      → (lit "type" == k) ≡ false
      → truthy (dict d) ≡ true
      → HasType p
      → IsKept (insert k v p)
  insert-IsKept k v p other full h =
      (insert-truthy k v p ∙ sym full, λ t. ground (arith, get-insert k (lit "type") v p, h t))

  insert_some-IsKept :
      (k : Text) (o : Option Value) (p : Fields)
      → (lit "type" == k) ≡ false
      → truthy (dict d) ≡ true
      → IsKept p
      → IsKept (insert_some k o p)
  insert_some-IsKept k none p other full h = h
  insert_some-IsKept k (some v) p other full h = insert-IsKept k v p other full h.1

  insert_if-IsKept :
      (b : Bool) (k : Text) (v : Value) (p : Fields)
      → (lit "type" == k) ≡ false
      → truthy (dict d) ≡ true
      → IsKept p
      → IsKept (insert_if b k v p)
  unfolding insert_if
  insert_if-IsKept false k v p other full h = h
  insert_if-IsKept true k v p other full h = insert-IsKept k v p other full h.1

  -- What is known of a preview that has at most the type.
  abbrev IsBase : Fields → Type 0
  IsBase p = (truthy (dict p) ≡ true → truthy (dict d) ≡ true) × HasType p

  nonempty_or-IsKept : (p : Fields) → IsBase p → IsKept (nonempty_or p d)
  nonempty_or-IsKept end h = (refl, λ t. refl)
  nonempty_or-IsKept (field k v p) h = (sym (h.0 refl), h.1)

  type_preview-IsBase : IsBase (type_preview d)
  unfolding type_preview insert_if
  type_preview-IsBase = elim (Bool-cases (is_typed d)) [
    | inl typed ↦
        rw typed (λ _. is_typed-full d typed, λ _. get-single (get_or_null (lit "type") d))
    | inr plain ↦ rw plain (λ e. absurd cc, λ t. absurd cc)
  ]

  entries_preview-IsKept :
      (o : Option Value) (p : Fields) → IsFound o → IsBase p → IsKept (entries_preview o p d)
  unfolding lit text_eq nat_eq
  entries_preview-IsKept (some (list es)) p found h =
      insert-IsKept (lit "entry_count") _ p refl (found (list es) refl) h.1
  entries_preview-IsKept none p found h = nonempty_or-IsKept p h
  entries_preview-IsKept (some null) p found h = nonempty_or-IsKept p h
  entries_preview-IsKept (some (bool _)) p found h = nonempty_or-IsKept p h
  entries_preview-IsKept (some (int _)) p found h = nonempty_or-IsKept p h
  entries_preview-IsKept (some (str _)) p found h = nonempty_or-IsKept p h
  entries_preview-IsKept (some (time _)) p found h = nonempty_or-IsKept p h
  entries_preview-IsKept (some (float _)) p found h = nonempty_or-IsKept p h
  entries_preview-IsKept (some (dict _)) p found h = nonempty_or-IsKept p h

  get-IsFound : (k : Text) → IsFound (get k d)
  get-IsFound k v e = get-truthy k d e

  next_entries : (p : Fields) → IsBase p → IsKept (entries_preview (get (lit "entries") d) p d)
  next_entries p h =
      entries_preview-IsKept (get (lit "entries") d) p (get-IsFound (lit "entries")) h

  elements_preview-IsKept :
      (o first : Option Value) (p : Fields)
      → IsFound o
      → IsBase p
      → IsKept (elements_preview o first p d)
  unfolding lit text_eq nat_eq
  elements_preview-IsKept (some (list vs)) first p found h =
      let full = found (list vs) refl in
      insert_some-IsKept (lit "first_element") first _ refl full
        (insert-IsKept (lit "element_count") _ p refl full h.1)
  elements_preview-IsKept none first p found h = next_entries p h
  elements_preview-IsKept (some null) first p found h = next_entries p h
  elements_preview-IsKept (some (bool _)) first p found h = next_entries p h
  elements_preview-IsKept (some (int _)) first p found h = next_entries p h
  elements_preview-IsKept (some (str _)) first p found h = next_entries p h
  elements_preview-IsKept (some (time _)) first p found h = next_entries p h
  elements_preview-IsKept (some (float _)) first p found h = next_entries p h
  elements_preview-IsKept (some (dict _)) first p found h = next_entries p h

  next_elements :
      (first : Option Value) (p : Fields)
      → IsBase p
      → IsKept (elements_preview (get (lit "elements") d) first p d)
  next_elements first p h =
      elements_preview-IsKept (get (lit "elements") d) first p (get-IsFound (lit "elements")) h

  object_preview-IsKept :
      (o first : Option Value) (p : Fields)
      → IsFound o
      → IsBase p
      → IsKept (object_preview o first p d)
  unfolding lit text_eq nat_eq
  object_preview-IsKept (some (dict fs)) first p found h =
      let full = found (dict fs) refl in
      insert_some-IsKept (lit "size") (get (lit "size") d) _ refl full
        (insert-IsKept (lit "fields_preview") _ p refl full h.1)
  object_preview-IsKept none first p found h = next_elements first p h
  object_preview-IsKept (some null) first p found h = next_elements first p h
  object_preview-IsKept (some (bool _)) first p found h = next_elements first p h
  object_preview-IsKept (some (int _)) first p found h = next_elements first p h
  object_preview-IsKept (some (str _)) first p found h = next_elements first p h
  object_preview-IsKept (some (time _)) first p found h = next_elements first p h
  object_preview-IsKept (some (float _)) first p found h = next_elements first p h
  object_preview-IsKept (some (list _)) first p found h = next_elements first p h

  value_preview-IsKept :
      (o first : Option Value) (p : Fields)
      → IsFound o
      → IsBase p
      → IsKept (value_preview o first p d)
  unfolding lit text_eq nat_eq
  value_preview-IsKept (some v) first p found h =
      let full = found v refl in
      insert_some-IsKept (lit "size") (get (lit "size") d) _ refl full (
        insert_if-IsKept (is_true (get_or_null (lit "truncated") d)) (lit "truncated") _ _ refl full
          (insert-IsKept (lit "value") v p refl full h.1))
  value_preview-IsKept none first p found h =
      object_preview-IsKept (get (lit "fields") d) first p (get-IsFound (lit "fields")) h

  reason_preview-IsKept :
      (o first : Option Value) (p : Fields)
      → IsFound o
      → IsBase p
      → IsKept (reason_preview o first p d)
  unfolding lit text_eq nat_eq
  reason_preview-IsKept (some r) first p found h =
      insert-IsKept (lit "not_captured_reason") r p refl (found r refl) h.1
  reason_preview-IsKept none first p found h =
      value_preview-IsKept (get (lit "value") d) first p (get-IsFound (lit "value")) h

is_null-full :
    (d : Fields) → is_true (get_or_null (lit "is_null") d) ≡ true → truthy (dict d) ≡ true
unfolding get
is_null-full end h = absurd cc
is_null-full (field _ _ _) h = refl

dict_preview-IsKept : (d : Fields) (first : Option Value) → IsKept d (dict_preview d first)
unfolding dict_preview lit text_eq nat_eq
dict_preview-IsKept d first = elim (Bool-cases (is_true (get_or_null (lit "is_null") d))) [
  | inl e ↦ rw e (
      insert-IsKept d (lit "is_null") (bool true) (type_preview d) refl (is_null-full d e)
        (type_preview-IsBase d).1)
  | inr e ↦ rw e (
      reason_preview-IsKept d (get (lit "not_captured_reason") d) first (type_preview d)
        (get-IsFound d (lit "not_captured_reason")) (type_preview-IsBase d))
]

-- The value of a key, where the value is a dict.
abbrev pub type_of : Value → Value
type_of (dict d) = get_or_null (lit "type") d
type_of _ = null

abbrev pub has_type : Value → Bool
has_type (dict d) = is_typed d
has_type _ = false

preview_captured_value-keeps :
    (v : Value)
    → (truthy (preview_captured_value v) ≡ truthy v)
      × (has_type v ≡ true → type_of (preview_captured_value v) ≡ type_of v)
unfolding preview_captured_value
preview_captured_value-keeps (dict d) = dict_preview-IsKept d (first_preview d)
preview_captured_value-keeps null = (refl, λ t. refl)
preview_captured_value-keeps (bool b) = (refl, λ t. refl)
preview_captured_value-keeps (int n) = (refl, λ t. refl)
preview_captured_value-keeps (str s) = (refl, λ t. refl)
preview_captured_value-keeps (time t) = (refl, λ t. refl)
preview_captured_value-keeps (float r) = (refl, λ t. refl)
preview_captured_value-keeps (list vs) = (refl, λ t. refl)

-- A preview is false in a test (None, zero, or empty) exactly where the value is.
pub truthy-preview_captured_value : (v : Value) → truthy (preview_captured_value v) ≡ truthy v
truthy-preview_captured_value v = (preview_captured_value-keeps v).0

-- The preview of a dict that has a type, neither None nor blank, has the same type.
pub type_of-preview_captured_value :
    (v : Value) → has_type v ≡ true → type_of (preview_captured_value v) ≡ type_of v
type_of-preview_captured_value v = (preview_captured_value-keeps v).1

-- ===== src/Value/Dict.antt =====
-- The `dict` operations that the scripts use, and their laws.
use kiro_usage_pipeline.Base.{
  Bool, true, false, Option, none, some, List, [], ◌∷◌, ◌≡◌, refl, arith,
}
use kiro_usage_pipeline.Base.{Text, ◌==◌, contains, text_eq, if◌then◌else◌}
use kiro_usage_pipeline.Value.{Value, null, list, dict, Items, nil, Fields, end, field}

-- `d.get(k)`, with `none` for a missing key.
unfoldable pub get : Text → Fields → Option Value
get k end = none
get k (field j v d) = if k == j then some v else get k d

abbrev pub or_else : Option Value → Value → Value
or_else none d = d
or_else (some v) d = v

-- `d.get(k, default)`, and `d.get(k)`.
abbrev pub get_or : Text → Value → Fields → Value
get_or k v d = or_else (get k d) v

abbrev pub get_or_null : Text → Fields → Value
get_or_null k d = get_or k null d

-- `k in d`
abbrev is_some : Option Value → Bool
is_some none = false
is_some (some _) = true

abbrev pub has : Text → Fields → Bool
has k d = is_some (get k d)

-- `d[k] = v`
unfoldable pub insert : Text → Value → Fields → Fields
insert k v end = field k v end
insert k v (field j w d) = if k == j then field j v d else field j w (insert k v d)

-- `d[k] = v` under a test.
unfoldable pub insert_if : Bool → Text → Value → Fields → Fields
insert_if b k v d = if b then insert k v d else d

unfoldable pub keys : Fields → List Text
keys end = []
keys (field k _ d) = k ∷ keys d

abbrev pub entries : Fields → List (Text × Value)
entries end = []
entries (field k v d) = (k, v) ∷ entries d

-- A dict display, whose keys differ.
abbrev pub of_entries : List (Text × Value) → Fields
of_entries [] = end
of_entries ((k, v) ∷ es) = field k v (of_entries es)

-- `d.get(k, {})`, and `{}` where that is no dict.
abbrev pub or_no_fields : Value → Fields
or_no_fields (dict d) = d
or_no_fields _ = end

abbrev pub get_fields : Text → Fields → Fields
get_fields k d = or_no_fields (get_or_null k d)

-- `d.get(k, [])`, and `[]` where that is no list.
abbrev pub or_no_items : Value → Items
or_no_items (list vs) = vs
or_no_items _ = nil

abbrev pub get_items : Text → Fields → Items
get_items k d = or_no_items (get_or_null k d)

-- `{k: v for k, v in d.items() if k not in known}`
unfoldable pub without : List Text → Fields → Fields
without known end = end
without known (field k v d) =
    let rest = without known d in if contains known k then rest else field k v rest

pub get-insert :
    (k j : Text) (v : Value) (d : Fields)
    → get j (insert k v d) ≡ (if j == k then some v else get j d)
unfolding get insert
get-insert k j v end = refl
get-insert k j v (field i w d) = ground (arith, get-insert k j v d)

pub get-end : (k : Text) → get k end ≡ none
unfolding get
get-end k = refl

pub get-field :
    (k j : Text) (v : Value) (d : Fields)
    → get k (field j v d) ≡ (if k == j then some v else get k d)
unfolding get
get-field k j v d = refl

pub get-without :
    (known : List Text) (k : Text) (d : Fields)
    → get k (without known d) ≡ (if contains known k then none else get k d)
unfolding get without
get-without known k end = ground arith
get-without known k (field j v d) = ground (arith, get-without known k d)

pub get-insert_if :
    (b : Bool) (k j : Text) (v : Value) (d : Fields)
    → get j (insert_if b k v d) ≡ (if j == k then (if b then some v else get j d) else get j d)
unfolding insert_if
get-insert_if b k j v d = ground (arith, get-insert k j v d)

pub without-insert :
    (known : List Text) (k : Text) (v : Value) (d : Fields)
    → contains known k ≡ true
    → without known (insert k v d) ≡ without known d
unfolding insert without
without-insert known k v end h = ground arith
without-insert known k v (field j w d) h = ground (arith, without-insert known k v d h)

pub without-insert_if :
    (known : List Text) (b : Bool) (k : Text) (v : Value) (d : Fields)
    → contains known k ≡ true
    → without known (insert_if b k v d) ≡ without known d
unfolding insert_if
without-insert_if known b k v d h = ground (arith, without-insert known k v d h)

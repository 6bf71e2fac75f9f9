-- ===== src/Crud/Removal/Shapes.antt =====
-- Which responses of a batch deletion can be rendered.
use kiro_usage_pipeline.Base.{
  true, Option, none, some, List, [], ◌∷◌, Text, lit, ◌≢◌, ◌↔◌, refl, arith,
}
use kiro_usage_pipeline.Value.{
  Value, null, bool, int, float, str, time, list, dict, Items, nil, cons, items, Fields, end, field,
  truthy,
}
use kiro_usage_pipeline.Value.Dict.{get, or_else, get_or}
use kiro_usage_pipeline.Crud.Rendering.Deletions.{
  cons_dict, all_dicts, item_dicts, format_batch_delete_response,
}
use kiro_usage_pipeline.Crud.Removal.{has_errors}

abbrev pub AreAllDicts : Items → Type 0
AreAllDicts nil = Unit
AreAllDicts (cons (dict _) vs) = AreAllDicts vs
AreAllDicts (cons _ vs) = ⊥

-- A list of dicts, or another value that is empty and has a length.
abbrev pub AreDicts : Value → Type 0
AreDicts (list vs) = AreAllDicts vs
AreDicts (str []) = Unit
AreDicts (dict end) = Unit
AreDicts _ = ⊥

-- An empty list, or another value that is empty and has a length.
abbrev pub IsNothing : Value → Type 0
IsNothing (list nil) = Unit
IsNothing (str []) = Unit
IsNothing (dict end) = Unit
IsNothing _ = ⊥

abbrev pub errors_of : Fields → Value
errors_of d = get_or (lit "Errors") (list nil) d

abbrev pub deletions_of : Fields → Value
deletions_of d = get_or (lit "SuccessfulDeletions") (list nil) d

-- The lists of the response, where they are given, are lists of dicts.
abbrev pub IsListed : Fields → Type 0
IsListed d = AreDicts (deletions_of d) × AreDicts (errors_of d)

-- The backend reports no error for any item, and lists what was deleted.
abbrev pub IsClean : Fields → Type 0
IsClean d = AreDicts (deletions_of d) × IsNothing (errors_of d)

cons_dict_iff :
    {P : Type 0} (d : Fields) (o : Option (List Fields))
    → (o ≢ none) ↔ P
    → (cons_dict (some d) o ≢ none) ↔ P
cons_dict_iff d none h = (λ k. absurd (k refl), λ p. absurd (h.1 p refl))
cons_dict_iff d (some ds) h = (λ k. h.0 (λ e. absurd cc), λ p e. absurd cc)

all_dicts_iff : (vs : Items) → (all_dicts (items vs) ≢ none) ↔ AreAllDicts vs
unfolding all_dicts
all_dicts_iff nil = ground arith
all_dicts_iff (cons (dict d) vs) = cons_dict_iff d (all_dicts (items vs)) (all_dicts_iff vs)
all_dicts_iff (cons null vs) = ground arith
all_dicts_iff (cons (bool _) vs) = ground arith
all_dicts_iff (cons (int _) vs) = ground arith
all_dicts_iff (cons (float _) vs) = ground arith
all_dicts_iff (cons (str _) vs) = ground arith
all_dicts_iff (cons (time _) vs) = ground arith
all_dicts_iff (cons (list _) vs) = ground arith

item_dicts_iff : (v : Value) → (item_dicts v ≢ none) ↔ AreDicts v
unfolding item_dicts
item_dicts_iff (list vs) = all_dicts_iff vs
item_dicts_iff (str []) = ground arith
item_dicts_iff (str (_ ∷ _)) = ground arith
item_dicts_iff (dict end) = ground arith
item_dicts_iff (dict (field _ _ _)) = ground arith
item_dicts_iff null = ground arith
item_dicts_iff (bool _) = ground arith
item_dicts_iff (int _) = ground arith
item_dicts_iff (float _) = ground arith
item_dicts_iff (time _) = ground arith

pub format_batch_delete_response_iff :
    (mode : Text) (d : Fields) (type service environment : Text)
    → (format_batch_delete_response mode d type service environment ≢ none) ↔ IsListed d
unfolding format_batch_delete_response
format_batch_delete_response_iff mode d type service environment =
    ground (arith, item_dicts_iff (deletions_of d), item_dicts_iff (errors_of d))

unlisted_iff : (v : Value) → ((truthy v ≢ true) × AreDicts v) ↔ IsNothing v
unlisted_iff (list nil) = ground arith
unlisted_iff (list (cons _ _)) = ground arith
unlisted_iff (str []) = ground arith
unlisted_iff (str (_ ∷ _)) = ground arith
unlisted_iff (dict end) = ground arith
unlisted_iff (dict (field _ _ _)) = ground arith
unlisted_iff null = ground arith
unlisted_iff (bool _) = ground arith
unlisted_iff (int _) = ground arith
unlisted_iff (float _) = ground arith
unlisted_iff (time _) = ground arith

missing_iff :
    (o : Option Value)
    → ((truthy (or_else o null) ≢ true) × AreDicts (or_else o (list nil)))
      ↔ IsNothing (or_else o (list nil))
missing_iff none = ground arith
missing_iff (some v) = unlisted_iff v

-- The response is reported as a success, and can be rendered, exactly when it is clean.
pub has_errors-IsClean_iff :
    (mode : Text) (d : Fields) (type service environment : Text)
    → ((has_errors d ≢ true)
        × (format_batch_delete_response mode d type service environment ≢ none))
      ↔ IsClean d
unfolding has_errors
has_errors-IsClean_iff mode d type service environment =
    let rendered = format_batch_delete_response_iff mode d type service environment in
    let missing = missing_iff (get (lit "Errors") d) in
    (
      λ (e, r). let (s, t) = rendered.0 r in (s, missing.0 (e, t)),
      λ (s, n). let (e, t) = missing.1 n in (e, rendered.1 (s, t)),
    )

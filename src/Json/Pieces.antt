-- ===== src/Json/Pieces.antt =====
-- What the machine does on a literal, an item and an entry.
use kiro_usage_pipeline.Base.{
  ℕ, true, false, none, some, [], ◌∷◌, ◌++◌, ◌≡◌, refl, sym, ◌∙◌, ap, arith, append-nil, All, Text,
  lit, nat_eq, text_eq, ℤ, is_empty, show_int,
}
use kiro_usage_pipeline.Value.{
  Value, null, bool, int, float, str, time, list, dict, Items, nil, cons, Fields, end, field,
}
use kiro_usage_pipeline.Value.Dict.{get, insert}
use kiro_usage_pipeline.Json.Write.{float_text, quote, newline}
use kiro_usage_pipeline.Json.Read.{
  Stack, in_list, in_dict, Parser, value_due, list_opened, dict_opened, key_due, colon_due,
  item_done, entry_done, finished, bad, snoc, complete, complete_at, list_at, dict_at, value_read,
  context, on_text, Machine, outside, is_atom_char, on_mark, flush, read_atom, step, run,
}
use kiro_usage_pipeline.Json.Texts.{IsScalar, run-append}
use kiro_usage_pipeline.Json.Numbers.{
  all_atom_chars, read_atom-show_int, show_int-atom, show_int-nonempty,
}
use kiro_usage_pipeline.Json.Steps.{run-atom, run-mark, run-newline, run-quote}

abbrev pub add_items : Items → Items → Items
add_items vs nil = vs
add_items vs (cons w ws) = add_items (snoc vs w) ws

abbrev pub insert_all : Fields → Fields → Fields
insert_all d end = d
insert_all d (field k v e) = insert_all (insert k v d) e

on_text-context :
    (s : Text) (p : Parser) (st : Stack) → context p ≡ some st → on_text s p ≡ complete (str s) st
on_text-context s (value_due st') st e = ap (complete_at (str s)) e
on_text-context s (list_opened st') st e = ap (complete_at (str s)) e
on_text-context s (dict_opened st') st e = absurd cc
on_text-context s (key_due d st') st e = absurd cc
on_text-context s (colon_due d k st') st e = absurd cc
on_text-context s (item_done vs st') st e = absurd cc
on_text-context s (entry_done d st') st e = absurd cc
on_text-context s (finished v) st e = absurd cc
on_text-context s bad st e = absurd cc

pub add_items-cons :
    (v : Value) (vs ws : Items) → add_items (cons v vs) ws ≡ cons v (add_items vs ws)
add_items-cons v vs nil = refl
add_items-cons v vs (cons w ws) = add_items-cons v (snoc vs w) ws

pub add_items-nil : (vs : Items) → add_items nil vs ≡ vs
add_items-nil nil = refl
add_items-nil (cons v vs) = add_items-cons v nil vs ∙ ap (cons v) (add_items-nil vs)

pub insert_all-field :
    (k : Text) (v : Value) (d e : Fields)
    → get k e ≡ none
    → insert_all (field k v d) e ≡ field k v (insert_all d e)
unfolding get insert text_eq
insert_all-field k v d end h = refl
insert_all-field k v d (field j w e) h = ground (arith, insert_all-field k v (insert j w d) e)

module _ (float_repr : Text → Text) where
  -- A text that is read as one literal or number with this value.
  abbrev pub IsAtom : Text → Value → Type 0
  IsAtom s v = (is_empty s ≡ false) × (all_atom_chars s ≡ true) × (read_atom float_repr s ≡ some v)

  -- A value that can be written and read back: texts have no surrogates, no key stands twice in a
  -- dict, and a float is what its own text is read as.
  unfoldable mutual
    pub IsReadable : Value → Type 0
    IsReadable null = Unit {0}
    IsReadable (bool _) = Unit {0}
    IsReadable (int _) = Unit {0}
    IsReadable (float r) = IsAtom (float_text r) (float r)
    IsReadable (str s) = All IsScalar s
    IsReadable (time _) = ⊥
    IsReadable (list vs) = AreReadable vs
    IsReadable (dict d) = AreEntries d

    pub AreReadable : Items → Type 0
    AreReadable nil = Unit {0}
    AreReadable (cons v vs) = IsReadable v × AreReadable vs

    pub AreEntries : Fields → Type 0
    AreEntries end = Unit {0}
    AreEntries (field k v d) = All IsScalar k × IsReadable v × (get k d ≡ none) × AreEntries d

  -- Reading the text where a value is due ends with the value.
  abbrev pub Reads : Text → Value → Type 0
  Reads s v =
      (p : Parser) (st : Stack)
      → context p ≡ some st
      → flush float_repr (run float_repr (outside p) s) ≡ outside (complete v st)

  pub atom-Reads : (s : Text) (v : Value) → IsAtom s v → Reads s v
  atom-Reads s v (full, chars, same) p st e =
      ap (flush float_repr) (run-atom float_repr s p full chars)
      ∙ ap (λ o. value_read o p) same
      ∙ ap (λ o. outside (complete_at v o)) e

  pub null-IsAtom : IsAtom (lit "null") null
  unfolding read_atom all_atom_chars is_atom_char lit text_eq nat_eq
  null-IsAtom = (refl, refl, refl)

  pub true-IsAtom : IsAtom (lit "true") (bool true)
  unfolding read_atom all_atom_chars is_atom_char lit text_eq nat_eq
  true-IsAtom = (refl, refl, refl)

  pub false-IsAtom : IsAtom (lit "false") (bool false)
  unfolding read_atom all_atom_chars is_atom_char lit text_eq nat_eq
  false-IsAtom = (refl, refl, refl)

  pub show_int-IsAtom : (i : ℤ) → IsAtom (show_int i) (int i)
  show_int-IsAtom i = (show_int-nonempty i, show_int-atom i, read_atom-show_int float_repr i)

  pub str-Reads : (s : Text) → All IsScalar s → Reads (quote s) (str s)
  unfolding run
  str-Reads s h p st e =
      ap (flush float_repr) (
        ap (run float_repr (outside p)) (sym (append-nil (quote s)))
        ∙ run-quote float_repr s [] p h)
      ∙ ap outside (on_text-context s p st e)

  -- The items after the first, and the end of the list.
  pub close_items :
      (k : ℕ) (vs : Items) (st : Stack) (m : Machine)
      → flush float_repr m ≡ outside (item_done vs st)
      → run float_repr m (newline k ++ (93 ∷ [])) ≡ outside (complete (list vs) st)
  unfolding run step on_mark is_atom_char nat_eq
  close_items k vs st m e = run-newline float_repr m k (93 ∷ []) (item_done vs st) e

  pub close_fields :
      (k : ℕ) (d : Fields) (st : Stack) (m : Machine)
      → flush float_repr m ≡ outside (entry_done d st)
      → run float_repr m (newline k ++ (125 ∷ [])) ≡ outside (complete (dict d) st)
  unfolding run step on_mark is_atom_char nat_eq
  close_fields k d st m e = run-newline float_repr m k (125 ∷ []) (entry_done d st) e

  pub insert_all-end : (d : Fields) → AreEntries d → insert_all end d ≡ d
  unfolding AreEntries insert
  insert_all-end end h = refl
  insert_all-end (field k v d) (_, _, fresh, rest) =
      insert_all-field k v end d fresh ∙ ap (field k v) (insert_all-end d rest)

  -- The machine has read a piece, and what it was in the middle of ends where the parser is `q`.
  abbrev pub Leaves : Machine → Text → Text → Parser → Type 0
  Leaves m s rest q =
      (m' : Machine) × (run float_repr m s ≡ run float_repr m' rest)
      × (flush float_repr m' ≡ outside q)

  read_value :
      (n : ℕ) (s rest : Text) (v : Value) (p : Parser) (st : Stack)
      → Reads s v
      → context p ≡ some st
      → Leaves (outside p) (newline n ++ (s ++ rest)) rest (complete v st)
  read_value n s rest v p st reads e = (
    run float_repr (outside p) s,
    run-newline float_repr (outside p) n (s ++ rest) p refl
        ∙ run-append float_repr (outside p) s rest,
    reads p st e,
  )

  pub open_item :
      (n : ℕ) (s rest : Text) (v : Value) (p : Parser) (st : Stack)
      → Reads s v
      → context p ≡ some st
      → Leaves (outside p) (91 ∷ (newline n ++ (s ++ rest))) rest (item_done (cons v nil) st)
  unfolding run step on_mark is_atom_char nat_eq
  open_item n s rest v p st reads e =
      let (m, runs, ends) = read_value n s rest v (list_opened st) (in_list nil st) reads refl in
      (m, ap (λ o. run float_repr (outside (list_at o)) (newline n ++ (s ++ rest))) e ∙ runs, ends)

  pub next_item :
      (n : ℕ) (s rest : Text) (v : Value) (m : Machine) (vs : Items) (st : Stack)
      → Reads s v
      → flush float_repr m ≡ outside (item_done vs st)
      → Leaves m (44 ∷ (newline n ++ (s ++ rest))) rest (item_done (snoc vs v) st)
  unfolding on_mark is_atom_char nat_eq
  next_item n s rest v m vs st reads e =
      let (m', runs, ends) =
        read_value n s rest v (value_due (in_list vs st)) (in_list vs st) reads refl in
      (
        m',
        run-mark float_repr m 44 (newline n ++ (s ++ rest)) (item_done vs st) refl e ∙ runs,
        ends,
      )

  -- A key, its colon and the value.
  read_entry :
      (n : ℕ) (k s rest : Text) (v : Value) (p : Parser) (d : Fields) (st : Stack)
      → Reads s v
      → All IsScalar k
      → on_text k p ≡ colon_due d k st
      → Leaves
          (outside p)
          (newline n ++ (quote k ++ (58 ∷ 32 ∷ (s ++ rest))))
          rest
          (entry_done (insert k v d) st)
  unfolding run step on_mark is_atom_char nat_eq
  read_entry n k s rest v p d st reads scalar e = (
    run float_repr (outside (value_due (in_dict d k st))) s,
    run-newline float_repr (outside p) n (quote k ++ (58 ∷ 32 ∷ (s ++ rest))) p refl
        ∙ run-quote float_repr k (58 ∷ 32 ∷ (s ++ rest)) p scalar
        ∙ ap (λ q. run float_repr (outside q) (58 ∷ 32 ∷ (s ++ rest))) e
        ∙ run-append float_repr (outside (value_due (in_dict d k st))) s rest,
    reads (value_due (in_dict d k st)) (in_dict d k st) refl,
  )

  pub open_entry :
      (n : ℕ) (k s rest : Text) (v : Value) (p : Parser) (st : Stack)
      → Reads s v
      → All IsScalar k
      → context p ≡ some st
      → Leaves
          (outside p)
          (123 ∷ (newline n ++ (quote k ++ (58 ∷ 32 ∷ (s ++ rest)))))
          rest
          (entry_done (field k v end) st)
  unfolding run step on_mark is_atom_char insert nat_eq
  open_entry n k s rest v p st reads scalar e =
      let (m, runs, ends) = read_entry n k s rest v (dict_opened st) end st reads scalar refl in
      (
        m,
        ap
              (λ o.
                run float_repr (outside (dict_at o))
                  (newline n ++ (quote k ++ (58 ∷ 32 ∷ (s ++ rest)))))
              e
            ∙ runs,
        ends,
      )

  pub next_entry :
      (n : ℕ) (k s rest : Text) (v : Value) (m : Machine) (d : Fields) (st : Stack)
      → Reads s v
      → All IsScalar k
      → flush float_repr m ≡ outside (entry_done d st)
      → Leaves m
          (44 ∷ (newline n ++ (quote k ++ (58 ∷ 32 ∷ (s ++ rest)))))
          rest
          (entry_done (insert k v d) st)
  unfolding on_mark is_atom_char nat_eq
  next_entry n k s rest v m d st reads scalar e =
      let (m', runs, ends) = read_entry n k s rest v (key_due d st) d st reads scalar refl in
      (
        m',
        run-mark float_repr m 44 (newline n ++ (quote k ++ (58 ∷ 32 ∷ (s ++ rest))))
              (entry_done d st) refl e
            ∙ runs,
        ends,
      )

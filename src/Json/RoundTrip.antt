-- ===== src/Json/RoundTrip.antt =====
-- A value that is written is read back.
use kiro_usage_pipeline.Base.{
  ℕ, ◌+◌, true, false, some, [], ◌∷◌, ◌++◌, ◌≡◌, refl, ◌∙◌, ap, arith, append_assoc, Text, lit,
  nat_eq, text_eq, show_int,
}
use kiro_usage_pipeline.Value.{
  Value, null, bool, int, float, str, time, list, dict, Items, nil, cons, Fields, end, field,
}
use kiro_usage_pipeline.Value.Dict.{insert}
use kiro_usage_pipeline.Json.Write.{
  float_text, quote, newline, write, write_items, write_fields, dumps, is_serializable,
  are_serializable, fields_serializable,
}
use kiro_usage_pipeline.Json.Read.{
  Stack, bottom, value_due, item_done, entry_done, snoc, complete, list_at, dict_at, Machine,
  outside, is_atom_char, on_mark, flush, step, run, result, loads,
}
use kiro_usage_pipeline.Json.Pieces.{
  add_items, insert_all, add_items-nil, IsReadable, AreReadable, AreEntries, Reads, atom-Reads,
  null-IsAtom, true-IsAtom, false-IsAtom, show_int-IsAtom, str-Reads, close_items, close_fields,
  insert_all-end, open_item, next_item, open_entry, next_entry,
}

assoc_item : (a b c t : Text) → (a ++ (b ++ c)) ++ t ≡ a ++ (b ++ (c ++ t))
assoc_item a b c t = simp append_assoc

assoc_entry :
    (a k b c t : Text)
    → (a ++ (k ++ (58 ∷ 32 ∷ (b ++ c)))) ++ t ≡ a ++ (k ++ (58 ∷ 32 ∷ (b ++ (c ++ t))))
assoc_entry a k b c t = simp append_assoc

module _ (float_repr : Text → Text) where
  mutual
    unfolding write run step on_mark is_atom_char IsReadable insert nat_eq

    value-Reads : (n : ℕ) (v : Value) → IsReadable float_repr v → Reads float_repr (write n v) v
    value-Reads n null h p st e =
        atom-Reads float_repr (lit "null") null (null-IsAtom float_repr) p st e
    value-Reads n (bool true) h p st e =
        atom-Reads float_repr (lit "true") (bool true) (true-IsAtom float_repr) p st e
    value-Reads n (bool false) h p st e =
        atom-Reads float_repr (lit "false") (bool false) (false-IsAtom float_repr) p st e
    value-Reads n (int i) h p st e =
        atom-Reads float_repr (show_int i) (int i) (show_int-IsAtom float_repr i) p st e
    value-Reads n (float r) h p st e = atom-Reads float_repr (float_text r) (float r) h p st e
    value-Reads n (str s) h p st e = str-Reads float_repr s h p st e
    value-Reads n (time t) h p st e = absurd h
    value-Reads n (list nil) h p st e =
        ap (λ o. flush float_repr (run float_repr (outside (list_at o)) (93 ∷ []))) e
    value-Reads n (list (cons v vs)) (hv, hs) p st e =
        let (m, runs, ends) =
          open_item float_repr (n + 2) (write (n + 2) v)
            (write_items (n + 2) vs ++ (newline n ++ (93 ∷ []))) v p st (value-Reads (n + 2) v hv)
            e in
        ap (flush float_repr) (runs ∙ items-Reads (n + 2) n vs (cons v nil) st m hs ends)
        ∙ ap (λ ws. outside (complete (list ws) st)) (add_items-nil (cons v vs))
    value-Reads n (dict end) h p st e =
        ap (λ o. flush float_repr (run float_repr (outside (dict_at o)) (125 ∷ []))) e
    value-Reads n (dict (field k v d)) h p st e =
        let (m, runs, ends) =
          open_entry float_repr (n + 2) k (write (n + 2) v)
            (write_fields (n + 2) d ++ (newline n ++ (125 ∷ []))) v p st (value-Reads (n + 2) v h.1)
            h.0 e in
        ap (flush float_repr) (runs ∙ fields-Reads (n + 2) n d (field k v end) st m h.3 ends)
        ∙ ap (λ e. outside (complete (dict e) st)) (insert_all-end float_repr (field k v d) h)

    items-Reads :
        (n k : ℕ) (vs acc : Items) (st : Stack) (m : Machine)
        → AreReadable float_repr vs
        → flush float_repr m ≡ outside (item_done acc st)
        → run float_repr m (write_items n vs ++ (newline k ++ (93 ∷ [])))
          ≡ outside (complete (list (add_items acc vs)) st)
    items-Reads n k nil acc st m h e = close_items float_repr k acc st m e
    items-Reads n k (cons v vs) acc st m (hv, hs) e =
        let (m', runs, ends) =
          next_item float_repr n (write n v) (write_items n vs ++ (newline k ++ (93 ∷ []))) v m acc
            st (value-Reads n v hv) e in
        ap (λ s. run float_repr m (44 ∷ s))
          (assoc_item (newline n) (write n v) (write_items n vs) (newline k ++ (93 ∷ [])))
        ∙ runs
        ∙ items-Reads n k vs (snoc acc v) st m' hs ends

    fields-Reads :
        (n k : ℕ) (d acc : Fields) (st : Stack) (m : Machine)
        → AreEntries float_repr d
        → flush float_repr m ≡ outside (entry_done acc st)
        → run float_repr m (write_fields n d ++ (newline k ++ (125 ∷ [])))
          ≡ outside (complete (dict (insert_all acc d)) st)
    fields-Reads n k end acc st m h e = close_fields float_repr k acc st m e
    fields-Reads n k (field j v d) acc st m h e =
        let (m', runs, ends) =
          next_entry float_repr n j (write n v) (write_fields n d ++ (newline k ++ (125 ∷ []))) v m
            acc st (value-Reads n v h.1) h.0 e in
        ap (λ s. run float_repr m (44 ∷ s))
          (assoc_entry (newline n) (quote j) (write n v) (write_fields n d)
            (newline k ++ (125 ∷ [])))
        ∙ runs
        ∙ fields-Reads n k d (insert j v acc) st m' h.3 ends

  mutual
    unfolding is_serializable IsReadable

    IsReadable-serializable : (v : Value) → IsReadable float_repr v → is_serializable v ≡ true
    IsReadable-serializable null h = refl
    IsReadable-serializable (bool _) h = refl
    IsReadable-serializable (int _) h = refl
    IsReadable-serializable (float _) h = refl
    IsReadable-serializable (str _) h = refl
    IsReadable-serializable (time _) h = absurd h
    IsReadable-serializable (list vs) h = AreReadable-serializable vs h
    IsReadable-serializable (dict d) h = AreEntries-serializable d h

    AreReadable-serializable : (vs : Items) → AreReadable float_repr vs → are_serializable vs ≡ true
    AreReadable-serializable nil h = refl
    AreReadable-serializable (cons v vs) h =
        ground (arith, IsReadable-serializable v h.0, AreReadable-serializable vs h.1)

    AreEntries-serializable : (d : Fields) → AreEntries float_repr d → fields_serializable d ≡ true
    AreEntries-serializable end h = refl
    AreEntries-serializable (field k v d) h =
        ground (arith, IsReadable-serializable v h.1, AreEntries-serializable d h.3)

  -- A value that can be read back is read back as it is from the text that `json.dumps` writes.
  pub loads-dumps :
      (v : Value)
      → IsReadable float_repr v
      → (dumps v ≡ some (write 0 v)) × (loads float_repr (write 0 v) ≡ some v)
  unfolding dumps loads
  loads-dumps v h = (
    rw (IsReadable-serializable v h) refl,
    ap result (value-Reads 0 v h (value_due bottom) bottom refl),
  )

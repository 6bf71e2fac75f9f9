-- ===== src/Snapshot/Fields/Ordering.antt =====
-- The order of the line numbers.
use mathlib.Core.Path.{subst}
use kiro_usage_pipeline.Base.{
  Bool, true, false, ◌||◌, Option, none, some, List, [], ◌∷◌, Text, ◌==◌, nat_eq, text_eq, contains,
  map, All, ◌≡◌, ◌⊎◌, inl, inr, refl, sym, ◌∙◌, ap, arith, Bool-cases,
}
use kiro_usage_pipeline.Snapshot.Fields.{
  LineKey, numeric, other, line_key, text_le, key_le, Keyed, insert_sorted, sort_keyed, cons_keyed,
  in_order, keyed, distinct, second_of, sorted_numbers,
}

text_le-total : (s t : Text) → (text_le s t ≡ true) ⊎ (text_le t s ≡ true)
unfolding text_le nat_eq
text_le-total [] t = inl refl
text_le-total (c ∷ s) [] = inr refl
text_le-total (c ∷ s) (d ∷ t) = ground (arith, text_le-total s t)

text_le_trans : (s t u : Text) → text_le s t ≡ true → text_le t u ≡ true → text_le s u ≡ true
unfolding text_le nat_eq
text_le_trans [] t u h k = refl
text_le_trans (c ∷ s) [] u h k = absurd cc
text_le_trans (c ∷ s) (d ∷ t) [] h k = absurd cc
text_le_trans (c ∷ s) (d ∷ t) (e ∷ u) h k = ground (arith, text_le_trans s t u)

key_le-total : (k l : LineKey) → key_le k l ≡ false → key_le l k ≡ true
unfolding key_le
key_le-total (numeric m) (numeric n) h = ground arith
key_le-total (numeric m) (other t) h = absurd cc
key_le-total (other s) (numeric n) h = refl
key_le-total (other s) (other t) h = ground (arith, text_le-total s t)

key_le_trans : (k l m : LineKey) → key_le k l ≡ true → key_le l m ≡ true → key_le k m ≡ true
unfolding key_le
key_le_trans (numeric a) (numeric b) (numeric c) h i = ground arith
key_le_trans (numeric a) (numeric b) (other u) h i = refl
key_le_trans (numeric a) (other t) (numeric c) h i = absurd cc
key_le_trans (numeric a) (other t) (other u) h i = refl
key_le_trans (other s) (numeric b) m h i = absurd cc
key_le_trans (other s) (other t) (numeric c) h i = absurd cc
key_le_trans (other s) (other t) (other u) h i = text_le_trans s t u h i

abbrev Before : Keyed → Keyed → Type 0
Before x y = key_le x.0 y.0 ≡ true

abbrev IsSorted : List Keyed → Type 0
IsSorted [] = Unit
IsSorted (x ∷ xs) = All (Before x) xs × IsSorted xs

All-Before : (x y : Keyed) (ys : List Keyed) → Before x y → All (Before y) ys → All (Before x) ys
All-Before x y [] h a = tt
All-Before x y (z ∷ zs) h (b, a) = (key_le_trans x.0 y.0 z.0 h b, All-Before x y zs h a)

All-insert_sorted :
    (w x : Keyed) (xs : List Keyed)
    → Before w x
    → All (Before w) xs
    → All (Before w) (insert_sorted x xs)
unfolding insert_sorted
All-insert_sorted w x [] h a = (h, tt)
All-insert_sorted w x (y ∷ ys) h a = ground (arith, All-insert_sorted w x ys h)

insert_sorted-IsSorted : (x : Keyed) (xs : List Keyed) → IsSorted xs → IsSorted (insert_sorted x xs)
unfolding insert_sorted
insert_sorted-IsSorted x [] h = (tt, tt)
insert_sorted-IsSorted x (y ∷ ys) h = elim (Bool-cases (key_le x.0 y.0)) [
  | inl e ↦ rw e ((e, All-Before x y ys e h.0), h)
  | inr e ↦
      rw e (All-insert_sorted y x ys (key_le-total x.0 y.0 e) h.0, insert_sorted-IsSorted x ys h.1)
]

sort_keyed-IsSorted : (xs : List Keyed) → IsSorted (sort_keyed xs)
unfolding sort_keyed
sort_keyed-IsSorted [] = tt
sort_keyed-IsSorted (x ∷ xs) = insert_sorted-IsSorted x (sort_keyed xs) (sort_keyed-IsSorted xs)

-- Sorting keeps what holds of every item, and what is in the list.
module _ (P : Keyed → Type 0) where
  insert_sorted-All : (x : Keyed) (xs : List Keyed) → P x → All P xs → All P (insert_sorted x xs)
  unfolding insert_sorted
  insert_sorted-All x [] p h = (p, tt)
  insert_sorted-All x (y ∷ ys) p h = elim (Bool-cases (key_le x.0 y.0)) [
    | inl e ↦ rw e (p, h)
    | inr e ↦ rw e (h.0, insert_sorted-All x ys p h.1)
  ]

  sort_keyed-All : (xs : List Keyed) → All P xs → All P (sort_keyed xs)
  unfolding sort_keyed
  sort_keyed-All [] h = tt
  sort_keyed-All (x ∷ xs) (p, h) = insert_sorted-All x (sort_keyed xs) p (sort_keyed-All xs h)

module _ (a : Text) where
  abbrev has_text : List Keyed → Bool
  has_text xs = contains (map second_of xs) a

  contains-insert_sorted :
      (x : Keyed) (xs : List Keyed) → has_text (insert_sorted x xs) ≡ (a == x.1 || has_text xs)
  unfolding insert_sorted
  contains-insert_sorted x [] = refl
  contains-insert_sorted x (y ∷ ys) = ground (arith, contains-insert_sorted x ys)

  contains-sort_keyed : (xs : List Keyed) → has_text (sort_keyed xs) ≡ has_text xs
  unfolding sort_keyed
  contains-sort_keyed [] = refl
  contains-sort_keyed (x ∷ xs) =
      contains-insert_sorted x (sort_keyed xs) ∙ ap (λ b. a == x.1 || b) (contains-sort_keyed xs)

  pub contains-distinct : (ss : List Text) → contains (distinct ss) a ≡ contains ss a
  unfolding distinct text_eq
  contains-distinct [] = refl
  contains-distinct (s ∷ ss) = ground (arith, contains-distinct ss)

-- The numbers of a sorted list, each with its key.
abbrev IsKeyed : Keyed → Type 0
IsKeyed x = line_key x.1 ≡ some x.0

abbrev Fits : List Text → Option (List Keyed) → Type 0
Fits ss none = Unit
Fits ss (some ks) = All IsKeyed ks × (map second_of ks ≡ ss)

cons_keyed-Fits :
    (s : Text) (ss : List Text) (o : Option LineKey) (r : Option (List Keyed))
    → line_key s ≡ o
    → Fits ss r
    → Fits (s ∷ ss) (cons_keyed o s r)
cons_keyed-Fits s ss none r e h = tt
cons_keyed-Fits s ss (some k) none e h = tt
cons_keyed-Fits s ss (some k) (some ks) e (h, same) = ((e, h), ap (λ t. s ∷ t) same)

keyed-Fits : (ss : List Text) → Fits ss (keyed ss)
unfolding keyed
keyed-Fits [] = (tt, refl)
keyed-Fits (s ∷ ss) = cons_keyed-Fits s ss (line_key s) (keyed ss) refl (keyed-Fits ss)

-- The first comes before the second, or with it.
abbrev pub Comes : Text → Text → Type 0
Comes s t =
    (k : LineKey) × (l : LineKey) × (line_key s ≡ some k)
    × (line_key t ≡ some l)
    × (key_le k l ≡ true)

abbrev pub IsOrdered : List Text → Type 0
IsOrdered [] = Unit
IsOrdered (s ∷ ss) = All (Comes s) ss × IsOrdered ss

All-Comes :
    (x : Keyed) (xs : List Keyed)
    → IsKeyed x
    → All IsKeyed xs
    → All (Before x) xs
    → All (Comes x.1) (map second_of xs)
All-Comes x [] k ks h = tt
All-Comes x (y ∷ ys) k (l, ls) (b, h) = ((x.0, y.0, k, l, b), All-Comes x ys k ls h)

IsSorted-IsOrdered : (xs : List Keyed) → All IsKeyed xs → IsSorted xs → IsOrdered (map second_of xs)
IsSorted-IsOrdered [] ks h = tt
IsSorted-IsOrdered (x ∷ xs) (k, ks) (b, h) = (All-Comes x xs k ks b, IsSorted-IsOrdered xs ks h)

abbrev pub IsDistinct : List Text → Type 0
IsDistinct [] = Unit
IsDistinct (s ∷ ss) = (contains ss s ≡ false) × IsDistinct ss

distinct-IsDistinct : (ss : List Text) → IsDistinct (distinct ss)
unfolding distinct
distinct-IsDistinct [] = tt
distinct-IsDistinct (s ∷ ss) = elim (Bool-cases (contains (distinct ss) s)) [
  | inl e ↦ rw e (distinct-IsDistinct ss)
  | inr e ↦ rw e (e, distinct-IsDistinct ss)
]

insert_sorted-IsDistinct :
    (x : Keyed) (xs : List Keyed)
    → contains (map second_of xs) x.1 ≡ false
    → IsDistinct (map second_of xs)
    → IsDistinct (map second_of (insert_sorted x xs))
unfolding insert_sorted text_eq
insert_sorted-IsDistinct x [] e h = (refl, tt)
insert_sorted-IsDistinct x (y ∷ ys) e h =
    ground (arith, contains-insert_sorted y.1 x ys, insert_sorted-IsDistinct x ys)

sort_keyed-IsDistinct :
    (xs : List Keyed) → IsDistinct (map second_of xs) → IsDistinct (map second_of (sort_keyed xs))
unfolding sort_keyed
sort_keyed-IsDistinct [] h = tt
sort_keyed-IsDistinct (x ∷ xs) (e, h) =
    insert_sorted-IsDistinct x (sort_keyed xs) (contains-sort_keyed x.1 xs ∙ e)
      (sort_keyed-IsDistinct xs h)

-- The sorted numbers are in order, none stands twice, and they are those that were given.
abbrev pub IsSortedOf : List Text → Option (List Text) → Type 0
IsSortedOf ss none = Unit
IsSortedOf ss (some ns) =
    IsOrdered ns × IsDistinct ns × ((a : Text) → contains ns a ≡ contains ss a)

in_order-IsSortedOf :
    (ss : List Text) (r : Option (List Keyed)) → Fits (distinct ss) r → IsSortedOf ss (in_order r)
in_order-IsSortedOf ss none h = tt
in_order-IsSortedOf ss (some ks) (h, same) = (
  IsSorted-IsOrdered (sort_keyed ks) (sort_keyed-All IsKeyed ks h) (sort_keyed-IsSorted ks),
  sort_keyed-IsDistinct ks (subst IsDistinct (sym same) (distinct-IsDistinct ss)),
  λ a. contains-sort_keyed a ks ∙ ap (λ t. contains t a) same ∙ contains-distinct a ss,
)

pub sorted_numbers-IsSortedOf : (ss : List Text) → IsSortedOf ss (sorted_numbers ss)
unfolding sorted_numbers
sorted_numbers-IsSortedOf ss =
    in_order-IsSortedOf ss (keyed (distinct ss)) (keyed-Fits (distinct ss))

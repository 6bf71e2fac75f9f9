-- ===== src/Json/Readable.antt =====
-- A test for values without floats that their text is read back as.
use kiro_usage_pipeline.Base.{
  ℕ, Bool, true, false, ◌&&◌, ◌||◌, not, [], ◌∷◌, Text, ltb, leb, All, ◌≡◌, arith,
}
use kiro_usage_pipeline.Value.{
  Value, null, bool, int, float, str, time, list, dict, Items, nil, cons, Fields, end, field,
}
use kiro_usage_pipeline.Value.Dict.{has}
use kiro_usage_pipeline.Json.Texts.{IsScalar}
use kiro_usage_pipeline.Json.Pieces.{IsReadable, AreReadable, AreEntries}

abbrev is_scalar : ℕ → Bool
is_scalar c = ltb c 55296 || (leb 57344 c && ltb c 1114112)

abbrev are_scalars : Text → Bool
are_scalars [] = true
are_scalars (c ∷ s) = is_scalar c && are_scalars s

unfoldable mutual
  pub is_readable : Value → Bool
  is_readable null = true
  is_readable (bool _) = true
  is_readable (int _) = true
  is_readable (float _) = false
  is_readable (str s) = are_scalars s
  is_readable (time _) = false
  is_readable (list vs) = are_readable vs
  is_readable (dict d) = are_entries d

  pub are_readable : Items → Bool
  are_readable nil = true
  are_readable (cons v vs) = is_readable v && are_readable vs

  pub are_entries : Fields → Bool
  are_entries end = true
  are_entries (field k v d) = (are_scalars k && is_readable v) && (not (has k d) && are_entries d)

scalars : (s : Text) → are_scalars s ≡ true → All IsScalar s
scalars [] h = tt
scalars (c ∷ s) h = (ground arith, scalars s (ground arith))

module _ (float_repr : Text → Text) where
  mutual
    unfolding is_readable are_readable are_entries IsReadable AreReadable AreEntries

    pub is_readable-IsReadable : (v : Value) → is_readable v ≡ true → IsReadable float_repr v
    is_readable-IsReadable null h = tt
    is_readable-IsReadable (bool _) h = tt
    is_readable-IsReadable (int _) h = tt
    is_readable-IsReadable (float _) h = absurd cc
    is_readable-IsReadable (str s) h = scalars s h
    is_readable-IsReadable (time _) h = absurd cc
    is_readable-IsReadable (list vs) h = are_readable-AreReadable vs h
    is_readable-IsReadable (dict d) h = are_entries-AreEntries d h

    pub are_readable-AreReadable : (vs : Items) → are_readable vs ≡ true → AreReadable float_repr vs
    are_readable-AreReadable nil h = tt
    are_readable-AreReadable (cons v vs) h =
        (is_readable-IsReadable v (ground arith), are_readable-AreReadable vs (ground arith))

    pub are_entries-AreEntries : (d : Fields) → are_entries d ≡ true → AreEntries float_repr d
    are_entries-AreEntries end h = tt
    are_entries-AreEntries (field k v d) h = (
      scalars k (ground arith),
      is_readable-IsReadable v (ground arith),
      ground arith,
      are_entries-AreEntries d (ground arith),
    )

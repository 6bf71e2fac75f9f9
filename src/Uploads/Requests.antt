-- ===== src/Uploads/Requests.antt =====
-- Which events the two scripts accept, and the files that their keys name.
use mathlib.Core.Path.{subst}
use kiro_usage_pipeline.Base.{
  ◌≤◌, Bool, true, false, pos, negsuc, ◌&&◌, Option, none, some, [], ◌∷◌, Text, lit, ltb, ◌==◌,
  nat_eq, text_eq, contains, has_substring, starts_with, length, Bool-cases, ◌≡◌, ◌≢◌, ◌⊎◌, inl,
  inr, refl, sym, ◌∙◌, arith,
}
use kiro_usage_pipeline.Value.{Value, null, bool, int, float, str, time, list, dict, Fields, truthy}
use kiro_usage_pipeline.Uploads.{
  Guarded, accepted, invalid, raises, Upload, parts, bucket_name, key_of, size_of, max_key_length,
  with_task_key, checked_task, task, is_over, with_size, with_key, checked_event, request, basename,
}

-- The upload that is accepted.
abbrev pub upload : Guarded Upload → Option Upload
upload (accepted u) = some u
upload (invalid _) = none
upload raises = none

abbrev pub upload_of_request : Guarded (Upload × Value) → Option Upload
upload_of_request (accepted (u, _)) = some u
upload_of_request (invalid _) = none
upload_of_request raises = none

-- Nothing but where the size is known and not over the limit.
abbrev pub limited : Option Bool → Option Upload → Option Upload
limited (some false) o = o
limited _ o = none

limited-none : (o : Option Bool) → limited o none ≡ none
limited-none none = refl
limited-none (some true) = refl
limited-none (some false) = refl

module _ (float_exceeds : Text → Bool) where
  -- Whether a size is over half a gibibyte, 536870912 bytes, if it is a number.
  abbrev pub size_exceeds : Value → Option Bool
  size_exceeds null = none
  size_exceeds (bool _) = some false
  size_exceeds (int (pos n)) = some (ltb 536870912 n)
  size_exceeds (int (negsuc _)) = some false
  size_exceeds (float r) = some (float_exceeds r)
  size_exceeds (str _) = none
  size_exceeds (time _) = none
  size_exceeds (list _) = none
  size_exceeds (dict _) = none

  is_over-eq : (v : Value) → is_over float_exceeds v ≡ size_exceeds v
  unfolding is_over
  is_over-eq null = refl
  is_over-eq (bool _) = refl
  is_over-eq (int (pos n)) = refl
  is_over-eq (int (negsuc _)) = refl
  is_over-eq (float r) = refl
  is_over-eq (str _) = refl
  is_over-eq (time _) = refl
  is_over-eq (list _) = refl
  is_over-eq (dict _) = refl

  -- Whether the size that an event gives is over the limit.
  abbrev pub oversize : Option (Fields × Fields) → Option Bool
  oversize none = none
  oversize (some p) = size_exceeds (size_of p)

  upload-with_size :
      (bucket : Value) (key : Text) (size : Value) (o : Option Bool)
      → upload_of_request (with_size float_exceeds bucket key size o)
        ≡ limited o (some (record { bucket = bucket; key = key }))
  upload-with_size bucket key size none = refl
  upload-with_size bucket key size (some true) = refl
  upload-with_size bucket key size (some false) = refl

  upload-with_key :
      (bucket size key : Value)
      → upload_of_request (with_key float_exceeds bucket size key)
        ≡ limited (is_over float_exceeds size) (upload (with_task_key bucket key))
  upload-with_key bucket size (str key) = elim (Bool-cases (has_substring key (lit "/.."))) [
    | inl e ↦ rw e (sym (limited-none (is_over float_exceeds size)))
    | inr e ↦ elim (Bool-cases (ltb max_key_length (length key))) [
      | inl f ↦ rw (e, f) (sym (limited-none (is_over float_exceeds size)))
      | inr f ↦ rw (e, f) (upload-with_size bucket key size (is_over float_exceeds size))
    ]
  ]
  upload-with_key bucket size null = sym (limited-none (is_over float_exceeds size))
  upload-with_key bucket size (bool _) = sym (limited-none (is_over float_exceeds size))
  upload-with_key bucket size (int _) = sym (limited-none (is_over float_exceeds size))
  upload-with_key bucket size (float _) = sym (limited-none (is_over float_exceeds size))
  upload-with_key bucket size (time _) = sym (limited-none (is_over float_exceeds size))
  upload-with_key bucket size (list _) = sym (limited-none (is_over float_exceeds size))
  upload-with_key bucket size (dict _) = sym (limited-none (is_over float_exceeds size))

  upload-checked_event :
      (o : Option (Fields × Fields))
      → upload_of_request (checked_event float_exceeds o)
        ≡ limited (oversize o) (upload (checked_task o))
  upload-checked_event none = refl
  upload-checked_event (some p) = elim (Bool-cases (truthy (bucket_name p) && truthy (key_of p))) [
    | inl e ↦
        rw (e, sym (is_over-eq (size_of p)))
          (upload-with_key (bucket_name p) (size_of p) (key_of p))
    | inr e ↦ rw e (sym (limited-none (size_exceeds (size_of p))))
  ]

  -- The function takes an upload from an event exactly where the task does and the size is a number
  -- within the limit, and then it is the same upload.
  pub request-task :
      (event : Value)
      → upload_of_request (request float_exceeds event)
        ≡ limited (oversize (parts event)) (upload (task event))
  unfolding request task
  request-task event = upload-checked_event (parts event)

-- A bucket and a key with a text, which climbs to no parent and is not too long, and the name of a
-- file directly in the folder for downloads, but for the one key that is nothing but two dots.
abbrev pub IsConfined : Option Upload → Type 0
IsConfined none = Unit
IsConfined (some u) =
    (truthy u.bucket ≡ true)
    × (u.key ≢ [])
    × (length u.key ≤ max_key_length)
    × (contains (basename u.key) b'/' ≡ false)
    × ((u.key ≡ lit "..") ⊎ (basename u.key ≢ lit ".."))

contains-basename : (s : Text) → contains (basename s) b'/' ≡ false
unfolding basename
contains-basename [] = refl
contains-basename (c ∷ s) = ground (arith, contains-basename s)

-- A text with a slash keeps it before its last name.
basename-dots :
    (s : Text) → contains s b'/' ≡ true → basename s ≡ lit ".." → has_substring s (lit "/..") ≡ true
unfolding basename has_substring starts_with lit nat_eq
basename-dots [] h e = absurd cc
basename-dots (c ∷ s) h e = elim (Bool-cases (contains s b'/')) [
  | inl f ↦
      let later : has_substring s (lit "/..") ≡ true = basename-dots s f (ground arith) in
      ground (arith, later)
  | inr f ↦
      let slash : (c == b'/') ≡ true = ground arith in
      let dots : s ≡ lit ".." = ground arith in
      let begins : starts_with s (lit "..") ≡ true =
        subst (λ t. starts_with t (lit "..") ≡ true) (sym dots) refl in
      ground (arith, slash, begins)
]

basename-plain : (s : Text) → contains s b'/' ≡ false → basename s ≡ s
unfolding basename nat_eq
basename-plain [] h = refl
basename-plain (c ∷ s) h = ground (arith, basename-plain s)

dots_or_not :
    (s : Text) → has_substring s (lit "/..") ≡ false → (s ≡ lit "..") ⊎ (basename s ≢ lit "..")
unfolding text_eq
dots_or_not s h = elim (Bool-cases (contains s b'/')) [
  | inl f ↦ inr (λ e.
      let climbs : has_substring s (lit "/..") ≡ true = basename-dots s f e in
      absurd (ground arith))
  | inr f ↦ elim (Bool-cases (s == lit "..")) [
    | inl g ↦ inl (ground arith)
    | inr g ↦
        inr (λ e. let same : s ≡ lit ".." = sym (basename-plain s f) ∙ e in absurd (ground arith))
  ]
]

not_blank : (key : Text) → truthy (str key) ≡ true → key ≢ []
not_blank [] h = absurd cc
not_blank (c ∷ key) h = λ e. absurd cc

key-IsConfined :
    (bucket : Value) (key : Text)
    → truthy bucket ≡ true
    → truthy (str key) ≡ true
    → IsConfined (upload (with_task_key bucket (str key)))
key-IsConfined bucket key b k = elim (Bool-cases (has_substring key (lit "/.."))) [
  | inl e ↦ rw e tt
  | inr e ↦ elim (Bool-cases (ltb max_key_length (length key))) [
    | inl f ↦ rw (e, f) tt
    | inr f ↦ rw (e, f) (b, not_blank key k, ground arith, contains-basename key, dots_or_not key e)
  ]
]

value-IsConfined :
    (bucket key : Value)
    → truthy bucket ≡ true
    → truthy key ≡ true
    → IsConfined (upload (with_task_key bucket key))
value-IsConfined bucket (str key) b k = key-IsConfined bucket key b k
value-IsConfined bucket null b k = tt
value-IsConfined bucket (bool _) b k = tt
value-IsConfined bucket (int _) b k = tt
value-IsConfined bucket (float _) b k = tt
value-IsConfined bucket (time _) b k = tt
value-IsConfined bucket (list _) b k = tt
value-IsConfined bucket (dict _) b k = tt

checked_task-IsConfined : (o : Option (Fields × Fields)) → IsConfined (upload (checked_task o))
checked_task-IsConfined none = tt
checked_task-IsConfined (some p) = elim (Bool-cases (truthy (bucket_name p) && truthy (key_of p))) [
  | inl e ↦ rw e (value-IsConfined (bucket_name p) (key_of p) (ground arith) (ground arith))
  | inr e ↦ rw e tt
]

-- What the task takes from an event has a bucket and a key, of 1024 characters at most, and is
-- downloaded to a name with no slash, which is not that of the parent, but for the key `..`.
pub task-IsConfined : (event : Value) → IsConfined (upload (task event))
unfolding task
task-IsConfined event = checked_task-IsConfined (parts event)

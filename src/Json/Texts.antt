-- ===== src/Json/Texts.antt =====
-- A text that is written is read back.
use kiro_usage_pipeline.Base.{
  ℕ, ◌+◌, ◌*◌, ◌/◌, ◌%◌, ◌<◌, ◌≤◌, Bool, true, false, ◌&&◌, Option, none, some, [], ◌∷◌, ◌++◌, ◌≡◌,
  ◌⊎◌, refl, sym, ap, arith, append_assoc, append-nil, All, Text, ltb, leb, ◌==◌, nat_eq,
  if◌then◌else◌,
}
use kiro_usage_pipeline.Json.Write.{hex_digit, unit_text, high_of, low_of, escape_char, escape_text}
use kiro_usage_pipeline.Json.Read.{
  Parser, Machine, in_text, in_unit, add_unit, after_digit, hex_value, escaped_char, step, run,
  is_high, is_low,
}

-- A code point that is no surrogate.
abbrev pub IsScalar : ℕ → Type 0
IsScalar c = (c < 55296) ⊎ ((57344 ≤ c) × (c < 1114112))

hex_value-hex_digit : (d : ℕ) → d < 16 → hex_value (hex_digit d) ≡ some d
unfolding hex_value hex_digit
hex_value-hex_digit d h = ground arith

is_high-high_of : (c : ℕ) → 65536 ≤ c → c < 1114112 → is_high (high_of c) ≡ true
is_high-high_of c l h = ground arith

is_low-low_of : (c : ℕ) → is_low (low_of c) ≡ true
is_low-low_of c = ground arith

split-if :
    (P : Text → Type 0) (b : Bool) {s t : Text}
    → (b ≡ true → P s)
    → (b ≡ false → P t)
    → P (if b then s else t)
split-if P true h k = h refl
split-if P false h k = k refl

module _ (float_repr : Text → Text) where
  abbrev steps : Machine → Text → Machine
  steps = run float_repr

  pub run-append : (m : Machine) (s t : Text) → steps m (s ++ t) ≡ steps (steps m s) t
  unfolding run
  run-append m [] t = refl
  run-append m (c ∷ s) t = run-append (step float_repr m c) s t

  step-digit :
      (n v d : ℕ) (acc : Text) (high : Option ℕ) (p : Parser)
      → d < 16
      → step float_repr (in_unit n v acc high p) (hex_digit d)
        ≡ after_digit n (v * 16 + d) acc high p
  unfolding step
  step-digit n v d acc high p h = rw (hex_value-hex_digit d h, step) refl

  step-unit :
      (acc : Text) (high : Option ℕ) (p : Parser)
      → step float_repr (step float_repr (in_text acc high p) 92) b'u' ≡ in_unit 3 0 acc high p
  unfolding step nat_eq
  step-unit acc high p = refl

  run-unit_text :
      (v : ℕ) (acc : Text) (high : Option ℕ) (p : Parser)
      → v < 65536
      → steps (in_text acc high p) (unit_text v) ≡ add_unit v acc high p
  unfolding run unit_text
  run-unit_text v acc high p h =
      rw
        (
          step-unit acc high p,
          step-digit 3 0 (v / 4096) acc high p (omega arith),
          step-digit 2 _ (v / 256 % 16) acc high p (omega arith),
          step-digit 1 _ (v / 16 % 16) acc high p (omega arith),
          step-digit 0 _ (v % 16) acc high p (omega arith),
        )
        (ap (λ w. add_unit w acc high p) (omega arith))

  run-short :
      (c d : ℕ) (acc : Text) (p : Parser)
      → escaped_char d ≡ some c
      → (d == b'u') ≡ false
      → steps (in_text acc none p) (92 ∷ d ∷ []) ≡ in_text (acc ++ (c ∷ [])) none p
  unfolding run step nat_eq
  run-short c d acc p h k = rw (k, h) refl

  run-plain :
      (c : ℕ) (acc : Text) (p : Parser)
      → (c == 34) ≡ false
      → (c == 92) ≡ false
      → 32 ≤ c
      → steps (in_text acc none p) (c ∷ []) ≡ in_text (acc ++ (c ∷ [])) none p
  unfolding run step
  run-plain c acc p h k l = ground arith

  run-pair :
      (c : ℕ) (acc : Text) (p : Parser)
      → 65536 ≤ c
      → c < 1114112
      → steps (in_text acc none p) (unit_text (high_of c) ++ unit_text (low_of c))
        ≡ in_text (acc ++ (c ∷ [])) none p
  unfolding add_unit
  run-pair c acc p l h =
      rw
        (
          run-append (in_text acc none p) (unit_text (high_of c)) (unit_text (low_of c)),
          run-unit_text (high_of c) acc none p (omega arith),
        )
        (rw
          (
            is_high-high_of c l h,
            run-unit_text (low_of c) acc (some (high_of c)) p (omega arith),
            is_low-low_of c,
          )
          (ap (λ x. in_text (acc ++ (x ∷ [])) none p) (omega arith)))

  run-single :
      (c : ℕ) (acc : Text) (p : Parser)
      → IsScalar c
      → c < 65536
      → steps (in_text acc none p) (unit_text c) ≡ in_text (acc ++ (c ∷ [])) none p
  unfolding add_unit
  run-single c acc p h l =
      let plain : is_high c ≡ false = ground arith in rw (run-unit_text c acc none p l, plain) refl

  run-escape_char :
      (c : ℕ) (acc : Text) (p : Parser)
      → IsScalar c
      → steps (in_text acc none p) (escape_char c) ≡ in_text (acc ++ (c ∷ [])) none p
  unfolding escape_char escaped_char nat_eq
  run-escape_char c acc p h =
      let Reads = λ (s : Text). steps (in_text acc none p) s ≡ in_text (acc ++ (c ∷ [])) none p in
      split-if Reads (c == 34) (λ e. run-short c 34 acc p (ground arith) refl)
        λ quote.
          split-if Reads (c == 92) (λ e. run-short c 92 acc p (ground arith) refl)
            λ slash.
              split-if Reads (c == 10) (λ e. run-short c b'n' acc p (ground arith) refl)
                λ _.
                  split-if Reads (c == 13) (λ e. run-short c b'r' acc p (ground arith) refl)
                    λ _.
                      split-if Reads (c == 9) (λ e. run-short c b't' acc p (ground arith) refl)
                        λ _.
                          split-if Reads (c == 12) (λ e. run-short c b'f' acc p (ground arith) refl)
                            λ _.
                              split-if Reads (c == 8)
                                (λ e. run-short c b'b' acc p (ground arith) refl)
                                λ _.
                                  split-if Reads (leb 32 c && leb c 126)
                                    (λ e. run-plain c acc p quote slash (ground arith))
                                    λ _.
                                      split-if Reads (ltb c 65536)
                                        (λ e. run-single c acc p h (ground arith))
                                        λ e. run-pair c acc p (ground arith) (ground arith)

  -- What is read of a text that is written is the text.
  pub run-escape_text :
      (s acc : Text) (p : Parser)
      → All IsScalar s
      → steps (in_text acc none p) (escape_text s) ≡ in_text (acc ++ s) none p
  unfolding escape_text run
  run-escape_text [] acc p h = ap (λ t. in_text t none p) (sym (append-nil acc))
  run-escape_text (c ∷ s) acc p (h, hs) = rw (
    run-append (in_text acc none p) (escape_char c) (escape_text s),
    run-escape_char c acc p h,
    run-escape_text s (acc ++ (c ∷ [])) p hs,
    append_assoc acc (c ∷ []) s,
  )

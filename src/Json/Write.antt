-- ===== src/Json/Write.antt =====
-- `json.dumps(v, indent=2)`.
use kiro_usage_pipeline.Base.{
  ℕ, ◌+◌, ◌-◌, ◌/◌, ◌%◌, zero, suc, Bool, true, false, ◌&&◌, Option, none, some, [], ◌∷◌, ◌++◌,
  Text, lit, ltb, leb, ◌==◌, nat_eq, text_eq, show_int, if◌then◌else◌,
}
use kiro_usage_pipeline.Value.{
  Value, null, bool, int, float, str, time, list, dict, Items, nil, cons, Fields, end, field,
}

unfoldable pub hex_digit : ℕ → ℕ
hex_digit d = if ltb d 10 then b'0' + d else 87 + d

-- `\uXXXX`
unfoldable pub unit_text : ℕ → Text
unit_text v =
    92
    ∷ b'u'
    ∷ hex_digit (v / 4096)
    ∷ hex_digit (v / 256 % 16)
    ∷ hex_digit (v / 16 % 16)
    ∷ hex_digit (v % 16)
    ∷ []

-- The two surrogates of a code point above 65535.
abbrev pub high_of : ℕ → ℕ
high_of c = 55296 + (c - 65536) / 1024

abbrev pub low_of : ℕ → ℕ
low_of c = 56320 + (c - 65536) % 1024

-- One character of a text, which is written in ASCII.
unfoldable pub escape_char : ℕ → Text
escape_char c =
    if c == 34
    then 92 ∷ 34 ∷ []
    else if c == 92
    then 92 ∷ 92 ∷ []
    else if c == 10
    then 92 ∷ b'n' ∷ []
    else if c == 13
    then 92 ∷ b'r' ∷ []
    else if c == 9
    then 92 ∷ b't' ∷ []
    else if c == 12
    then 92 ∷ b'f' ∷ []
    else if c == 8
    then 92 ∷ b'b' ∷ []
    else if leb 32 c && leb c 126
    then c ∷ []
    else if ltb c 65536
    then unit_text c
    else unit_text (high_of c) ++ unit_text (low_of c)

unfoldable pub escape_text : Text → Text
escape_text [] = []
escape_text (c ∷ s) = escape_char c ++ escape_text s

abbrev pub quote : Text → Text
quote s = 34 ∷ (escape_text s ++ (34 ∷ []))

-- NaN and the infinities are not written as `repr` writes them.
unfoldable pub float_text : Text → Text
float_text r =
    if r == lit "nan"
    then lit "NaN"
    else if r == lit "inf"
    then lit "Infinity"
    else if r == lit "-inf"
    then lit "-Infinity"
    else r

unfoldable pub spaces : ℕ → Text
spaces zero = []
spaces (suc n) = 32 ∷ spaces n

abbrev pub newline : ℕ → Text
newline n = 10 ∷ spaces n

-- The argument is the indent of the line that the value begins on.
unfoldable mutual
  pub write : ℕ → Value → Text
  write n null = lit "null"
  write n (bool true) = lit "true"
  write n (bool false) = lit "false"
  write n (int i) = show_int i
  write n (float r) = float_text r
  write n (str s) = quote s
  write n (time t) = []
  write n (list nil) = 91 ∷ 93 ∷ []
  write n (list (cons v vs)) =
      91
      ∷ (newline (n + 2)
          ++ (write (n + 2) v ++ (write_items (n + 2) vs ++ (newline n ++ (93 ∷ [])))))
  write n (dict end) = 123 ∷ 125 ∷ []
  write n (dict (field k v d)) =
      123
      ∷ (newline (n + 2)
          ++ (quote k
              ++ (58
                  ∷ 32
                  ∷ (write (n + 2) v ++ (write_fields (n + 2) d ++ (newline n ++ (125 ∷ [])))))))

  pub write_items : ℕ → Items → Text
  write_items n nil = []
  write_items n (cons v vs) = 44 ∷ (newline n ++ (write n v ++ write_items n vs))

  pub write_fields : ℕ → Fields → Text
  write_fields n end = []
  write_fields n (field k v d) =
      44 ∷ (newline n ++ (quote k ++ (58 ∷ 32 ∷ (write n v ++ write_fields n d))))

-- A `datetime` cannot be written.
unfoldable mutual
  pub is_serializable : Value → Bool
  is_serializable null = true
  is_serializable (bool _) = true
  is_serializable (int _) = true
  is_serializable (float _) = true
  is_serializable (str _) = true
  is_serializable (time _) = false
  is_serializable (list vs) = are_serializable vs
  is_serializable (dict d) = fields_serializable d

  pub are_serializable : Items → Bool
  are_serializable nil = true
  are_serializable (cons v vs) = is_serializable v && are_serializable vs

  pub fields_serializable : Fields → Bool
  fields_serializable end = true
  fields_serializable (field _ v d) = is_serializable v && fields_serializable d

-- `none` is a `TypeError`.
unfoldable pub dumps : Value → Option Text
dumps v = if is_serializable v then some (write 0 v) else none

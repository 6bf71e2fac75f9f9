-- ===== src/Value/Show.antt =====
-- `str(v)` and `repr(v)`, as f-strings print values. Non-ASCII characters count as printable.
use kiro_usage_pipeline.Base.{
  ℕ, ◌+◌, ◌/◌, ◌%◌, true, false, ◌&&◌, ◌||◌, not, List, [], ◌∷◌, ◌++◌, Text, lit, join, concat, ltb,
  ◌==◌, contains, nat_eq, show_int, if◌then◌else◌, ◌≡◌, refl,
}
use kiro_usage_pipeline.Value.{
  Value, null, bool, int, float, str, time, list, dict, Items, nil, cons, Fields, end, field,
}
use kiro_usage_pipeline.Value.Time.{str_time}

hex_digit : ℕ → ℕ
hex_digit d = if ltb d 10 then b'0' + d else 87 + d

-- One character of a `repr`, under the chosen quote.
repr_char : ℕ → ℕ → Text
unfolding hex_digit nat_eq
repr_char quote c =
    if c == quote || c == 92
    then 92 ∷ c ∷ []
    else if c == 9
    then lit "\\t"
    else if c == 10
    then lit "\\n"
    else if c == 13
    then lit "\\r"
    else if ltb c 32 || c == 127
    then lit "\\x" ++ (hex_digit (c / 16) ∷ hex_digit (c % 16) ∷ [])
    else c ∷ []

repr_chars : ℕ → Text → Text
repr_chars quote [] = []
repr_chars quote (c ∷ s) = repr_char quote c ++ repr_chars quote s

-- Single quotes, unless the text holds one and no double quote.
unfoldable pub repr_text : Text → Text
unfolding repr_chars repr_char
repr_text s =
    let quote = if contains s 39 && not (contains s 34) then 34 else 39 in
    quote ∷ (repr_chars quote s ++ (quote ∷ []))

unfoldable mutual
  unfolding repr_text

  pub repr : Value → Text
  repr null = lit "None"
  repr (bool true) = lit "True"
  repr (bool false) = lit "False"
  repr (int n) = show_int n
  repr (float r) = r
  repr (str s) = repr_text s
  repr (time t) = str_time t
  repr (list vs) = concat (lit "[" ∷ join (lit ", ") (repr_items vs) ∷ lit "]" ∷ [])
  repr (dict d) = concat (lit "{" ∷ join (lit ", ") (repr_fields d) ∷ lit "}" ∷ [])

  pub repr_items : Items → List Text
  repr_items nil = []
  repr_items (cons v vs) = repr v ∷ repr_items vs

  pub repr_fields : Fields → List Text
  repr_fields end = []
  repr_fields (field k v d) = concat (repr_text k ∷ lit ": " ∷ repr v ∷ []) ∷ repr_fields d

-- `str(v)`
unfoldable pub show : Value → Text
unfolding repr
show (str s) = s
show v = repr v

show_nested :
    show (dict (field (lit "a'") (list (cons null (cons (str (lit "x\n")) nil))) end))
    ≡ lit "{\"a'\": [None, 'x\\n']}"
unfolding show concat join lit
show_nested = refl

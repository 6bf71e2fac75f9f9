-- ===== src/Snapshot/Escape/Lexer.antt =====
-- How a Logs Insights query is cut into raw text and quoted parts, and what escaping guarantees.
use kiro_usage_pipeline.Base.{
  ℕ, Bool, true, false, Option, none, some, List, [], ◌∷◌, ◌++◌, ◌≡◌, ◌≢◌, refl, arith,
  append_assoc, append-nil, All, Text, ◌==◌, nat_eq, replace_char, ◌||◌, if◌then◌else◌,
}
use kiro_usage_pipeline.Snapshot.Escape.{
  escape_logs_insights_string, re_escape, is_special, escape_logs_insights_regex,
}

pub data Piece : Type 0 where
  raw : Text → Piece
  quoted : Text → Piece

pub data Mode : Type 0 where
  outside inside escaped : Mode

abbrev pub cons_piece : Piece → Option (List Piece) → Option (List Piece)
cons_piece p none = none
cons_piece p (some ps) = some (p ∷ ps)

-- Cuts a text at a quote character, where a backslash inside quotes takes the next character as it
-- is. `none` means that a quoted part has no end. The second argument is the part read so far.
unfoldable pub lex : ℕ → Mode → Text → Text → Option (List Piece)
lex quote outside acc [] = some (raw acc ∷ [])
lex quote inside acc [] = none
lex quote escaped acc [] = none
lex quote outside acc (c ∷ s) =
    let closed = cons_piece (raw acc) (lex quote inside [] s) in
    let longer = lex quote outside (acc ++ (c ∷ [])) s in if c == quote then closed else longer
lex quote escaped acc (c ∷ s) = lex quote inside (acc ++ (c ∷ [])) s
lex quote inside acc (c ∷ s) =
    let closed = cons_piece (quoted acc) (lex quote outside [] s) in
    let escape = lex quote escaped acc s in
    let longer = lex quote inside (acc ++ (c ∷ [])) s in
    if c == 92 then escape else if c == quote then closed else longer

-- A backslash before every character that `must` names.
escape_with : (ℕ → Bool) → Text → Text
escape_with must [] = []
escape_with must (c ∷ s) = (if must c then 92 ∷ c ∷ [] else c ∷ []) ++ escape_with must s

escape_logs_insights_string-eq :
    (s : Text) → escape_logs_insights_string s ≡ escape_with (λ c. c == 92 || c == b'"') s
unfolding escape_logs_insights_string replace_char escape_with nat_eq
escape_logs_insights_string-eq [] = refl
escape_logs_insights_string-eq (c ∷ s) = ground (arith, escape_logs_insights_string-eq s)

is_special-slash : is_special b'/' ≡ false
unfolding is_special nat_eq
is_special-slash = refl

is_special-backslash : is_special 92 ≡ true
unfolding is_special nat_eq
is_special-backslash = refl

escape_logs_insights_regex-eq :
    (s : Text) → escape_logs_insights_regex s ≡ escape_with (λ c. is_special c || c == b'/') s
unfolding escape_logs_insights_regex replace_char re_escape escape_with nat_eq
escape_logs_insights_regex-eq [] = refl
escape_logs_insights_regex-eq (c ∷ s) =
    ground (arith, escape_logs_insights_regex-eq s, is_special-slash)

-- Escaping puts a backslash before every quote and every backslash.
abbrev Covers : ℕ → (ℕ → Bool) → Type 0
Covers quote must = (quote ≢ 92) × ((c : ℕ) → must c ≡ false → (c ≢ 92) × (c ≢ quote))

-- The lexer reads an escaped text up to the quote that follows it, and gets the text back.
module _ (quote : ℕ) (must : ℕ → Bool) (covers : Covers quote must) where
  lex-escape_with :
      (acc s rest : Text)
      → lex quote inside acc (escape_with must s ++ (quote ∷ rest))
        ≡ cons_piece (quoted (acc ++ s)) (lex quote outside [] rest)
  unfolding lex escape_with
  lex-escape_with acc [] rest = rw append-nil (ground (arith, covers.0))
  lex-escape_with acc (c ∷ s) rest =
      let ih = lex-escape_with (acc ++ (c ∷ [])) s rest in
      ground (arith, ih, append_assoc acc (c ∷ []) s, covers.1 c)

-- Raw text without a quote.
pub lex_raw :
    (quote : ℕ) (acc s rest : Text)
    → All (λ c. c ≢ quote) s
    → lex quote outside acc (s ++ (quote ∷ rest))
      ≡ cons_piece (raw (acc ++ s)) (lex quote inside [] rest)
unfolding lex
lex_raw quote acc [] rest h = rw append-nil (ground arith)
lex_raw quote acc (c ∷ s) rest (p, h) =
    ground (arith, lex_raw quote (acc ++ (c ∷ [])) s rest h, append_assoc acc (c ∷ []) s)

string-Covers : Covers b'"' (λ c. c == 92 || c == b'"')
string-Covers = (omega arith, λ c h. ground arith)

regex-Covers : Covers b'/' (λ c. is_special c || c == b'/')
regex-Covers = (omega arith, λ c h. ground (arith, is_special-backslash))

-- A string literal that a script writes ends where the script ends it, whatever the value is, and
-- holds the value; likewise a pattern between slashes.
pub lex-escape :
    (acc s rest : Text)
    → (lex b'"' inside acc (escape_logs_insights_string s ++ (b'"' ∷ rest))
        ≡ cons_piece (quoted (acc ++ s)) (lex b'"' outside [] rest))
      × (lex b'/' inside acc (escape_logs_insights_regex s ++ (b'/' ∷ rest))
          ≡ cons_piece (quoted (acc ++ s)) (lex b'/' outside [] rest))
lex-escape acc s rest = (
  rw escape_logs_insights_string-eq (lex-escape_with b'"' _ string-Covers acc s rest),
  rw escape_logs_insights_regex-eq (lex-escape_with b'/' _ regex-Covers acc s rest),
)

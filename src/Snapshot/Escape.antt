-- ===== src/Snapshot/Escape.antt =====
-- di_snapshot_parsing.py (.pi/skills/aws-observability/scripts): escaping for query text.
pub mod Lexer
use kiro_usage_pipeline.Base.{
  ℕ, Bool, ◌||◌, List, [], ◌∷◌, ◌++◌, Text, lit, ◌==◌, contains, nat_eq, replace_char,
  if◌then◌else◌,
}

unfoldable pub escape_logs_insights_string : Text → Text
escape_logs_insights_string value =
    replace_char b'"' (92 ∷ b'"' ∷ []) (replace_char 92 (92 ∷ 92 ∷ []) value)

-- The characters that `re.escape` puts a backslash before.
unfoldable pub is_special : ℕ → Bool
is_special c =
    contains
      (b'(' ∷ b')' ∷ b'[' ∷ b']' ∷ b'{' ∷ b'}' ∷ b'?' ∷ b'*' ∷ b'+' ∷ b'-' ∷ b'|' ∷ b'^' ∷ b'$' ∷ 92
        ∷ b'.' ∷ b'&' ∷ b'~' ∷ b'#' ∷ b' ' ∷ 9 ∷ 10 ∷ 13 ∷ 11 ∷ 12 ∷ [])
      c

unfoldable pub re_escape : Text → Text
re_escape [] = []
re_escape (c ∷ s) = (if is_special c then 92 ∷ c ∷ [] else c ∷ []) ++ re_escape s

unfoldable pub escape_logs_insights_regex : Text → Text
escape_logs_insights_regex value = replace_char b'/' (92 ∷ b'/' ∷ []) (re_escape value)

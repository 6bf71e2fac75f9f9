-- ===== src/Snapshot/Filters/Literals.antt =====
-- The shape of the filter for every input.
use kiro_usage_pipeline.Base.{
  true, some, [], ◌∷◌, ◌++◌, ◌≡◌, ◌≢◌, refl, ◌∙◌, ap, arith, All, Text, lit, nat_eq, replace_char,
}
use kiro_usage_pipeline.Validation.{is_valid_location_hash}
use kiro_usage_pipeline.Validation.Hash.{IsHexDigit, is_valid_location_hash_iff}
use kiro_usage_pipeline.Snapshot.Escape.{escape_logs_insights_string}
use kiro_usage_pipeline.Snapshot.Escape.Lexer.{
  raw, quoted, outside, cons_piece, lex, lex-escape, lex_raw,
}
use kiro_usage_pipeline.Snapshot.Filters.{
  hash_clause, service_clause, environment_clause, name_clause, last_clause, literal,
  build_base_filters,
}

-- A clause without quotes and the literal after it are read as written.
pub lex_clause :
    (clause value rest : Text)
    → All (λ c. c ≢ b'"') clause
    → lex b'"' outside [] (clause ++ literal value rest)
      ≡ cons_piece (raw clause) (cons_piece (quoted value) (lex b'"' outside [] rest))
lex_clause clause value rest h =
    lex_raw b'"' [] clause _ h ∙ ap (cons_piece (raw clause)) (lex-escape [] value rest).0

lex_last : lex b'"' outside [] last_clause ≡ some (raw last_clause ∷ [])
unfolding lex lit nat_eq
lex_last = refl

pub hash_clause-plain : All (λ c. c ≢ b'"') hash_clause
unfolding lit
hash_clause-plain = omega arith

pub service_clause-plain : All (λ c. c ≢ b'"') service_clause
unfolding lit
service_clause-plain = omega arith

pub environment_clause-plain : All (λ c. c ≢ b'"') environment_clause
unfolding lit
environment_clause-plain = omega arith

pub name_clause-plain : All (λ c. c ≢ b'"') name_clause
unfolding lit
name_clause-plain = omega arith

-- Whatever the three values are, the filter has the same clauses, and its literals are the values:
-- no value changes the filter's syntax.
pub lex-build_base_filters :
    (location_hash service_name environment : Text)
    → lex b'"' outside [] (build_base_filters location_hash service_name environment)
      ≡ some (
          raw hash_clause
          ∷ quoted location_hash
          ∷ raw service_clause
          ∷ quoted service_name
          ∷ raw environment_clause
          ∷ quoted environment
          ∷ raw name_clause
          ∷ quoted environment
          ∷ raw last_clause
          ∷ [])
unfolding build_base_filters
lex-build_base_filters location_hash service_name environment = rw (
  lex_clause hash_clause location_hash _ hash_clause-plain,
  lex_clause service_clause service_name _ service_clause-plain,
  lex_clause environment_clause environment _ environment_clause-plain,
  lex_clause name_clause environment _ name_clause-plain,
  lex_last,
)

escape_of_hex : (s : Text) → All IsHexDigit s → escape_logs_insights_string s ≡ s
unfolding escape_logs_insights_string replace_char nat_eq
escape_of_hex [] h = refl
escape_of_hex (c ∷ s) (p, h) = ground (arith, escape_of_hex s h)

-- A valid location hash stands in the query as it is: there is nothing to escape.
pub escape_of_valid_hash :
    (h : Text) → is_valid_location_hash (some h) ≡ true → escape_logs_insights_string h ≡ h
escape_of_valid_hash h valid = escape_of_hex h ((is_valid_location_hash_iff (some h)).0 valid).1

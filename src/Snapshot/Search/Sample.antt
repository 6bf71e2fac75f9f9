-- ===== src/Snapshot/Search/Sample.antt =====
-- The query for a sample.
use kiro_usage_pipeline.Base.{
  some, [], ◌∷◌, ◌++◌, ◌≡◌, ◌≢◌, refl, sym, ◌∙◌, ap, arith, append_assoc, All, All-append, Text,
  lit, nat_eq,
}
use kiro_usage_pipeline.Snapshot.Escape.{escape_logs_insights_string}
use kiro_usage_pipeline.Snapshot.Escape.Lexer.{raw, quoted, outside, lex}
use kiro_usage_pipeline.Snapshot.Filters.{
  hash_clause, service_clause, environment_clause, name_clause, last_clause, literal,
  build_base_filters,
}
use kiro_usage_pipeline.Snapshot.Filters.Literals.{
  lex_clause, hash_clause-plain, service_clause-plain, environment_clause-plain, name_clause-plain,
}
use kiro_usage_pipeline.Snapshot.Search.{sample_query}

abbrev pub query_head : Text
query_head = lit "fields @timestamp, @message\n| filter "

abbrev pub sample_tail : Text
sample_tail = lit "\n| sort @timestamp desc\n| limit 1"

literal-append :
    (value rest more : Text) → literal value rest ++ more ≡ literal value (rest ++ more)
literal-append value rest more =
    ap (λ s. b'"' ∷ s) (append_assoc (escape_logs_insights_string value) (b'"' ∷ rest) more)

clause-append :
    (clause value rest more : Text)
    → (clause ++ literal value rest) ++ more ≡ clause ++ literal value (rest ++ more)
clause-append clause value rest more =
    append_assoc clause (literal value rest) more
    ∙ ap (λ s. clause ++ s) (literal-append value rest more)

build_base_filters-append :
    (h s e more : Text)
    → build_base_filters h s e ++ more
      ≡ hash_clause
        ++ literal h (
            service_clause
            ++ literal s
                (environment_clause ++ literal e (name_clause ++ literal e (last_clause ++ more))))
unfolding build_base_filters
build_base_filters-append h s e more = rw (
  clause-append hash_clause h _ more,
  clause-append service_clause s _ more,
  clause-append environment_clause e _ more,
  clause-append name_clause e _ more,
)

head-plain : All (λ c. c ≢ b'"') query_head
unfolding lit
head-plain = omega arith

lex_tail :
    lex b'"' outside [] (last_clause ++ sample_tail) ≡ some (raw (last_clause ++ sample_tail) ∷ [])
unfolding lex lit nat_eq
lex_tail = refl

abbrev after_hash : Text → Text → Text → Text
after_hash h s e = literal h (
    service_clause
    ++ literal s
        (environment_clause ++ literal e (name_clause ++ literal e (last_clause ++ sample_tail))))

-- Whatever the three values are, the query for a sample has the same text around its literals, and
-- its literals are the values.
pub lex-sample_query :
    (h s e : Text)
    → lex b'"' outside [] (sample_query h s e)
      ≡ some (
          raw (query_head ++ hash_clause)
          ∷ quoted h
          ∷ raw service_clause
          ∷ quoted s
          ∷ raw environment_clause
          ∷ quoted e
          ∷ raw name_clause
          ∷ quoted e
          ∷ raw (last_clause ++ sample_tail)
          ∷ [])
unfolding sample_query
lex-sample_query h s e = rw (
  build_base_filters-append h s e sample_tail,
  sym (append_assoc query_head hash_clause (after_hash h s e)),
  lex_clause (query_head ++ hash_clause) h _
      (All-append _ query_head hash_clause head-plain hash_clause-plain),
  lex_clause service_clause s _ service_clause-plain,
  lex_clause environment_clause e _ environment_clause-plain,
  lex_clause name_clause e _ name_clause-plain,
  lex_tail,
)

-- ===== src/Sql/Tests.antt =====
-- A statement with a field and a group.
use semcast.Base.{◌≡◌, refl, none, some, [], ◌∷◌}
use semcast.Base.Text.{Chars, codes}
use semcast.Model.{Result, ok, err}
use semcast.Types.{SemanticType, FieldType, FieldSpec, text, int, contains}
use semcast.Sql.{Tokens, word, single_quoted, comma, l_paren, r_paren, semi_colon, peek_word}
use semcast.Sql.Ddl.{Sqlparser, canonical_version, parse_field_type, parse_base, duplicate}
use semcast.Sql.Ddl.CreateType.{
  parse_create_type, entries, one_entry, group_entry, group_fields, parse_field_def, checked,
}
use semcast.Sql.Ddl.Accepted.Parsed.{Accepted, parse_create_type-Accepted}
use semcast.Sql.Ddl.Statement.{SemanticDdl, parse_semantic_ddl, parse_semantic_ddl_total}

abbrev identifier : Tokens → Result (Chars × Tokens)
identifier (word w ∷ ts) = ok (w, ts)
identifier ts = err (codes "no identifier")

abbrev parser : Sqlparser
parser = record {
  display = λ t. [];
  unexpected = λ expected got. codes "unexpected";
  parse_identifier = identifier;
  to_uppercase = λ w. w;
  parse_f64 = λ s. none;
  show = λ x. [];
  hash = λ parts together. codes "v";
}

abbrev field_tokens : Chars → Chars → Tokens → Tokens
field_tokens name ty ts = word name ∷ word ty ∷ single_quoted (codes "a fact") ∷ ts

abbrev statement : Tokens
statement =
    word (codes "Facts")
    ∷ word (codes "as")
    ∷ l_paren
    ∷ field_tokens (codes "count") (codes "INT") (
        comma
        ∷ word (codes "together")
        ∷ l_paren
        ∷ field_tokens (codes "stage") (codes "TEXT") (
            comma
            ∷ field_tokens (codes "quote") (codes "TEXT") (r_paren ∷ r_paren ∷ semi_colon ∷ [])))

abbrev spec : Chars → FieldType → FieldSpec
spec name ty = record { name = name; ty = ty; doc = codes "a fact" }

abbrev facts : SemanticType
facts = record {
  name = codes "Facts";
  version = codes "v";
  fields = spec (codes "count") int ∷ spec (codes "stage") text ∷ spec (codes "quote") text ∷ [];
  together = (codes "stage" ∷ codes "quote" ∷ []) ∷ [];
}

parsed : parse_create_type parser statement ≡ some (ok facts)
unfolding parse_create_type entries one_entry group_entry group_fields parse_field_def
    parse_field_type parse_base checked canonical_version duplicate contains peek_word
parsed = refl

parse_create_type-Accepted_example : Accepted facts
parse_create_type-Accepted_example = parse_create_type-Accepted parser statement facts parsed

parse_semantic_ddl_total_example :
    (r : Result SemanticDdl) × (parse_semantic_ddl parser (word (codes "type") ∷ statement)
      ≡ some r)
parse_semantic_ddl_total_example = parse_semantic_ddl_total parser (word (codes "type") ∷ statement)

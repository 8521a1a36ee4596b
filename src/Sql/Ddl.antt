-- ===== src/Sql/Ddl.antt =====
-- src/sql/ddl.rs: `CREATE SEMANTIC TYPE`. What is sqlparser's (the display of a token, the error of
-- `expect_token`, `parse_identifier`) and the standard library's (`to_uppercase`, floats as text,
-- `DefaultHasher`) are parameters. The loops over the fields run on fuel.
pub mod Accepted
pub mod CreateType
pub mod Fuel
pub mod Statement
use semcast.Base.{
  ℕ, zero, suc, Bool, true, false, Option, none, some, List, [], ◌∷◌, ◌++◌, length, ltb,
  if◌then◌else◌,
}
use semcast.Base.Text.{Chars, codes, trim}
use semcast.Base.Assoc.{chars_beq}
use semcast.Model.{Result, ok, err, and_then}
use semcast.Types.{
  FieldType, FieldSpec, SemanticType, OrderedF64, text, int, real, real_bounded, boolean, one_of,
  level, list, contains, names_of, rendered,
}
use semcast.Sql.{
  Token, Tokens, word, single_quoted, double_quoted, comma, l_paren, r_paren, l_bracket, r_bracket,
  semi_colon, eof, peek_token, next_token, eq_ignore_ascii_case, peek_word,
}

abbrev pub type_error : {A : Type 0} → Chars → Result A
type_error message = err (codes "invalid CREATE SEMANTIC TYPE statement: " ++ message)

-- `str::split_once("..")`.
unfoldable pub split_once_dots : Chars → Option (Chars × Chars)
split_once_dots [] = none
split_once_dots (c ∷ []) = none
split_once_dots (c ∷ d ∷ cs) =
    let rest = split_once_dots (d ∷ cs) in
    let later : Option (Chars × Chars) = elim rest [
      | none ↦ none
      | some parts ↦ some (c ∷ parts.0, parts.1)
    ] in
    if chars_beq (c ∷ d ∷ []) (codes "..") then some ([], cs) else later

-- The first name that an earlier one equals.
unfoldable pub duplicate : List Chars → List Chars → Option Chars
duplicate seen [] = none
duplicate seen (n ∷ names) =
    let rest = duplicate (n ∷ seen) names in if contains n seen then some n else rest

pub record Sqlparser : Type 0 where
  pub display : Token → Chars
  pub unexpected : Token → Token → Chars
  pub parse_identifier : Tokens → Result (Chars × Tokens)
  pub to_uppercase : Chars → Chars
  pub parse_f64 : Chars → Option OrderedF64
  pub show : OrderedF64 → Chars
  pub hash : List Chars → List (List Chars) → Chars

-- The hash of the version, in hexadecimal, over the names, the types and the docs, and the groups.
unfoldable pub canonical_version : Sqlparser → List FieldSpec → List (List Chars) → Chars
unfolding rendered
canonical_version p fields together = p.hash (rendered p.show fields) together

module _ (p : Sqlparser) where
  -- `expect_token`, of the tokens that the program asks for.
  abbrev pub expect_l_paren : Tokens → Result Tokens
  expect_l_paren (l_paren ∷ ts) = ok ts
  expect_l_paren ts = type_error (p.unexpected l_paren (peek_token ts))

  abbrev pub expect_r_bracket : Tokens → Result Tokens
  expect_r_bracket (r_bracket ∷ ts) = ok ts
  expect_r_bracket ts = type_error (p.unexpected r_bracket (peek_token ts))

  abbrev pub expect_eof : Tokens → Result Tokens
  expect_eof [] = ok []
  expect_eof (t ∷ ts) = type_error (p.unexpected eof t)

  abbrev pub expect_word : Chars → Tokens → Result Tokens
  expect_word expected ts =
      if peek_word ts expected
      then ok (next_token ts).1
      else type_error (codes "expected " ++ expected ++ codes ", got " ++ p.display (peek_token ts))

  abbrev pub consume_semi_colon : Tokens → Tokens
  consume_semi_colon (semi_colon ∷ ts) = ts
  consume_semi_colon ts = ts

  -- The names of a list after its parenthesis, and what is left.
  unfoldable pub variants : Tokens → Result (List Chars × Tokens)
  variants (word v ∷ comma ∷ ts) = and_then (variants ts) (λ r. ok (v ∷ r.0, r.1))
  variants (word v ∷ r_paren ∷ ts) = ok (v ∷ [], ts)
  variants (word v ∷ ts) =
      type_error (codes "expected , or ) in the variant list, got " ++ p.display (peek_token ts))
  variants ts = type_error (codes "expected a variant name, got " ++ p.display (peek_token ts))

  unfoldable pub parse_variant_list : Tokens → Result (List Chars × Tokens)
  unfolding variants duplicate
  parse_variant_list ts = and_then (expect_l_paren ts) (λ inner. and_then (variants inner) (λ r.
      elim (duplicate [] r.0) [
        | none ↦ ok r
        | some v ↦ type_error (codes "duplicate variant " ++ v)
      ]))

  -- The tokens up to the closing parenthesis, displayed.
  unfoldable pub rendered_range : Tokens → Result (Chars × Tokens)
  rendered_range [] = type_error (codes "unterminated CHECK range")
  rendered_range (r_paren ∷ ts) = ok ([], ts)
  rendered_range (t ∷ ts) = and_then (rendered_range ts) (λ r. ok (p.display t ++ r.0, r.1))

  abbrev pub bound : Chars → Chars → Result OrderedF64
  bound which s = elim (p.parse_f64 (trim s)) [
    | some x ↦ ok x
    | none ↦ type_error (codes "invalid CHECK " ++ which ++ codes " bound `" ++ s ++ codes "`")
  ]

  unfoldable pub parse_check_range : Tokens → Result ((OrderedF64 × OrderedF64) × Tokens)
  unfolding rendered_range split_once_dots
  parse_check_range ts = and_then (expect_l_paren ts) (λ inner.
      and_then (rendered_range inner) (λ r. elim (split_once_dots r.0) [
        | none ↦ type_error (codes "expected `a..b` in CHECK, got `" ++ r.0 ++ codes "`")
        | some parts ↦
            and_then (bound (codes "lower") parts.0)
              (λ lo. and_then (bound (codes "upper") parts.1) (λ hi. ok ((lo, hi), r.1)))
      ]))

  -- The type that a keyword starts.
  unfoldable pub parse_base : Chars → Tokens → Result (FieldType × Tokens)
  unfolding parse_check_range parse_variant_list peek_word
  parse_base keyword ts =
      if chars_beq keyword (codes "TEXT")
      then ok (text, ts)
      else if chars_beq keyword (codes "INT")
      then ok (int, ts)
      else if chars_beq keyword (codes "BOOL")
      then ok (boolean, ts)
      else if chars_beq keyword (codes "REAL")
      then (if peek_word ts (codes "CHECK")
          then and_then (parse_check_range (next_token ts).1)
              (λ r. ok (real_bounded r.0.0 r.0.1, r.1))
          else ok (real, ts))
      else if chars_beq keyword (codes "ONEOF")
      then and_then (parse_variant_list ts) (λ r. ok (one_of r.0, r.1))
      else if chars_beq keyword (codes "LEVEL")
      then and_then (parse_variant_list ts) (λ r. ok (level r.0, r.1))
      else type_error (
          codes "nested semantic types are not implemented yet (field type "
          ++ keyword
          ++ codes ")")

  -- The optional brackets of a list.
  abbrev pub with_brackets : FieldType → Tokens → Result (FieldType × Tokens)
  with_brackets base (l_bracket ∷ ts) =
      and_then (expect_r_bracket ts) (λ rest. ok (list base, rest))
  with_brackets base ts = ok (base, ts)

  unfoldable pub parse_field_type : Tokens → Result (FieldType × Tokens)
  unfolding parse_base
  parse_field_type (word w ∷ ts) =
      and_then (parse_base (p.to_uppercase w) ts) (λ r. with_brackets r.0 r.1)
  parse_field_type ts =
      type_error (codes "expected a field type, got " ++ p.display (peek_token ts))

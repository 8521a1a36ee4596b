-- ===== src/Sql/Ddl/Statement.antt =====
-- src/sql/ddl.rs: the statements after `CREATE SEMANTIC`.
use semcast.Base.{
  ◌≡◌, refl, Bool, true, false, Option, none, some, ◌++◌, if◌then◌else◌, some_is_none, sym,
}
use semcast.Base.Text.{Chars, codes}
use semcast.Model.{Result, ok, err, and_then}
use semcast.Types.{SemanticType}
use semcast.Sql.{Token, Tokens, l_paren, r_paren, eof, peek_token, next_token, peek_word}
use semcast.Sql.Ddl.{Sqlparser, consume_semi_colon}
use semcast.Sql.Ddl.CreateType.{parse_create_type}
use semcast.Sql.Ddl.Fuel.Loops.{parse_create_type_total}

-- `CREATE SEMANTIC PREDICATE` is refused, so that it has no constructor here.
pub data SemanticDdl : Type 0 where
  create_index : Chars → Chars → SemanticDdl
  create_type : SemanticType → SemanticDdl

abbrev index_error : {A : Type 0} → Chars → Result A
index_error message = err (
    codes "invalid CREATE SEMANTIC INDEX statement: "
    ++ message
    ++ codes "; expected CREATE SEMANTIC INDEX ON table(column)")

-- The error of a part of sqlparser, as one of the index statement.
abbrev as_index : {A : Type 0} → Result A → Result A
as_index (ok a) = ok a
as_index (err message) = index_error message

module _ (p : Sqlparser) where
  -- `expect_token`.
  abbrev pub expect : Token → Bool → Tokens → Result Tokens
  expect expected here ts =
      if here then ok (next_token ts).1 else index_error (p.unexpected expected (peek_token ts))

  abbrev pub is_l_paren : Token → Bool
  is_l_paren l_paren = true
  is_l_paren _ = false

  abbrev pub is_r_paren : Token → Bool
  is_r_paren r_paren = true
  is_r_paren _ = false

  abbrev pub is_eof : Token → Bool
  is_eof eof = true
  is_eof _ = false

  unfoldable pub parse_create_index : Tokens → Result SemanticDdl
  unfolding peek_word
  parse_create_index ts =
      and_then
        (if peek_word ts (codes "ON")
          then ok (next_token ts).1
          else index_error (codes "expected ON, got " ++ p.display (peek_token ts)))
        (λ after_on. and_then (as_index (p.parse_identifier after_on)) (λ table.
          and_then (expect l_paren (is_l_paren (peek_token table.1)) table.1) (λ inner.
            and_then (as_index (p.parse_identifier inner)) (λ column.
              and_then (expect r_paren (is_r_paren (peek_token column.1)) column.1) (λ rest.
                let end = consume_semi_colon p rest in
                and_then (expect eof (is_eof (peek_token end)) end)
                  (λ u. ok (create_index table.0 column.0)))))))

  abbrev pub as_type : Option (Result SemanticType) → Option (Result SemanticDdl)
  as_type none = none
  as_type (some result) = some (and_then result (λ ty. ok (create_type ty)))

  unfoldable pub parse_semantic_ddl : Tokens → Option (Result SemanticDdl)
  unfolding parse_create_index parse_create_type peek_word
  parse_semantic_ddl ts =
      let rest = (next_token ts).1 in
      if peek_word ts (codes "index")
      then some (parse_create_index rest)
      else if peek_word ts (codes "type")
      then as_type (parse_create_type p rest)
      else if peek_word ts (codes "predicate")
      then some (
          err (
            codes "CREATE SEMANTIC PREDICATE is not implemented yet (needs template "
            ++ codes "substitution and CHEAP USING plumbing)"))
      else some (
          index_error
            (codes "expected INDEX, TYPE, or PREDICATE, got " ++ p.display (peek_token ts)))

  if_some :
      {A : Type 0} (b : Bool) (m n : Option A)
      → (r : A) × (m ≡ some r)
      → (r : A) × (n ≡ some r)
      → (r : A) × ((if b then m else n) ≡ some r)
  if_some true m n h g = h
  if_some false m n h g = g

  as_type-some :
      (o : Option (Result SemanticType))
      → (r : Result SemanticType) × (o ≡ some r)
      → (r : Result SemanticDdl) × (as_type o ≡ some r)
  as_type-some none h = absurd (some_is_none (sym h.1))
  as_type-some (some result) h = (_, refl)

  -- Parsing any tokens after `CREATE SEMANTIC` ends, with a statement or with an error.
  pub parse_semantic_ddl_total :
      (ts : Tokens) → (r : Result SemanticDdl) × (parse_semantic_ddl ts ≡ some r)
  unfolding parse_semantic_ddl
  parse_semantic_ddl_total ts =
      let rest = (next_token ts).1 in
      if_some (peek_word ts (codes "index")) _ _ (_, refl)
        (if_some (peek_word ts (codes "type")) _ _
          (as_type-some (parse_create_type p rest) (parse_create_type_total p rest))
          (if_some (peek_word ts (codes "predicate")) _ _ (_, refl) (_, refl)))

-- ===== src/Sql/Ddl/CreateType.antt =====
-- src/sql/ddl.rs: the fields, the groups and the statement of `CREATE SEMANTIC TYPE`. A loop that
-- runs out of fuel is none.
use semcast.Base.{
  ℕ, zero, suc, Option, none, some, List, [], ◌∷◌, ◌++◌, length, ltb, is_empty, if◌then◌else◌,
}
use semcast.Base.Text.{Chars, codes}
use semcast.Model.{Result, ok, err, and_then}
use semcast.Types.{FieldSpec, SemanticType, names_of}
use semcast.Sql.{
  Token, Tokens, word, single_quoted, double_quoted, comma, r_paren, peek_token, next_token,
  peek_word,
}
use semcast.Sql.Ddl.{
  Sqlparser, canonical_version, type_error, duplicate, expect_l_paren, expect_eof, expect_word,
  consume_semi_colon, parse_field_type,
}

-- The fields and the groups of a list of entries.
abbrev pub Body : Type 0
Body = List FieldSpec × List (List Chars)

-- A loop's outcome, with the tokens that are left; none if it runs out of fuel.
abbrev pub Looped : Type 0 → Type 0
Looped A = Option (Result (A × Tokens))

abbrev pub extend : {A B : Type 0} → (A → B) → Looped A → Looped B
extend f none = none
extend f (some (err message)) = some (err message)
extend f (some (ok (a, rest))) = some (ok (f a, rest))

-- What the token after a field or a group means.
pub data Next : Type 0 where
  goes_on : Next
  stops : Next
  fails : Next

abbrev pub next_of : Token → Next
next_of comma = goes_on
next_of r_paren = stops
next_of _ = fails

module _ (p : Sqlparser) where
  abbrev pub field_name : Tokens → Result (Chars × Tokens)
  field_name (word w ∷ ts) = ok (w, ts)
  field_name (double_quoted s ∷ ts) = ok (s, ts)
  field_name ts = type_error (codes "expected a field name, got " ++ p.display (peek_token ts))

  abbrev pub doc_string : Chars → Tokens → Result (Chars × Tokens)
  doc_string name (single_quoted s ∷ ts) = ok (s, ts)
  doc_string name ts = type_error (
      codes "expected a single-quoted doc string after field "
      ++ name
      ++ codes ", got "
      ++ p.display (peek_token ts))

  unfoldable pub parse_field_def : Tokens → Result (FieldSpec × Tokens)
  unfolding parse_field_type
  parse_field_def ts = and_then (field_name ts) (λ n. and_then (parse_field_type p n.1) (λ t.
      and_then (doc_string n.0 t.1) (λ d. ok (record { name = n.0; ty = t.0; doc = d.0 }, d.1))))

  abbrev pub after_next :
      {A : Type 0} → Next → Chars → A → (A → A) → (Tokens → Looped A) → Tokens → Looped A
  after_next goes_on place alone join more ts = extend join (more (next_token ts).1)
  after_next stops place alone join more ts = some (ok (alone, (next_token ts).1))
  after_next fails place alone join more ts = some (
      type_error (codes "expected , or ) " ++ place ++ codes ", got " ++ p.display (peek_token ts)))

  -- After a field or a group.
  abbrev pub after_item :
      {A : Type 0} → Chars → A → (A → A) → (Tokens → Looped A) → Tokens → Looped A
  after_item place alone join more ts =
      after_next (next_of (peek_token ts)) place alone join more ts

  -- The fields of a group.
  unfoldable pub group_fields : ℕ → Tokens → Looped (List FieldSpec)
  unfolding parse_field_def
  group_fields zero ts = none
  group_fields (suc fuel) ts = elim (parse_field_def ts) [
    | err message ↦ some (err message)
    | ok (spec, rest) ↦
        after_item (codes "in TOGETHER") (spec ∷ []) (λ specs. spec ∷ specs) (group_fields fuel)
          rest
  ]

  -- A group has two fields at least.
  abbrev pub check_group : Looped (List FieldSpec) → Looped Body
  check_group none = none
  check_group (some (err message)) = some (err message)
  check_group (some (ok (specs, rest))) =
      if ltb (length specs) 2
      then some (type_error (codes "a TOGETHER group needs at least two fields"))
      else some (ok ((specs, names_of specs ∷ []), rest))

  unfoldable pub group_entry : ℕ → Tokens → Looped Body
  unfolding group_fields
  group_entry fuel ts = elim (expect_l_paren p ts) [
    | err message ↦ some (err message)
    | ok inner ↦ check_group (group_fields fuel inner)
  ]

  abbrev pub field_entry : Result (FieldSpec × Tokens) → Looped Body
  field_entry (err message) = some (err message)
  field_entry (ok (spec, rest)) = some (ok ((spec ∷ [], []), rest))

  unfoldable pub one_entry : ℕ → Tokens → Looped Body
  unfolding group_entry parse_field_def peek_word
  one_entry fuel ts =
      if peek_word ts (codes "TOGETHER")
      then group_entry fuel (next_token ts).1
      else field_entry (parse_field_def ts)

  abbrev pub join_entries : Body → Body → Body
  join_entries first later = (first.0 ++ later.0, first.1 ++ later.1)

  -- The loop over the entries.
  unfoldable pub entries : ℕ → Tokens → Looped Body
  unfolding one_entry
  entries zero ts = none
  entries (suc fuel) ts = elim (one_entry fuel ts) [
    | none ↦ none
    | some (err message) ↦ some (err message)
    | some (ok (first, rest)) ↦
        after_item (codes "between fields") first (join_entries first) (entries fuel) rest
  ]

  -- What is checked after the entries.
  unfoldable pub checked : Chars → Body → Result SemanticType
  unfolding duplicate canonical_version
  checked name (fields, together) =
      if is_empty fields
      then type_error (codes "a semantic type needs at least one field")
      else elim (duplicate [] (names_of fields)) [
        | some n ↦ type_error (codes "duplicate field name " ++ n)
        | none ↦ ok (record {
          name = name;
          version = canonical_version p fields together;
          fields = fields;
          together = together;
        })
      ]

  abbrev pub end_type : Chars → Looped Body → Option (Result SemanticType)
  end_type name none = none
  end_type name (some (err message)) = some (err message)
  end_type name (some (ok (found, rest))) =
      some (and_then (expect_eof p (consume_semi_colon p rest)) (λ u. checked name found))

  abbrev pub parse_head : Tokens → Result (Chars × Tokens)
  parse_head ts = and_then (p.parse_identifier ts) (λ n.
      and_then (expect_word p (codes "AS") n.1)
        (λ rest. and_then (expect_l_paren p rest) (λ inner. ok (n.0, inner))))

  -- A turn takes a token at least, so fuel of one more than the tokens is enough.
  unfoldable pub parse_create_type : Tokens → Option (Result SemanticType)
  unfolding entries checked
  parse_create_type ts = elim (parse_head ts) [
    | err message ↦ some (err message)
    | ok (name, inner) ↦ end_type name (entries (suc (length inner)) inner)
  ]

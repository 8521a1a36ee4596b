-- ===== src/Sql/Ddl/Fuel/Loops.antt =====
-- src/sql/ddl.rs: the loops over the fields end.
use semcast.Base.{
  ℕ, zero, suc, ◌≤◌, ◌<◌, ◌≡◌, refl, true, none, some, List, [], ◌∷◌, length, ltb, arith,
  Bool-cases, inl, inr, true_is_false, sym,
}
use semcast.Base.Text.{Chars, codes}
use semcast.Model.{Result, ok, err}
use semcast.Types.{FieldSpec, SemanticType}
use semcast.Sql.{Tokens, word, single_quoted, double_quoted, comma, r_paren, peek_word, next_token}
use semcast.Sql.Ddl.{Sqlparser, parse_field_type, expect_l_paren}
use semcast.Sql.Ddl.CreateType.{
  Looped, Body, extend, field_name, doc_string, parse_field_def, after_item, group_fields,
  check_group, group_entry, field_entry, one_entry, entries, join_entries, end_type, parse_head,
  parse_create_type,
}
use semcast.Sql.Ddl.Fuel.{
  Within, Left, and_then-Within, Within-mono, expect_l_paren-Left, parse_field_type-Within,
}

-- A loop has not run out of fuel, and leaves so many tokens at most.
Ends : {A : Type 0} → ℕ → Looped A → Type 0
unfolding Within
Ends n none = ⊥
Ends n (some result) = Within n result

extend-Ends : {A B : Type 0} (n : ℕ) (f : A → B) (o : Looped A) → Ends n o → Ends n (extend f o)
unfolding Ends Within
extend-Ends n f none ends = ends
extend-Ends n f (some (err message)) ends = tt
extend-Ends n f (some (ok (a, rest))) ends = ends

Ends-mono : {A : Type 0} (n k : ℕ) (o : Looped A) → n ≤ k → Ends n o → Ends k o
unfolding Ends
Ends-mono n k none le ends = ends
Ends-mono n k (some m) le ends = Within-mono n k m le ends

module _ (p : Sqlparser) where
  after_item-Ends :
      {A : Type 0} (place : Chars) (alone : A) (join : A → A) (more : Tokens → Looped A)
      (rest : Tokens)
      → ((ts : Tokens) → length ts < length rest → Ends (length ts) (more ts))
      → Ends (length rest) (after_item p place alone join more rest)
  unfolding Ends Within
  after_item-Ends place alone join more (comma ∷ ts) each =
      extend-Ends _ join (more ts)
        (Ends-mono (length ts) _ (more ts) (omega arith) (each ts (omega arith)))
  after_item-Ends place alone join more (r_paren ∷ ts) each = omega arith
  after_item-Ends place alone join more _ each = tt

  field_name-Within : (ts : Tokens) → Within (length ts) (field_name p ts)
  unfolding Within
  field_name-Within (word w ∷ ts) = omega arith
  field_name-Within (double_quoted w ∷ ts) = omega arith
  field_name-Within _ = tt

  doc_string-Within : (name : Chars) (ts : Tokens) → Within (length ts) (doc_string p name ts)
  unfolding Within
  doc_string-Within name (single_quoted w ∷ ts) = omega arith
  doc_string-Within name _ = tt

  parse_field_def-Within : (ts : Tokens) → Within (length ts) (parse_field_def p ts)
  unfolding parse_field_def Within
  parse_field_def-Within ts =
      and_then-Within (length ts) _ (field_name p ts) _ (field_name-Within ts) (λ n fewer.
        and_then-Within (length n.1) _ (parse_field_type p n.1) _ (parse_field_type-Within p n.1)
          (λ t less.
            and_then-Within (length t.1) _ (doc_string p n.0 t.1) _ (doc_string-Within n.0 t.1)
              (λ d least. omega (arith, fewer, less, least))))

  field_fields-Ends :
      (fuel n : ℕ) (m : Result (FieldSpec × Tokens))
      → n < suc fuel
      → Within n m
      → ((ts : Tokens) → length ts < fuel → Ends (length ts) (group_fields p fuel ts))
      → Ends n (elim m [
        | err message ↦ some (err message)
        | ok (spec, rest) ↦
            after_item p
              (codes "in TOGETHER")
              (spec ∷ [])
              (λ specs. spec ∷ specs)
              (group_fields p fuel)
              rest
      ])
  unfolding Ends Within
  field_fields-Ends fuel n (err message) enough few each = tt
  field_fields-Ends fuel n (ok (spec, rest)) enough few each = Ends-mono (length rest) n _ few (
      after_item-Ends (codes "in TOGETHER") (spec ∷ []) (λ specs. spec ∷ specs)
        (group_fields p fuel) rest (λ ts less. each ts (omega (arith, enough, few, less))))

  group_fields-Ends :
      (fuel : ℕ) (ts : Tokens) → length ts < fuel → Ends (length ts) (group_fields p fuel ts)
  unfolding group_fields
  group_fields-Ends zero ts enough = absurd (omega (arith, enough))
  group_fields-Ends (suc fuel) ts enough =
      field_fields-Ends fuel (length ts) (parse_field_def p ts) enough (parse_field_def-Within ts)
        (λ rest few. group_fields-Ends fuel rest few)

  check_group-Ends : (n : ℕ) (o : Looped (List FieldSpec)) → Ends n o → Ends n (check_group p o)
  unfolding Ends Within
  check_group-Ends n none ends = ends
  check_group-Ends n (some (err message)) ends = tt
  check_group-Ends n (some (ok (specs, rest))) ends = elim (Bool-cases (ltb (length specs) 2)) [
    | inl e ↦ rw e tt
    | inr e ↦ rw e ends
  ]

  grouped-Ends :
      (fuel n : ℕ) (m : Result Tokens)
      → n < fuel
      → Left n m
      → Ends n (elim m [
        | err message ↦ some (err message)
        | ok inner ↦ check_group p (group_fields p fuel inner)
      ])
  unfolding Ends Within Left
  grouped-Ends fuel n (err message) enough few = tt
  grouped-Ends fuel n (ok inner) enough few =
      Ends-mono (length inner) n (check_group p (group_fields p fuel inner)) few (
        check_group-Ends (length inner) (group_fields p fuel inner)
          (group_fields-Ends fuel inner (omega (arith, enough, few))))

  field_entry-Ends :
      (n : ℕ) (m : Result (FieldSpec × Tokens)) → Within n m → Ends n (field_entry p m)
  unfolding Ends Within
  field_entry-Ends n (err message) few = tt
  field_entry-Ends n (ok (spec, rest)) few = few

  peeked_fewer :
      (ts : Tokens) (keyword : Chars)
      → peek_word ts keyword ≡ true
      → length (next_token ts).1 < length ts
  unfolding peek_word
  peeked_fewer [] keyword e = absurd (true_is_false (sym e))
  peeked_fewer (t ∷ ts) keyword e = omega arith

  one_entry-Ends :
      (fuel : ℕ) (ts : Tokens) → length ts < suc fuel → Ends (length ts) (one_entry p fuel ts)
  unfolding one_entry group_entry
  one_entry-Ends fuel ts enough = elim (Bool-cases (peek_word ts (codes "TOGETHER"))) [
    | inl e ↦ rw e (
        let fewer = peeked_fewer ts (codes "TOGETHER") e in
        let inner = (next_token ts).1 in
        Ends-mono (length inner) (length ts) (group_entry p fuel inner) (omega (arith, fewer)) (
          grouped-Ends fuel (length inner) (expect_l_paren p inner) (omega (arith, fewer, enough))
            (expect_l_paren-Left p inner)))
    | inr e ↦ rw e (field_entry-Ends (length ts) (parse_field_def p ts) (parse_field_def-Within ts))
  ]

  joined-Ends :
      (fuel n : ℕ) (o : Looped Body)
      → n < suc fuel
      → Ends n o
      → ((ts : Tokens) → length ts < fuel → Ends (length ts) (entries p fuel ts))
      → Ends n (elim o [
        | none ↦ none
        | some (err message) ↦ some (err message)
        | some (ok (first, rest)) ↦
            after_item p (codes "between fields") first (join_entries p first) (entries p fuel) rest
      ])
  unfolding Ends Within
  joined-Ends fuel n none enough few each = few
  joined-Ends fuel n (some (err message)) enough few each = tt
  joined-Ends fuel n (some (ok (first, rest))) enough few each = Ends-mono (length rest) n _ few (
      after_item-Ends (codes "between fields") first (join_entries p first) (entries p fuel) rest
        (λ ts less. each ts (omega (arith, enough, few, less))))

  entries-Ends : (fuel : ℕ) (ts : Tokens) → length ts < fuel → Ends (length ts) (entries p fuel ts)
  unfolding entries
  entries-Ends zero ts enough = absurd (omega (arith, enough))
  entries-Ends (suc fuel) ts enough =
      joined-Ends fuel (length ts) (one_entry p fuel ts) enough (one_entry-Ends fuel ts enough)
        (λ rest few. entries-Ends fuel rest few)

  end_type-some :
      (name : Chars) (n : ℕ) (o : Looped Body)
      → Ends n o
      → (r : Result SemanticType) × (end_type p name o ≡ some r)
  unfolding Ends
  end_type-some name n none ends = absurd ends
  end_type-some name n (some (err message)) ends = (err message, refl)
  end_type-some name n (some (ok (found, rest))) ends = (_, refl)

  created_some :
      (m : Result (Chars × Tokens))
      → (r : Result SemanticType) × ((elim m [
        | err message ↦ some (err message)
        | ok (name, inner) ↦ end_type p name (entries p (suc (length inner)) inner)
      ])
          ≡ some r)
  created_some (err message) = (err message, refl)
  created_some (ok (name, inner)) =
      end_type-some name (length inner) (entries p (suc (length inner)) inner)
        (entries-Ends (suc (length inner)) inner (omega arith))

  -- Parsing a statement ends, with a type or with an error, on any tokens.
  pub parse_create_type_total :
      (ts : Tokens) → (r : Result SemanticType) × (parse_create_type p ts ≡ some r)
  unfolding parse_create_type
  parse_create_type_total ts = created_some (parse_head p ts)

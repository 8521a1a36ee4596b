-- ===== src/Sql/Ddl/Accepted/Parsed.antt =====
-- src/sql/ddl.rs: what the parser returns is arranged as it is written.
use semcast.Base.{
  ℕ, zero, suc, ◌≤◌, ◌≡◌, refl, sym, ap, subst, false, none, some, List, [], ◌∷◌, ◌++◌, length, ltb,
  is_empty, arith, Bool-cases, inl, inr, if◌then◌else◌, Option-cases, some_is_none,
}
use semcast.Base.Text.{Chars, codes}
use semcast.Model.{Result, ok, err, and_then}
use semcast.Types.{FieldSpec, SemanticType, contains, names_of, generation_units}
use semcast.Types.Units.{times, generation_units_once}
use semcast.Sql.{Tokens, comma, r_paren, peek_word, next_token}
use semcast.Sql.Ddl.{Sqlparser, duplicate, expect_l_paren, expect_eof, consume_semi_colon}
use semcast.Sql.Ddl.CreateType.{
  Looped, Body, extend, parse_field_def, after_item, group_fields, check_group, group_entry,
  field_entry, one_entry, entries, join_entries, checked, end_type, parse_head, parse_create_type,
}
use semcast.Sql.Ddl.Accepted.{Arranged, nothing, alone, group, Arranged-Apart}

-- A loop's value, if it has one, has a property.
Holds : {A : Type 0} → (A → Type 0) → Looped A → Type 0
Holds P none = Unit
Holds P (some (err message)) = Unit
Holds P (some (ok (a, rest))) = P a

extend-Holds :
    {A : Type 0} (P : A → Type 0) (f : A → A) (o : Looped A)
    → ((a : A) → P a → P (f a))
    → Holds P o
    → Holds P (extend f o)
unfolding Holds
extend-Holds P f none each h = tt
extend-Holds P f (some (err message)) each h = tt
extend-Holds P f (some (ok (a, rest))) each h = each a h

-- Body that are arranged, also in front of others.
IsEntry : Body → Type 0
IsEntry e =
    Arranged e.0 e.1
    × ((later : Body) → Arranged later.0 later.1 → Arranged (e.0 ++ later.0) (e.1 ++ later.1))

append_nil : (specs : List FieldSpec) → specs ++ [] ≡ specs
append_nil [] = refl
append_nil (s ∷ specs) = ap (λ r. s ∷ r) (append_nil specs)

IsArranged : Body → Type 0
IsArranged e = Arranged e.0 e.1

err_is_ok : {A : Type 0} {message : Chars} {a : A} → err message ≡ ok a → ⊥
err_is_ok e = cc

ok_injective : {A : Type 0} {a b : A} → ok a ≡ ok b → a ≡ b
ok_injective e = cc

some_injective : {A : Type 0} {a b : A} → some a ≡ some b → a ≡ b
some_injective e = cc

-- What an accepted type is.
unfoldable pub Accepted : SemanticType → Type 0
Accepted ty =
    Arranged ty.fields ty.together
    × (duplicate [] (names_of ty.fields) ≡ none)
    × (is_empty ty.fields ≡ false)
    × ((n : Chars)
        → times n (generation_units ty) ≡ (if contains n (names_of ty.fields) then 1 else 0))

module _ (p : Sqlparser) where
  after_item-Holds :
      {A : Type 0} (P : A → Type 0) (place : Chars) (first : A) (join : A → A)
      (more : Tokens → Looped A) (rest : Tokens)
      → P first
      → ((a : A) → P a → P (join a))
      → ((ts : Tokens) → Holds P (more ts))
      → Holds P (after_item p place first join more rest)
  unfolding Holds
  after_item-Holds P place first join more (comma ∷ ts) here each later =
      extend-Holds P join (more ts) each (later ts)
  after_item-Holds P place first join more (r_paren ∷ ts) here each later = here
  after_item-Holds P place first join more _ here each later = tt

  field_entry-Holds : (m : Result (FieldSpec × Tokens)) → Holds IsEntry (field_entry p m)
  unfolding Holds IsEntry
  field_entry-Holds (err message) = tt
  field_entry-Holds (ok (spec, rest)) = (alone spec nothing, λ later h. alone spec h)

  check_group-Holds : (o : Looped (List FieldSpec)) → Holds IsEntry (check_group p o)
  unfolding Holds IsEntry
  check_group-Holds none = tt
  check_group-Holds (some (err message)) = tt
  check_group-Holds (some (ok (specs, rest))) = elim (Bool-cases (ltb (length specs) 2)) [
    | inl e ↦ rw e tt
    | inr e ↦
        let two : 2 ≤ length specs = ground (arith, e) in
        rw e (
          subst (λ s. Arranged s (names_of specs ∷ [])) (append_nil specs)
              (group specs two nothing),
          λ later h. group specs two h,
        )
  ]

  grouped-Holds :
      (fuel : ℕ) (m : Result Tokens)
      → Holds IsEntry (elim m [
        | err message ↦ some (err message)
        | ok inner ↦ check_group p (group_fields p fuel inner)
      ])
  unfolding Holds
  grouped-Holds fuel (err message) = tt
  grouped-Holds fuel (ok inner) = check_group-Holds (group_fields p fuel inner)

  one_entry-Holds : (fuel : ℕ) (ts : Tokens) → Holds IsEntry (one_entry p fuel ts)
  unfolding one_entry group_entry
  one_entry-Holds fuel ts = elim (Bool-cases (peek_word ts (codes "TOGETHER"))) [
    | inl e ↦ rw e (grouped-Holds fuel (expect_l_paren p (next_token ts).1))
    | inr e ↦ rw e (field_entry-Holds (parse_field_def p ts))
  ]

  joined-Holds :
      (fuel : ℕ) (o : Looped Body)
      → Holds IsEntry o
      → ((ts : Tokens) → Holds IsArranged (entries p fuel ts))
      → Holds IsArranged (elim o [
        | none ↦ none
        | some (err message) ↦ some (err message)
        | some (ok (first, rest)) ↦
            after_item p (codes "between fields") first (join_entries p first) (entries p fuel) rest
      ])
  unfolding Holds IsEntry IsArranged
  joined-Holds fuel none h each = tt
  joined-Holds fuel (some (err message)) h each = tt
  joined-Holds fuel (some (ok (first, rest))) h each =
      after_item-Holds IsArranged (codes "between fields") first (join_entries p first)
        (entries p fuel) rest h.0 h.1 each

  entries-Holds : (fuel : ℕ) (ts : Tokens) → Holds IsArranged (entries p fuel ts)
  unfolding entries Holds
  entries-Holds zero ts = tt
  entries-Holds (suc fuel) ts =
      joined-Holds fuel (one_entry p fuel ts) (one_entry-Holds fuel ts) (entries-Holds fuel)

  checked-Accepted :
      (name : Chars) (e : Body) (ty : SemanticType)
      → IsArranged e
      → checked p name e ≡ ok ty
      → Accepted ty
  unfolding IsArranged checked Accepted
  checked-Accepted name (fields, together) ty arranged = elim (Bool-cases (is_empty fields)) [
    | inl e ↦ rw e (λ done. absurd (err_is_ok done))
    | inr e ↦ elim (Option-cases (duplicate [] (names_of fields))) [
      | inr (n, f) ↦ rw (e, f) (λ done. absurd (err_is_ok done))
      | inl f ↦
          rw (e, f)
            (λ done.
              subst Accepted (ok_injective done)
                (arranged, f, e, λ n. generation_units_once _ n (Arranged-Apart [] arranged f)))
    ]
  ]

  finished-Accepted :
      (name : Chars) (o : Looped Body) (ty : SemanticType)
      → Holds IsArranged o
      → end_type p name o ≡ some (ok ty)
      → Accepted ty
  unfolding Holds
  finished-Accepted name none ty h done = absurd (some_is_none (sym done))
  finished-Accepted name (some (err message)) ty h done = absurd (err_is_ok (some_injective done))
  finished-Accepted name (some (ok (found, rest))) ty h done =
      let (u, at_end, made) =
        passed (expect_eof p (consume_semi_colon p rest)) (checked p name found)
          (some_injective done) in
      checked-Accepted name found ty h made
    where
      passed :
          {A B : Type 0} {b : B} (m : Result A) (r : Result B)
          → and_then m (λ u. r) ≡ ok b
          → (a : A) × (m ≡ ok a) × (r ≡ ok b)
      passed (ok a) r done = (a, refl, done)
      passed (err message) r done = absurd (err_is_ok done)

  created-Accepted :
      (m : Result (Chars × Tokens)) (ty : SemanticType)
      → (elim m [
        | err message ↦ some (err message)
        | ok (name, inner) ↦ end_type p name (entries p (suc (length inner)) inner)
      ])
        ≡ some (ok ty)
      → Accepted ty
  created-Accepted (err message) ty done = absurd (err_is_ok (some_injective done))
  created-Accepted (ok (name, inner)) ty done =
      finished-Accepted name (entries p (suc (length inner)) inner) ty
        (entries-Holds (suc (length inner)) inner) done

  -- A statement that is accepted gives a type with a field at least, no two fields of one name, and
  -- groups of two fields or more that are written side by side, so that exactly one unit generates
  -- each field.
  pub parse_create_type-Accepted :
      (ts : Tokens) (ty : SemanticType) → parse_create_type p ts ≡ some (ok ty) → Accepted ty
  unfolding parse_create_type
  parse_create_type-Accepted ts ty done = created-Accepted (parse_head p ts) ty done

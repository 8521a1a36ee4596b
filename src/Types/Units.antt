-- ===== src/Types/Units.antt =====
-- src/types/mod.rs: the generation units of a type.
use semcast.Base.{
  ℕ, suc, ◌≡◌, ap, sym, ◌∙◌, subst, inl, inr, true, false, ◌||◌, none, some, List, [], ◌∷◌, ◌++◌,
  if◌then◌else◌, All, arith, Bool-cases, Option-cases, true_is_false, some_is_none, count_if,
}
use semcast.Base.Text.{Chars}
use semcast.Base.Assoc.{chars_beq, chars_beq_iff}
use semcast.Types.{
  FieldSpec, SemanticType, contains, group_members, names_of, group_of, units_from,
  generation_units,
}
use semcast.Types.Sets.{
  Apart, contains-append, contains-members, find_group-contains, find_group_same,
}

-- The number of units that generate a name.
abbrev pub times : Chars → List (List FieldSpec) → ℕ
times n units = count_if (λ unit. contains n (names_of unit)) units

-- Names that are in a unit come with those of their group.
Closed : SemanticType → List Chars → Type 0
Closed ty seen =
    (m k : Chars) (g : List Chars)
    → contains m seen ≡ true
    → group_of m ty ≡ some g
    → contains k (names_of (group_members g ty.fields)) ≡ true
    → contains k seen ≡ true

-- Every field is in a unit or still to come.
Covered : SemanticType → List FieldSpec → List Chars → Type 0
Covered ty specs seen =
    (n : Chars)
    → contains n (names_of ty.fields) ≡ true
    → (contains n (names_of specs) || contains n seen) ≡ true

-- What is to come is a field.
Fields : SemanticType → List FieldSpec → Type 0
Fields ty specs = All (λ (f : FieldSpec). contains f.name (names_of ty.fields) ≡ true) specs

-- The names that the units to come generate.
abbrev due : SemanticType → List Chars → Chars → ℕ
due ty seen n = if contains n seen then 0 else if contains n (names_of ty.fields) then 1 else 0

some_injective : {A : Type 0} {a b : A} → some a ≡ some b → a ≡ b
some_injective e = cc

members_in_group :
    (n : Chars) (g : List Chars) (fields : List FieldSpec)
    → contains n (names_of (group_members g fields)) ≡ true
    → contains n g ≡ true
members_in_group n g fields h = ground (arith, contains-members n g fields, h)

group-Closed :
    (ty : SemanticType) (a : Chars) (g : List Chars) (seen : List Chars)
    → Apart ty.together
    → group_of a ty ≡ some g
    → Closed ty seen
    → Closed ty (names_of (group_members g ty.fields) ++ seen)
unfolding Closed group_of
group-Closed ty a g seen apart found closed m k h inside group co =
    let unit = names_of (group_members g ty.fields) in
    let whole = contains-append k unit seen in
    elim (Bool-cases (contains m unit)) [
      | inl e ↦
          let of_m =
            find_group_same a m ty.together apart found (members_in_group m g ty.fields e) in
          let co' : contains k unit ≡ true =
            subst (λ x. contains k (names_of (group_members x ty.fields)) ≡ true)
              (some_injective (sym group ∙ of_m)) co in
          ground (arith, whole, co')
      | inr e ↦
          let kept : contains m seen ≡ true =
            ground (arith, contains-append m unit seen, inside, e) in
          let kept' = closed m k h kept group co in ground (arith, whole, kept')
    ]

-- No member of the unit of a name that is new was in a unit before.
unit_new :
    (ty : SemanticType) (a n : Chars) (g : List Chars) (seen : List Chars)
    → Apart ty.together
    → group_of a ty ≡ some g
    → contains a (names_of ty.fields) ≡ true
    → contains a seen ≡ false
    → Closed ty seen
    → contains n (names_of (group_members g ty.fields)) ≡ true
    → contains n seen ≡ false
unfolding Closed group_of
unit_new ty a n g seen apart found declared new closed inside =
    elim (Bool-cases (contains n seen)) [
      | inr e ↦ e
      | inl e ↦
          let in_group : contains n g ≡ true = members_in_group n g ty.fields inside in
          let here : contains a (names_of (group_members g ty.fields)) ≡ true = ground (
            arith,
            contains-members a g ty.fields,
            find_group-contains a ty.together found,
            declared,
          ) in
          let back = closed n a g e (find_group_same a n ty.together apart found in_group) here in
          absurd (true_is_false (sym back ∙ new))
    ]

skip-Covered :
    (ty : SemanticType) (spec : FieldSpec) (specs : List FieldSpec) (seen next : List Chars)
    → contains spec.name next ≡ true
    → ((n : Chars) → contains n seen ≡ true → contains n next ≡ true)
    → Covered ty (spec ∷ specs) seen
    → Covered ty specs next
unfolding Covered contains
skip-Covered ty spec specs seen next inside grows covered n declared =
    let same : chars_beq spec.name n ≡ true → contains n next ≡ true =
      λ e. ap (λ x. contains x next) (sym ((chars_beq_iff spec.name n).0 e)) ∙ inside in
    ground (arith, covered n declared, same, grows n)

none_due :
    (ty : SemanticType) (seen : List Chars) (n : Chars) → Covered ty [] seen → 0 ≡ due ty seen n
unfolding Covered contains
none_due ty seen n covered = ground (arith, covered n)

pub contains_head : (a : Chars) (names : List Chars) → contains a (a ∷ names) ≡ true
unfolding contains
contains_head a names = ground (arith, chars_beq_iff a a)

contains_later :
    (a : Chars) (names : List Chars) (n : Chars)
    → contains n names ≡ true
    → contains n (a ∷ names) ≡ true
unfolding contains
contains_later a names n h = ground (arith, h)

-- A field without a group.
alone-Closed :
    (ty : SemanticType) (a : Chars) (seen : List Chars)
    → group_of a ty ≡ none
    → Closed ty seen
    → Closed ty (a ∷ seen)
unfolding Closed contains
alone-Closed ty a seen alone closed m k g inside group co = elim (Bool-cases (chars_beq a m)) [
  | inl e ↦
      absurd
        (some_is_none (sym group ∙ ap (λ x. group_of x ty) (sym ((chars_beq_iff a m).0 e)) ∙ alone))
  | inr e ↦
      let held : contains m seen ≡ true = ground (arith, inside, e) in
      let back = closed m k g held group co in ground (arith, back)
]

alone_once :
    (ty : SemanticType) (spec : FieldSpec) (seen : List Chars) (n : Chars) (rest : ℕ)
    → contains spec.name (names_of ty.fields) ≡ true
    → contains spec.name seen ≡ false
    → rest ≡ due ty (spec.name ∷ seen) n
    → (if chars_beq spec.name n || false then suc rest else rest) ≡ due ty seen n
unfolding contains
alone_once ty spec seen n rest declared new counted =
    let same = chars_beq_iff spec.name n in
    let d : chars_beq spec.name n ≡ true → contains n (names_of ty.fields) ≡ true =
      λ e. ap (λ x. contains x (names_of ty.fields)) (sym (same.0 e)) ∙ declared in
    let w : chars_beq spec.name n ≡ true → contains n seen ≡ false =
      λ e. ap (λ x. contains x seen) (sym (same.0 e)) ∙ new in
    ground (arith, d, w, counted)

group_once :
    (ty : SemanticType) (unit seen : List Chars) (n : Chars) (rest : ℕ)
    → (contains n unit ≡ true → contains n (names_of ty.fields) ≡ true)
    → (contains n unit ≡ true → contains n seen ≡ false)
    → rest ≡ due ty (unit ++ seen) n
    → (if contains n unit then suc rest else rest) ≡ due ty seen n
group_once ty unit seen n rest declared new counted =
    ground (arith, contains-append n unit seen, declared, new, counted)

members_declared :
    (n : Chars) (g : List Chars) (fields : List FieldSpec)
    → contains n (names_of (group_members g fields)) ≡ true
    → contains n (names_of fields) ≡ true
members_declared n g fields h = ground (arith, contains-members n g fields, h)

units_from_once :
    (ty : SemanticType) (specs : List FieldSpec) (seen : List Chars) (n : Chars)
    → Apart ty.together
    → Fields ty specs
    → Covered ty specs seen
    → Closed ty seen
    → times n (units_from ty specs seen) ≡ due ty seen n
unfolding units_from Fields
units_from_once ty [] seen n apart fields covered closed = none_due ty seen n covered
units_from_once ty (spec ∷ specs) seen n apart fields covered closed =
    elim (Bool-cases (contains spec.name seen)) [
      | inl e ↦ rw e (
          units_from_once ty specs seen n apart fields.1
            (skip-Covered ty spec specs seen seen e (λ m h. h) covered) closed)
      | inr e ↦ elim (Option-cases (group_of spec.name ty)) [
        | inl f ↦
            rw (e, f)
              (alone_once ty spec seen n (times n (units_from ty specs (spec.name ∷ seen))) fields.0
                e
                (units_from_once ty specs (spec.name ∷ seen) n apart fields.1
                  (skip-Covered ty spec specs seen (spec.name ∷ seen) (contains_head spec.name seen)
                    (contains_later spec.name seen) covered)
                  (alone-Closed ty spec.name seen f closed)))
        | inr (g, f) ↦
            let unit = names_of (group_members g ty.fields) in
            let here : contains spec.name unit ≡ true = ground (
              arith,
              contains-members spec.name g ty.fields,
              find_group-contains spec.name ty.together f,
              fields.0,
            ) in
            rw (e, f)
              (group_once ty unit seen n (times n (units_from ty specs (unit ++ seen)))
                (members_declared n g ty.fields)
                (unit_new ty spec.name n g seen apart f fields.0 e closed)
                (units_from_once ty specs (unit ++ seen) n apart fields.1
                  (skip-Covered ty spec specs seen (unit ++ seen)
                    (ground (arith, contains-append spec.name unit seen, here))
                    (λ m h. ground (arith, contains-append m unit seen, h)) covered)
                  (group-Closed ty spec.name g seen apart f closed)))
      ]
    ]

pub all_declared :
    (specs : List FieldSpec) (names : List Chars)
    → ((n : Chars) → contains n (names_of specs) ≡ true → contains n names ≡ true)
    → All (λ (f : FieldSpec). contains f.name names ≡ true) specs
all_declared [] names grows = tt
all_declared (spec ∷ specs) names grows = (
  grows spec.name (contains_head spec.name (names_of specs)),
  all_declared specs names (λ n h. grows n (contains_later spec.name (names_of specs) n h)),
)

-- If no name is in two groups, then each field's name is generated by exactly one unit, and no
-- other name by any.
pub generation_units_once :
    (ty : SemanticType) (n : Chars)
    → Apart ty.together
    → times n (generation_units ty) ≡ (if contains n (names_of ty.fields) then 1 else 0)
unfolding generation_units Covered Closed Fields contains
generation_units_once ty n apart =
    units_from_once ty ty.fields [] n apart (all_declared ty.fields (names_of ty.fields) (λ m h. h))
      (λ m h. ground (arith, h)) (λ m k g inside group co. absurd (true_is_false (sym inside)))

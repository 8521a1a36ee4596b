-- ===== src/Types/Pruned.antt =====
-- src/types/mod.rs: the restriction of a type to the fields that a query uses.
pub mod Closed
pub mod Pushdown
use semcast.Base.{
  All-Mem, ℕ, ◌≡◌, ◌≢◌, refl, ap, sym, ◌∙◌, subst, inl, inr, ◌⊎◌, ◌↔◌, Bool, true, false, ◌||◌,
  ◌&&◌, Option, none, some, List, [], ◌∷◌, ◌++◌, map, keep_if, if◌then◌else◌, All, arith,
  Bool-cases, Option-cases, true_is_false, some_is_none,
}
use mathlib.Core.List.{Memᴰ}
use mathlib.Core.List.Memᴰ.{head, tail}
use semcast.Base.Text.{Chars, codes}
use semcast.Base.Assoc.{chars_beq, chars_beq_iff}
use semcast.Model.{Result, ok, err, and_then}
use semcast.Types.{
  OrderedF64, synthesize_prompt, FieldSpec, SemanticType, contains, any, names_of, find_field,
  field, check_fields, select, close_over, restrict, group_members, pruned,
}
use semcast.Types.Sets.{Apart, SharesNone, contains-append, any-append, elsewhere, contains-members}

-- The name is that of a field of the type.
abbrev pub IsField : SemanticType → Chars → Type 0
IsField ty n = contains n (names_of ty.fields) ≡ true

-- The first of the names that is none of the type's fields.
unfoldable pub FirstUnknown : SemanticType → List Chars → Chars → Type 0
FirstUnknown ty names n =
    (known : List Chars) × (rest : List Chars) × (names ≡ known ++ n ∷ rest)
    × All (IsField ty) known
    × (contains n (names_of ty.fields) ≡ false)

abbrev pub no_field : SemanticType → Chars → Chars
no_field ty n = codes "semantic type " ++ ty.name ++ codes " has no field " ++ n

abbrev found : {A : Type 0} → Option A → Bool
found none = false
found (some a) = true

find_field-contains :
    (n : Chars) (fields : List FieldSpec)
    → found (find_field n fields) ≡ contains n (names_of fields)
unfolding find_field contains
find_field-contains n [] = refl
find_field-contains n (f ∷ fields) = elim (Bool-cases (chars_beq f.name n)) [
  | inl e ↦ rw e refl
  | inr e ↦ rw e (find_field-contains n fields)
]

-- Whether the loop over the names is passed, or where it stops.
Checks : SemanticType → List Chars → Type 0
Checks ty names =
    (All (IsField ty) names × (check_fields names ty ≡ ok tt))
    ⊎ ((n : Chars) × FirstUnknown ty names n × (check_fields names ty ≡ err (no_field ty n)))

check_fields-Checks : (names : List Chars) (ty : SemanticType) → Checks ty names
unfolding Checks check_fields field FirstUnknown
check_fields-Checks [] ty = inl (tt, refl)
check_fields-Checks (n ∷ names) ty =
    let here = find_field-contains n ty.fields in
    elim (Option-cases (find_field n ty.fields)) [
      | inl e ↦
          inr (n, ([], names, refl, tt, sym here ∙ ap found e), rw (e, check_fields, field) refl)
      | inr (f, e) ↦
          let known : IsField ty n = sym here ∙ ap found e in
          elim (check_fields-Checks names ty) [
            | inl (all, q) ↦ inl ((known, all), rw (e, check_fields, field) q)
            | inr (m, (before, rest, split, all, unknown), q) ↦ inr (
              m,
              (n ∷ before, rest, ap (λ r. n ∷ r) split, (known, all), unknown),
              rw (e, check_fields, field) q,
            )
          ]
    ]

-- `?` before a step that cannot fail.
and_then-ok :
    {A B : Type 0} {m : Result A} {a : A} (f : A → B)
    → m ≡ ok a
    → (b : B) × (and_then m (λ x. ok (f x)) ≡ ok b)
and_then-ok {a} f done = (f a, ap (λ m. and_then m (λ x. ok (f x))) done)

and_then-err :
    {A B : Type 0} {m : Result A} {message : Chars} (f : A → Result B)
    → m ≡ err message
    → and_then m f ≡ err message
and_then-err f failed = ap (λ m. and_then m f) failed

-- Pruning, selecting fields and writing the prompt all succeed if every name is a field's, and
-- otherwise all fail with the message on the first name that is not.
pub pruned_errors :
    (show : OrderedF64 → Chars) (names : List Chars) (ty : SemanticType)
    → (All (IsField ty) names
        × ((t : SemanticType) × (pruned names ty ≡ ok t))
        × ((specs : List FieldSpec) × (select names ty ≡ ok specs))
        × ((prompt : Chars) × (synthesize_prompt show names ty ≡ ok prompt)))
      ⊎ ((n : Chars) × FirstUnknown ty names n
          × (pruned names ty ≡ err (no_field ty n))
          × (select names ty ≡ err (no_field ty n))
          × (synthesize_prompt show names ty ≡ err (no_field ty n)))
unfolding Checks pruned select synthesize_prompt
pruned_errors show names ty = elim (check_fields-Checks names ty) [
  | inl (all, q) ↦
      let chosen = and_then-ok _ q in inl (all, and_then-ok _ q, chosen, and_then-ok _ chosen.1)
  | inr (n, first, q) ↦
      inr (n, first, and_then-err _ q, and_then-err _ q, and_then-err _ (and_then-err _ q))
]

-- ===== src/Sql/Ddl/Accepted.antt =====
-- src/sql/ddl.rs: the types that `CREATE SEMANTIC TYPE` accepts.
pub mod Parsed
use semcast.Base.{
  ℕ, zero, suc, ◌≤◌, ◌≡◌, refl, sym, ap, ◌∙◌, subst, Bool, true, false, not, ◌||◌, Option, none,
  some, List, [], ◌∷◌, ◌++◌, map, length, ltb, is_empty, All, arith, Bool-cases, inl, inr,
  if◌then◌else◌, Option-cases, true_is_false, some_is_none,
}
use semcast.Base.Text.{Chars, codes}
use semcast.Base.Assoc.{chars_beq, chars_beq_iff}
use semcast.Model.{Result, ok, err, and_then}
use semcast.Types.{FieldSpec, SemanticType, contains, names_of}
use semcast.Types.Sets.{Apart, SharesNone, contains-append}
use semcast.Sql.{Token, Tokens, comma, r_paren, peek_word, next_token}
use semcast.Sql.Ddl.{Sqlparser, duplicate, expect_l_paren, expect_eof, consume_semi_colon}
use semcast.Sql.Ddl.CreateType.{
  Looped, Body, extend, parse_field_def, after_item, group_fields, check_group, group_entry,
  field_entry, one_entry, entries, join_entries, checked, end_type, parse_head, parse_create_type,
}

-- Fields and groups as they are written: a field alone, or a group of two at least.
pub data Arranged : List FieldSpec → List (List Chars) → Type 0 where
  nothing : Arranged [] []
  alone :
      {fields : List FieldSpec} {groups : List (List Chars)} (f : FieldSpec)
      → Arranged fields groups
      → Arranged (f ∷ fields) groups
  group :
      {fields : List FieldSpec} {groups : List (List Chars)} (specs : List FieldSpec)
      → 2 ≤ length specs
      → Arranged fields groups
      → Arranged (specs ++ fields) (names_of specs ∷ groups)

names_of-append : (a b : List FieldSpec) → names_of (a ++ b) ≡ names_of a ++ names_of b
names_of-append [] b = refl
names_of-append (f ∷ a) b = ap (λ r. f.name ∷ r) (names_of-append a b)

-- A list without a duplicate, name by name.
duplicate_step :
    (x : Chars) (seen names : List Chars)
    → duplicate seen (x ∷ names) ≡ none
    → (contains x seen ≡ false) × (duplicate (x ∷ seen) names ≡ none)
unfolding duplicate
duplicate_step x seen names = elim (Bool-cases (contains x seen)) [
  | inl e ↦ rw e (λ clean. absurd (some_is_none clean))
  | inr e ↦ rw e (λ clean. (refl, clean))
]

-- A name that was seen is not among names without a duplicate.
duplicate_seen :
    (n : Chars) (seen names : List Chars)
    → duplicate seen names ≡ none
    → contains n seen ≡ true
    → contains n names ≡ false
unfolding contains
duplicate_seen n seen [] clean held = refl
duplicate_seen n seen (x ∷ names) clean held =
    let (new, rest) = duplicate_step x seen names clean in
    let later = duplicate_seen n (x ∷ seen) names rest (ground (arith, held)) in
    let apart : chars_beq x n ≡ true → contains n seen ≡ false =
      λ q. ap (λ y. contains y seen) (sym ((chars_beq_iff x n).0 q)) ∙ new in
    ground (arith, later, apart, held)

duplicate_disjoint :
    (n : Chars) (seen a b : List Chars)
    → duplicate seen (a ++ b) ≡ none
    → contains n a ≡ true
    → contains n b ≡ false
unfolding contains
duplicate_disjoint n seen [] b clean inside = absurd (true_is_false (sym inside))
duplicate_disjoint n seen (x ∷ a) b clean inside =
    let (new, rest) = duplicate_step x seen (a ++ b) clean in
    elim (Bool-cases (chars_beq x n)) [
      | inl e ↦
          let later = duplicate_seen n (x ∷ seen) (a ++ b) rest (ground (arith, e)) in
          ground (arith, later, contains-append n a b)
      | inr e ↦ duplicate_disjoint n (x ∷ seen) a b rest (ground (arith, e, inside))
    ]

duplicate_suffix :
    (seen a b : List Chars)
    → duplicate seen (a ++ b) ≡ none
    → (s : List Chars) × (duplicate s b ≡ none)
duplicate_suffix seen [] b clean = (seen, clean)
duplicate_suffix seen (x ∷ a) b clean =
    duplicate_suffix (x ∷ seen) a b (duplicate_step x seen (a ++ b) clean).1

-- The names of the groups are names of fields.
Inside : List FieldSpec → List Chars → Type 0
Inside fields g = (n : Chars) → contains n g ≡ true → contains n (names_of fields) ≡ true

Inside-more :
    (more fields : List FieldSpec) (groups : List (List Chars))
    → All (Inside fields) groups
    → All (Inside (more ++ fields)) groups
unfolding Inside
Inside-more more fields [] inside = tt
Inside-more more fields (g ∷ groups) inside = (
  λ n h.
      ap (contains n) (names_of-append more fields)
      ∙ ground (arith, contains-append n (names_of more) (names_of fields), inside.0 n h),
  Inside-more more fields groups inside.1,
)

Arranged-Inside :
    {fields : List FieldSpec} {groups : List (List Chars)}
    → Arranged fields groups
    → All (Inside fields) groups
unfolding Inside
Arranged-Inside nothing = tt
Arranged-Inside (alone {fields} {groups} f rest) =
    Inside-more (f ∷ []) fields groups (Arranged-Inside rest)
Arranged-Inside (group {fields} {groups} specs two rest) = (
  λ n h.
      ap (contains n) (names_of-append specs fields)
      ∙ ground (arith, contains-append n (names_of specs) (names_of fields), h),
  Inside-more specs fields groups (Arranged-Inside rest),
)

shares-Inside :
    (g : List Chars) (fields : List FieldSpec) (groups : List (List Chars))
    → ((n : Chars) → contains n g ≡ true → contains n (names_of fields) ≡ false)
    → All (Inside fields) groups
    → All (SharesNone g) groups
unfolding Inside SharesNone
shares-Inside g fields [] apart inside = tt
shares-Inside g fields (h ∷ groups) apart inside = (
  λ n held. ground (arith, apart n held, inside.0 n),
  shares-Inside g fields groups apart inside.1,
)

pub Arranged-Apart :
    {fields : List FieldSpec} {groups : List (List Chars)} (seen : List Chars)
    → Arranged fields groups
    → duplicate seen (names_of fields) ≡ none
    → Apart groups
unfolding Apart
Arranged-Apart seen nothing clean = tt
Arranged-Apart seen (alone {fields} f rest) clean =
    Arranged-Apart (f.name ∷ seen) rest (duplicate_step f.name seen (names_of fields) clean).1
Arranged-Apart seen (group {fields} {groups} specs two rest) clean =
    let split = ap (duplicate seen) (sym (names_of-append specs fields)) ∙ clean in
    let (s, after_item) = duplicate_suffix seen (names_of specs) (names_of fields) split in
    (
      shares-Inside (names_of specs) fields groups
          (λ n h. duplicate_disjoint n seen (names_of specs) (names_of fields) split h)
          (Arranged-Inside rest),
      Arranged-Apart s rest after_item,
    )

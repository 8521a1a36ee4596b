-- ===== src/Types/Pruned/Pushdown/Steps.antt =====
-- src/types/mod.rs: one step of the units of a type and of what pruning leaves of it.
use semcast.Base.{
  ◌≡◌, refl, ap, sym, ◌∙◌, inl, inr, Bool, true, false, ◌||◌, none, some, List, [], ◌∷◌, ◌++◌,
  keep_if, arith, Bool-cases, true_is_false,
}
use semcast.Base.Text.{Chars}
use semcast.Base.Assoc.{chars_beq, chars_beq_iff}
use semcast.Types.{
  FieldSpec, SemanticType, contains, any, names_of, find_group, group_of, group_members, units_from,
}
use semcast.Types.Sets.{contains-append, find_group-contains}
use semcast.Types.Pruned.Closed.{any-contains}

-- Names to keep, with all of a group or nothing.
unfoldable pub Whole : List Chars → SemanticType → Type 0
unfolding any contains
Whole keep ty =
    (a k : Chars) (g : List Chars)
    → group_of a ty ≡ some g
    → any (λ m. contains m keep) g ≡ true
    → contains k g ≡ true
    → contains k keep ≡ true

pub find_group-restrict :
    (keep : List Chars) (a : Chars) (groups : List (List Chars))
    → contains a keep ≡ true
    → find_group a (keep_if (λ g. any (λ m. contains m keep) g) groups) ≡ find_group a groups
unfolding find_group
find_group-restrict keep a [] held = refl
find_group-restrict keep a (g ∷ groups) held =
    let rest = find_group-restrict keep a groups held in
    elim (Bool-cases (contains a g)) [
      | inl e ↦ let reached = any-contains a keep g e held in rw (reached, e, find_group) refl
      | inr e ↦ elim (Bool-cases (any (λ m. contains m keep) g)) [
        | inl f ↦ rw (f, e, find_group) rest
        | inr f ↦ rw (f, e) rest
      ]
    ]

pub members-restrict :
    (keep g : List Chars) (fields : List FieldSpec)
    → ((k : Chars) → contains k g ≡ true → contains k keep ≡ true)
    → group_members g (keep_if (λ f. contains f.name keep) fields) ≡ group_members g fields
unfolding group_members
members-restrict keep g [] whole = refl
members-restrict keep g (f ∷ fields) whole =
    let rest = members-restrict keep g fields whole in
    elim (Bool-cases (contains f.name g)) [
      | inl e ↦ let held = whole f.name e in rw (held, e, group_members) (ap (λ r. f ∷ r) rest)
      | inr e ↦ elim (Bool-cases (contains f.name keep)) [
        | inl q ↦ rw (q, e) rest
        | inr q ↦ rw (q, e) rest
      ]
    ]

-- Whether a name of the unit is kept.
abbrev pub unit_kept : List Chars → List FieldSpec → Bool
unit_kept keep unit = any (λ m. contains m keep) (names_of unit)

pub keep-true :
    {A : Type 0} (p : A → Bool) (x : A) (xs : List A)
    → p x ≡ true
    → keep_if p (x ∷ xs) ≡ x ∷ keep_if p xs
keep-true p x xs e = rw e refl

pub keep-false :
    {A : Type 0} (p : A → Bool) (x : A) (xs : List A)
    → p x ≡ false
    → keep_if p (x ∷ xs) ≡ keep_if p xs
keep-false p x xs e = rw e refl

pub units-seen :
    (ty : SemanticType) (spec : FieldSpec) (specs : List FieldSpec) (seen : List Chars)
    → contains spec.name seen ≡ true
    → units_from ty (spec ∷ specs) seen ≡ units_from ty specs seen
unfolding units_from
units-seen ty spec specs seen e = rw e refl

pub units-group :
    (ty : SemanticType) (spec : FieldSpec) (specs : List FieldSpec) (seen : List Chars)
    (g : List Chars)
    → contains spec.name seen ≡ false
    → group_of spec.name ty ≡ some g
    → units_from ty (spec ∷ specs) seen
      ≡ group_members g ty.fields
        ∷ units_from ty specs (names_of (group_members g ty.fields) ++ seen)
unfolding units_from
units-group ty spec specs seen g e f = rw (e, f) refl

pub units-alone :
    (ty : SemanticType) (spec : FieldSpec) (specs : List FieldSpec) (seen : List Chars)
    → contains spec.name seen ≡ false
    → group_of spec.name ty ≡ none
    → units_from ty (spec ∷ specs) seen ≡ (spec ∷ []) ∷ units_from ty specs (spec.name ∷ seen)
unfolding units_from
units-alone ty spec specs seen e f = rw (e, f) refl

pub any-none :
    (keep g : List Chars)
    → ((m : Chars) → contains m g ≡ true → contains m keep ≡ false)
    → any (λ m. contains m keep) g ≡ false
unfolding any contains
any-none keep [] none_kept = refl
any-none keep (x ∷ g) none_kept = ground (
  arith,
  none_kept x (ground (arith, chars_beq_iff x x)),
  any-none keep g (λ m h. none_kept m (ground (arith, h))),
)

-- The names in units so far agree on the names to keep.
unfoldable pub SameKept : List Chars → List Chars → List Chars → Type 0
SameKept keep mine theirs =
    (n : Chars) → contains n keep ≡ true → contains n mine ≡ contains n theirs

pub SameKept-append :
    (keep unit mine theirs : List Chars)
    → SameKept keep mine theirs
    → SameKept keep (unit ++ mine) (unit ++ theirs)
unfolding SameKept
SameKept-append keep unit mine theirs same n held =
    contains-append n unit mine
    ∙ ap (λ b. contains n unit || b) (same n held)
    ∙ sym (contains-append n unit theirs)

pub SameKept-drop :
    (keep unit mine theirs : List Chars)
    → ((m : Chars) → contains m unit ≡ true → contains m keep ≡ false)
    → SameKept keep mine theirs
    → SameKept keep mine (unit ++ theirs)
unfolding SameKept
SameKept-drop keep unit mine theirs none_kept same n held =
    ground (arith, contains-append n unit theirs, same n held, none_kept n, held)

pub contains-one :
    (a m : Chars) (keep : List Chars)
    → contains a keep ≡ false
    → contains m (a ∷ []) ≡ true
    → contains m keep ≡ false
unfolding contains
contains-one a m keep out inside =
    let here : chars_beq a m ≡ true = ground (arith, inside) in
    ap (λ x. contains x keep) (sym ((chars_beq_iff a m).0 here)) ∙ out

-- Where a name is not kept, no name of its group is.
pub group_out :
    (keep : List Chars) (ty : SemanticType) (a : Chars) (g : List Chars)
    → Whole keep ty
    → group_of a ty ≡ some g
    → contains a keep ≡ false
    → (m : Chars) → contains m g ≡ true
    → contains m keep ≡ false
unfolding Whole group_of
group_out keep ty a g whole found out m inside = elim (Bool-cases (contains m keep)) [
  | inr e ↦ e
  | inl e ↦
      let there = find_group-contains a ty.together found in
      absurd (true_is_false (sym (whole a a g found (any-contains m keep g inside e) there) ∙ out))
]

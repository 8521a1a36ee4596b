-- ===== src/Types/Sets.antt =====
-- src/types/mod.rs: the sets of names, and groups that share none.
use semcast.Base.{
  ◌≡◌, refl, ap, sym, ◌∙◌, subst, inl, inr, Bool, true, false, ◌||◌, ◌&&◌, Option, some, List, [],
  ◌∷◌, ◌++◌, if◌then◌else◌, All, arith, Bool-cases, true_is_false, some_is_none,
}
use semcast.Base.Text.{Chars}
use semcast.Base.Assoc.{chars_beq, chars_beq_iff}
use semcast.Types.{FieldSpec, contains, any, group_members, names_of, find_group}

pub contains-append :
    (n : Chars) (a b : List Chars) → contains n (a ++ b) ≡ (contains n a || contains n b)
unfolding contains
contains-append n [] b = refl
contains-append n (x ∷ a) b = ground (arith, contains-append n a b)

pub any-append :
    (p : Chars → Bool) (q : Chars → Bool) (g : List Chars)
    → ((n : Chars) → contains n g ≡ true → p n ≡ q n)
    → any p g ≡ any q g
unfolding any contains
any-append p q [] same = refl
any-append p q (x ∷ g) same =
    let here = same x (ground (arith, chars_beq_iff x x)) in
    let rest = any-append p q g (λ n h. same n (ground (arith, h))) in ground (arith, here, rest)

-- The names of a group's members are the names of the group that are fields.
pub contains-members :
    (n : Chars) (group : List Chars) (fields : List FieldSpec)
    → contains n (names_of (group_members group fields))
      ≡ (contains n group && contains n (names_of fields))
unfolding contains group_members
contains-members n group [] = ground arith
contains-members n group (f ∷ fields) =
    let rest = contains-members n group fields in
    let same : chars_beq f.name n ≡ true → contains f.name group ≡ contains n group =
      λ e. ap (λ x. contains x group) ((chars_beq_iff f.name n).0 e) in
    elim (Bool-cases (contains f.name group)) [
      | inl e ↦ rw e (ground (arith, rest, same, e))
      | inr e ↦ rw e (ground (arith, rest, same, e))
    ]

-- The group shares no name with another.
unfoldable pub SharesNone : List Chars → List Chars → Type 0
unfolding contains
SharesNone g h = (n : Chars) → contains n g ≡ true → contains n h ≡ false

-- No name is in two of the groups.
unfoldable pub Apart : List (List Chars) → Type 0
unfolding SharesNone
Apart [] = Unit
Apart (g ∷ groups) = All (SharesNone g) groups × Apart groups

some_injective : {A : Type 0} {a b : A} → some a ≡ some b → a ≡ b
some_injective e = cc

-- The equation of a search, with the test decided.
pick :
    (n : Chars) (x : List Chars) (groups : List (List Chars)) {o : Option (List Chars)} (b : Bool)
    → contains n x ≡ b
    → find_group n (x ∷ groups) ≡ o
    → (if b then some x else find_group n groups) ≡ o
unfolding find_group
pick n x groups {o} b e found = subst (λ c. (if c then some x else find_group n groups) ≡ o) e found

pub find_group-All :
    (P : List Chars → Type 0) (n : Chars) (groups : List (List Chars)) {g : List Chars}
    → All P groups
    → find_group n groups ≡ some g
    → P g
unfolding find_group
find_group-All P n [] h found = absurd (some_is_none (sym found))
find_group-All P n (x ∷ groups) h found = elim (Bool-cases (contains n x)) [
  | inl e ↦ subst P (some_injective (pick n x groups true e found)) h.0
  | inr e ↦ find_group-All P n groups h.1 (pick n x groups false e found)
]

pub find_group-contains :
    (n : Chars) (groups : List (List Chars)) {g : List Chars}
    → find_group n groups ≡ some g
    → contains n g ≡ true
unfolding find_group
find_group-contains n [] found = absurd (some_is_none (sym found))
find_group-contains n (x ∷ groups) found = elim (Bool-cases (contains n x)) [
  | inl e ↦ ap (contains n) (sym (some_injective (pick n x groups true e found))) ∙ e
  | inr e ↦ find_group-contains n groups (pick n x groups false e found)
]

-- A name of one group is in no other.
pub elsewhere :
    (g h : List Chars) (n : Chars) → SharesNone g h → contains n h ≡ true → contains n g ≡ false
unfolding SharesNone
elsewhere g h n apart inside = elim (Bool-cases (contains n g)) [
  | inl e ↦ absurd (true_is_false (sym inside ∙ apart n e))
  | inr e ↦ e
]

-- The members of a group that is found are all found in it.
pub find_group_same :
    (a m : Chars) (groups : List (List Chars)) {g : List Chars}
    → Apart groups
    → find_group a groups ≡ some g
    → contains m g ≡ true
    → find_group m groups ≡ some g
unfolding find_group Apart SharesNone
find_group_same a m [] apart found inside = absurd (some_is_none (sym found))
find_group_same a m (x ∷ groups) apart found inside = elim (Bool-cases (contains a x)) [
  | inl e ↦
      let here = some_injective (pick a x groups true e found) in
      let inside' : contains m x ≡ true = ap (contains m) here ∙ inside in rw inside' (ap some here)
  | inr e ↦
      let later = pick a x groups false e found in
      let outside : contains m x ≡ false =
        elsewhere x _ m (find_group-All (SharesNone x) a groups apart.0 later) inside in
      rw outside (find_group_same a m groups apart.1 later inside)
]

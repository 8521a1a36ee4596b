-- ===== src/Types/Pruned/Closed.antt =====
-- src/types/mod.rs: which fields and groups pruning keeps.
use semcast.Base.{
  keep_if, All-Mem, ◌≡◌, refl, ap, sym, ◌∙◌, inl, inr, Bool, true, false, ◌||◌, ◌&&◌, List, [], ◌∷◌,
  ◌++◌, All, arith, Bool-cases,
}
use mathlib.Core.List.{Memᴰ}
use mathlib.Core.List.Memᴰ.{head, tail}
use semcast.Base.Text.{Chars}
use semcast.Base.Assoc.{chars_beq, chars_beq_iff}
use semcast.Model.{Result, ok, err, and_then}
use semcast.Types.{
  FieldSpec, SemanticType, contains, any, names_of, check_fields, close_over, restrict,
  group_members, pruned,
}
use semcast.Types.Sets.{Apart, SharesNone, contains-append, any-append, elsewhere, contains-members}

-- The groups pull in a name: one of them has it, and a name to keep.
unfoldable pub pulled : Chars → List (List Chars) → List Chars → Bool
pulled n [] keep = false
pulled n (g ∷ groups) keep = (any (λ m. contains m keep) g && contains n g) || pulled n groups keep

-- A group adds nothing to the tests of the others.
pulled-append :
    (n : Chars) (g : List Chars) (groups : List (List Chars)) (keep : List Chars)
    → All (SharesNone g) groups
    → pulled n groups (g ++ keep) ≡ pulled n groups keep
unfolding pulled
pulled-append n g [] keep apart = refl
pulled-append n g (h ∷ groups) keep apart =
    let same : any (λ m. contains m (g ++ keep)) h ≡ any (λ m. contains m keep) h =
      any-append (λ m. contains m (g ++ keep)) (λ m. contains m keep) h
        (λ m inside. ground (arith, contains-append m g keep, elsewhere g h m apart.0 inside)) in
    rw same (
      ap (λ b. (any (λ m. contains m keep) h && contains n h) || b)
        (pulled-append n g groups keep apart.1))

pub close_over-pulled :
    (n : Chars) (groups : List (List Chars)) (keep : List Chars)
    → Apart groups
    → contains n (close_over groups keep) ≡ (contains n keep || pulled n groups keep)
unfolding close_over Apart pulled
close_over-pulled n [] keep apart = ground arith
close_over-pulled n (g ∷ groups) keep apart = elim (Bool-cases (any (λ m. contains m keep) g)) [
  | inl e ↦ rw e (
      close_over-pulled n groups (g ++ keep) apart.1
      ∙ ground (arith, contains-append n g keep, pulled-append n g groups keep apart.0))
  | inr e ↦ rw e (close_over-pulled n groups keep apart.1)
]

pub and_then-value : {A B : Type 0} {b c : B} (m : Result A) → and_then m (λ x. ok b) ≡ ok c → b ≡ c
and_then-value (ok a) done = ok_injective done
  where
    ok_injective : {A : Type 0} {a b : A} → ok a ≡ ok b → a ≡ b
    ok_injective e = cc
and_then-value (err message) done = absurd (err_is_ok done)
  where
    err_is_ok : {A : Type 0} {a : A} {message : Chars} → err message ≡ ok a → ⊥
    err_is_ok e = cc

restrict-fields :
    (keep : List Chars) (ty : SemanticType) (n : Chars)
    → contains n (names_of (restrict keep ty).fields)
      ≡ (contains n keep && contains n (names_of ty.fields))
unfolding restrict group_members
restrict-fields keep ty n = contains-members n keep ty.fields

-- The names of the fields that pruning keeps are those that are asked for and those that a group
-- with a name that is asked for pulls in, if no name is in two groups.
pub pruned-fields :
    (names : List Chars) (ty t : SemanticType) (n : Chars)
    → Apart ty.together
    → pruned names ty ≡ ok t
    → contains n (names_of t.fields)
      ≡ ((contains n names || pulled n ty.together names) && contains n (names_of ty.fields))
unfolding pruned
pruned-fields names ty t n apart done =
    let keep = close_over ty.together names in
    ap (λ (x : SemanticType). contains n (names_of x.fields))
      (sym (and_then-value (check_fields names ty) done))
    ∙ restrict-fields keep ty n
    ∙ ap (λ b. b && contains n (names_of ty.fields)) (close_over-pulled n ty.together names apart)

pub any-contains :
    (m : Chars) (keep g : List Chars)
    → contains m g ≡ true
    → contains m keep ≡ true
    → any (λ x. contains x keep) g ≡ true
unfolding any contains
any-contains m keep [] inside held = inside
any-contains m keep (x ∷ g) inside held =
    let same : chars_beq x m ≡ true → contains x keep ≡ true =
      λ e. ap (λ y. contains y keep) ((chars_beq_iff x m).0 e) ∙ held in
    ground (arith, same, inside, λ (i : contains m g ≡ true). any-contains m keep g i held)

pulled-elsewhere :
    (m : Chars) (g : List Chars) (groups : List (List Chars)) (keep : List Chars)
    → All (SharesNone g) groups
    → contains m g ≡ true
    → pulled m groups keep ≡ false
unfolding pulled SharesNone
pulled-elsewhere m g [] keep apart inside = refl
pulled-elsewhere m g (h ∷ groups) keep apart inside =
    ground (arith, apart.0 m inside, pulled-elsewhere m g groups keep apart.1 inside)

-- A group of which one name is asked for or pulled in is whole.
pub together-pulled :
    (m k : Chars) (g : List Chars) (groups : List (List Chars)) (keep : List Chars)
    → Apart groups
    → Memᴰ g groups
    → contains m g ≡ true
    → contains k g ≡ true
    → (contains m keep || pulled m groups keep) ≡ true
    → pulled k groups keep ≡ true
unfolding pulled Apart
together-pulled m k g [] keep apart inside here there held = elim inside [ ]
together-pulled m k g (x ∷ groups) keep apart (head e) here there held =
    let here' : contains m x ≡ true = ap (contains m) (sym e) ∙ here in
    let there' : contains k x ≡ true = ap (contains k) (sym e) ∙ there in
    let others = pulled-elsewhere m x groups keep apart.0 here' in
    ground (arith, any-contains m keep x here', held, others, there')
together-pulled m k g (x ∷ groups) keep apart (tail later) here there held =
    let out : contains m x ≡ false =
      elsewhere x g m (All-Mem (SharesNone x) groups apart.0 later) here in
    let rest = together-pulled m k g groups keep apart.1 later here there in
    ground (arith, out, rest, held)

asked :
    {P : Chars → Type 0} (names : List Chars)
    → ((n : Chars) → contains n names ≡ true → P n)
    → All P names
unfolding contains
asked [] each = tt
asked (n ∷ names) each =
    (each n (ground (arith, chars_beq_iff n n)), asked names (λ m h. each m (ground (arith, h))))

-- The test of a field, if the group's pull is read off the names.
keep_if_same :
    (p q : FieldSpec → Bool) (fields : List FieldSpec)
    → ((f : FieldSpec) → p f ≡ q f)
    → keep_if p fields ≡ keep_if q fields
keep_if_same p q [] same = refl
keep_if_same p q (f ∷ fields) same = elim (Bool-cases (p f)) [
  | inl e ↦
      let e' : q f ≡ true = sym (same f) ∙ e in
      rw (e, e') (ap (λ r. f ∷ r) (keep_if_same p q fields same))
  | inr e ↦ let e' : q f ≡ false = sym (same f) ∙ e in rw (e, e') (keep_if_same p q fields same)
]

-- Pruning keeps, in their order and unchanged, those fields of the type that are asked for or pulled
-- in by a group with a name that is asked for, and no others. So each field that is asked for is
-- kept, and a group of fields whole or not at all. No name is in two groups.
pub pruned_closed :
    (names : List Chars) (ty t : SemanticType)
    → Apart ty.together
    → pruned names ty ≡ ok t
    → (t.fields ≡ keep_if (λ f. contains f.name names || pulled f.name ty.together names) ty.fields)
      × All (λ n. contains n (names_of t.fields) ≡ contains n (names_of ty.fields)) names
      × ((g : List Chars) (m k : Chars)
          → Memᴰ g ty.together
          → contains m g ≡ true
          → contains k g ≡ true
          → contains m (names_of t.fields) ≡ true
          → contains k (names_of t.fields) ≡ contains k (names_of ty.fields))
unfolding pruned restrict
pruned_closed names ty t apart done = (
  ap (λ (x : SemanticType). x.fields) (sym (and_then-value (check_fields names ty) done))
      ∙ keep_if_same (λ f. contains f.name (close_over ty.together names)) _ ty.fields
          (λ f. close_over-pulled f.name ty.together names apart),
  asked names (λ n h. ground (arith, pruned-fields names ty t n apart done, h)),
  λ g m k inside here there held.
      let of_m = pruned-fields names ty t m apart done in
      let of_k = pruned-fields names ty t k apart done in
      let whole =
        together-pulled m k g ty.together names apart inside here there
          (ground (arith, of_m, held)) in
      ground (arith, of_k, whole),
)

-- ===== src/Cache/Sqlite/Durable/Agreement.antt =====
-- src/cache/sqlite.rs: the map of a process against the file, as it is and as it will be.
use semcast.Base.{
  ℕ, ◌≡◌, refl, ap, sym, inl, inr, ◌⊎◌, true, false, Option, none, some, List, [], ◌∷◌,
  if◌then◌else◌, is_some, Option-cases, Bool-cases, is_empty, ◌∙◌, some_is_none, true_is_false, ◌≢◌,
  subst, ==_iff, ◌==◌,
}
use semcast.Base.Assoc.{nat_key, lookup, insert, lookup-insert_self, lookup-insert_ne}
use semcast.Cache.{CachedValue}
use semcast.Cache.Sqlite.{Row, Stored, Table, insert_or_ignore, verdict_of_row}

-- The map's verdicts are those of the file to come, and the file gets no other rows.
unfoldable pub AgreesAt : ℕ → Stored → Table → Table → Type 0
AgreesAt k stored final table =
    ((v : CachedValue)
      → lookup k stored ≡ some v
      → (r : Row) × (lookup k final ≡ some r) × (verdict_of_row r ≡ v))
    × (lookup k stored ≡ none → lookup k final ≡ lookup k table)

unfoldable pub Agrees : Stored → Table → Table → Type 0
unfolding AgreesAt
Agrees stored final table = (k : ℕ) → AgreesAt k stored final table

nat_eq : (k j : ℕ) → (k ≡ j) ⊎ (k ≢ j)
nat_eq k j = elim (Bool-cases (k == j)) [
  | inl e ↦ inl ((==_iff k j).0 e)
  | inr e ↦ inr (λ q. true_is_false (sym ((==_iff k j).1 q) ∙ e))
]

ignore_self :
    (k : ℕ) (r : Row) (table : Table)
    → r.key ≡ k
    → lookup k table ≡ none
    → lookup k (insert_or_ignore r table) ≡ some r
unfolding insert_or_ignore
ignore_self k r table here lacks =
    let lacks' : lookup r.key table ≡ none = ap (λ x. lookup x table) here ∙ lacks in
    ap (λ b. lookup k (if is_some b then table else insert r.key r table)) lacks'
    ∙ ap (λ x. lookup k (insert x r table)) here
    ∙ lookup-insert_self k r table

ignore_ne :
    (j : ℕ) (r : Row) (table : Table)
    → r.key ≢ j
    → lookup j (insert_or_ignore r table) ≡ lookup j table
unfolding insert_or_ignore
ignore_ne j r table apart = elim (Bool-cases (is_some (lookup r.key table))) [
  | inl e ↦ rw e refl
  | inr e ↦ rw e (lookup-insert_ne r.key j r table apart)
]

some_injective : {A : Type 0} {a b : A} → some a ≡ some b → a ≡ b
some_injective e = cc

insert-Agrees_self :
    (k : ℕ) (v : CachedValue) (r : Row) (stored : Stored) (final table : Table)
    → r.key ≡ k
    → verdict_of_row r ≡ v
    → lookup k final ≡ none
    → AgreesAt k (insert k v stored) (insert_or_ignore r final) table
unfolding AgreesAt
insert-Agrees_self k v r stored final table here same lacks =
    let self = lookup-insert_self k v stored in
    (
      λ w held. (r, ignore_self k r final here lacks, same ∙ some_injective (sym self ∙ held)),
      λ held. absurd (some_is_none (sym self ∙ held)),
    )

insert-Agrees_ne :
    (k j : ℕ) (v : CachedValue) (r : Row) (stored : Stored) (final table : Table)
    → r.key ≡ k
    → k ≢ j
    → AgreesAt j stored final table
    → AgreesAt j (insert k v stored) (insert_or_ignore r final) table
unfolding AgreesAt
insert-Agrees_ne k j v r stored final table here apart agrees =
    let same = lookup-insert_ne k j v stored apart in
    let file = ignore_ne j r final (λ e. apart (sym here ∙ e)) in
    (
      λ w held. let (s, found, q) = agrees.0 w (sym same ∙ held) in (s, file ∙ found, q),
      λ held. file ∙ agrees.1 (sym same ∙ held),
    )

-- A new verdict in the map and its row in the file.
pub insert-Agrees :
    (k : ℕ) (v : CachedValue) (r : Row) (stored : Stored) (final table : Table)
    → r.key ≡ k
    → verdict_of_row r ≡ v
    → lookup k final ≡ none
    → Agrees stored final table
    → Agrees (insert k v stored) (insert_or_ignore r final) table
unfolding Agrees
insert-Agrees k v r stored final table here same lacks agrees j = elim (nat_eq k j) [
  | inl e ↦
      subst (λ x. AgreesAt x (insert k v stored) (insert_or_ignore r final) table) e
        (insert-Agrees_self k v r stored final table here same lacks)
  | inr e ↦ insert-Agrees_ne k j v r stored final table here e (agrees j)
]

-- A verdict that the map takes over from the file.
pub takes_over-Agrees :
    (k : ℕ) (r : Row) (stored : Stored) (final table : Table)
    → lookup k table ≡ some r
    → lookup k stored ≡ none
    → Agrees stored final table
    → Agrees (insert k (verdict_of_row r) stored) final table
unfolding Agrees AgreesAt
takes_over-Agrees k r stored final table file lacks agrees j = elim (nat_eq k j) [
  | inl e ↦
      subst (λ x. AgreesAt x (insert k (verdict_of_row r) stored) final table) e
        (
          λ w held. (r, (agrees k).1 lacks ∙ file, some_injective (sym self ∙ held)),
          λ held. absurd (some_is_none (sym self ∙ held)),
        )
  | inr e ↦
      let same = lookup-insert_ne k j (verdict_of_row r) stored e in
      (λ w held. (agrees j).0 w (sym same ∙ held), λ held. (agrees j).1 (sym same ∙ held))
]
  where
    self : lookup k (insert k (verdict_of_row r) stored) ≡ some (verdict_of_row r)
    self = lookup-insert_self k (verdict_of_row r) stored

pub is_some-none {ℓ} : {A : Type ℓ} (o : Option A) → is_some o ≡ false → o ≡ none
is_some-none none e = refl
is_some-none (some a) e = absurd (true_is_false e)

pub is_empty_nil : (batch : List Row) → is_empty batch ≡ true → batch ≡ []
is_empty_nil [] e = refl
is_empty_nil (r ∷ batch) e = absurd (true_is_false (sym e))

-- A table between the one of the file and the one to come agrees as well.
pub between-Agrees :
    (stored : Stored) (final table next : Table)
    → ((k : ℕ) (r : Row) → lookup k table ≡ some r → lookup k next ≡ some r)
    → ((k : ℕ) (r : Row) → lookup k next ≡ some r → lookup k final ≡ some r)
    → Agrees stored final table
    → Agrees stored final next
unfolding Agrees AgreesAt
between-Agrees stored final table next older newer agrees k = (
  (agrees k).0,
  λ held. elim (Option-cases (lookup k next)) [
    | inr (r, e) ↦ newer k r e ∙ sym e
    | inl e ↦ elim (Option-cases (lookup k table)) [
      | inr (r, f) ↦ absurd (some_is_none (sym (older k r f) ∙ e))
      | inl f ↦ (agrees k).1 held ∙ f ∙ sym e
    ]
  ],
)

-- ===== src/Base/Assoc.antt =====
-- Maps as association lists, over keys with a Boolean equality.
use semcast.Base.{
  ℕ, ◌≡◌, refl, ◌≢◌, ◌↔◌, inl, inr, Bool, true, false, ◌&&◌, Option, none, some, List, [], ◌∷◌,
  arith, if◌then◌else◌, Bool-cases, ◌==◌ as nat_beq, ==_iff, subst,
}

-- Keys with a test that accepts equal keys and no others.
pub record Key {ℓ} (K : Type ℓ) : Type ℓ where
  pub agree : K → K → Bool
  pub accepts : (k : K) → agree k k ≡ true
  pub rejects : {k j : K} → agree k j ≡ true → k ≡ j

infix 50 ◌=?◌
abbrev pub ◌=?◌ {ℓ} : {K : Type ℓ} ⦃key : Key K⦄ → K → K → Bool
◌=?◌ ⦃key⦄ k j = key.agree k j

instance abbrev pub nat_key : Key ℕ
nat_key = record {
  agree = nat_beq;
  accepts = λ k. (==_iff k k).1 refl;
  rejects = λ {k} {j}. (==_iff k j).0;
}

abbrev pub chars_beq : List ℕ → List ℕ → Bool
chars_beq [] [] = true
chars_beq [] (y ∷ ys) = false
chars_beq (x ∷ xs) [] = false
chars_beq (x ∷ xs) (y ∷ ys) = nat_beq x y && chars_beq xs ys

pub chars_beq_iff : (a b : List ℕ) → (chars_beq a b ≡ true) ↔ (a ≡ b)
chars_beq_iff [] [] = (λ _. refl, λ _. refl)
chars_beq_iff [] (y ∷ ys) = (λ h. cc, λ h. cc)
chars_beq_iff (x ∷ xs) [] = (λ h. cc, λ h. cc)
chars_beq_iff (x ∷ xs) (y ∷ ys) =
    let ih = chars_beq_iff xs ys in (λ h. ground (arith, ih), λ h. ground (arith, ih))

instance abbrev pub chars_eq : Key (List ℕ)
chars_eq = record {
  agree = chars_beq;
  accepts = λ w. (chars_beq_iff w w).1 refl;
  rejects = λ {k} {j}. (chars_beq_iff k j).0;
}

module _ {ℓ} {K : Type ℓ} ⦃e : Key K⦄ where
  pub =?_iff : (k j : K) → ((k =? j) ≡ true) ↔ (k ≡ j)
  =?_iff k j = (λ q. e.rejects q, λ q. subst (λ x. (k =? x) ≡ true) q (e.accepts k))

  =?_false : (k j : K) → k ≢ j → (k =? j) ≡ false
  =?_false k j h = elim (Bool-cases (k =? j)) [ inl q ↦ absurd (h (e.rejects q)) | inr q ↦ q ]

module _ {ℓ κ} {K : Type ℓ} {V : Type κ} ⦃e : Key K⦄ where
  unfoldable pub lookup : K → List (K × V) → Option V
  lookup k [] = none
  lookup k ((j, v) ∷ m) = if j =? k then some v else lookup k m

  -- A new key goes to the end.
  unfoldable pub insert : K → V → List (K × V) → List (K × V)
  insert k v [] = (k, v) ∷ []
  insert k v ((j, w) ∷ m) = if j =? k then (k, v) ∷ m else (j, w) ∷ insert k v m

  pub lookup-insert :
      (k j : K) (v : V) (m : List (K × V))
      → lookup j (insert k v m) ≡ (if k =? j then some v else lookup j m)
  unfolding lookup insert
  lookup-insert k j v [] = refl
  lookup-insert k j v ((i, w) ∷ m) =
      ground (arith, =?_iff k j, =?_iff i k, =?_iff i j, lookup-insert k j v m)

  pub lookup-insert_self : (k : K) (v : V) (m : List (K × V)) → lookup k (insert k v m) ≡ some v
  lookup-insert_self k v m = rw (lookup-insert k k v m, e.accepts k) refl

  pub lookup-insert_ne :
      (k j : K) (v : V) (m : List (K × V)) → k ≢ j → lookup j (insert k v m) ≡ lookup j m
  lookup-insert_ne k j v m h = rw (lookup-insert k j v m, =?_false k j h) refl

-- ===== src/Index/Kmeans/Members.antt =====
-- `Clustering::members` of src/index/kmeans.rs against the assignments.
use semcast.Base.{
  ℕ, zero, suc, ◌+◌, ◌<◌, ◌≡◌, refl, sym, ap, subst, ◌⊎◌, inl, inr, ◌↔◌, some, List, [], ◌∷◌, ◌++◌,
  length, get_or, get_elem?, set, replicate, All, arith, length-set, length-replicate,
}
use mathlib.Core.List.{Memᴰ}
use mathlib.Core.List.Memᴰ.{head, tail}
use mathlib.Core.Option.{some-injective}
use semcast.Index.Kmeans.{Clustering, members_from, members}

Mem-left : (j p : ℕ) (xs : List ℕ) → Memᴰ j xs → Memᴰ j (xs ++ p ∷ [])
Mem-left j p [] m = elim m [ ]
Mem-left j p (x ∷ xs) (head e) = head e
Mem-left j p (x ∷ xs) (tail m) = tail (Mem-left j p xs m)

Mem-last : (p : ℕ) (xs : List ℕ) → Memᴰ p (xs ++ p ∷ [])
Mem-last p [] = head refl
Mem-last p (x ∷ xs) = tail (Mem-last p xs)

Mem-split : (j p : ℕ) (xs : List ℕ) → Memᴰ j (xs ++ p ∷ []) → Memᴰ j xs ⊎ (j ≡ p)
Mem-split j p [] (head e) = inr e
Mem-split j p [] (tail m) = elim m [ ]
Mem-split j p (x ∷ xs) (head e) = inl (head e)
Mem-split j p (x ∷ xs) (tail m) = elim (Mem-split j p xs m) [ inl k ↦ inl (tail k) | inr k ↦ inr k ]

-- A push onto one of the lists.
abbrev push : List (List ℕ) → ℕ → ℕ → List (List ℕ)
push ms cluster p = set ms cluster (get_or ms cluster [] ++ p ∷ [])

push-keeps :
    (ms : List (List ℕ)) (cluster c p j : ℕ)
    → Memᴰ j (get_or ms c [])
    → Memᴰ j (get_or (push ms cluster p) c [])
push-keeps [] cluster c p j m = m
push-keeps (x ∷ ms) zero zero p j m = Mem-left j p x m
push-keeps (x ∷ ms) zero (suc c) p j m = m
push-keeps (x ∷ ms) (suc cluster) zero p j m = m
push-keeps (x ∷ ms) (suc cluster) (suc c) p j m = push-keeps ms cluster c p j m

push-adds :
    (ms : List (List ℕ)) (cluster p : ℕ)
    → cluster < length ms
    → Memᴰ p (get_or (push ms cluster p) cluster [])
push-adds [] cluster p h = absurd (omega arith)
push-adds (x ∷ ms) zero p h = Mem-last p x
push-adds (x ∷ ms) (suc cluster) p h = push-adds ms cluster p (omega arith)

push-origin :
    (ms : List (List ℕ)) (cluster c p j : ℕ)
    → Memᴰ j (get_or (push ms cluster p) c [])
    → Memᴰ j (get_or ms c []) ⊎ ((j ≡ p) × (cluster ≡ c))
push-origin [] cluster c p j m = inl m
push-origin (x ∷ ms) zero zero p j m = elim (Mem-split j p x m) [
  | inl k ↦ inl k
  | inr e ↦ inr (e, refl)
]
push-origin (x ∷ ms) zero (suc c) p j m = inl m
push-origin (x ∷ ms) (suc cluster) zero p j m = inl m
push-origin (x ∷ ms) (suc cluster) (suc c) p j m = elim (push-origin ms cluster c p j m) [
  | inl k ↦ inl k
  | inr (e, q) ↦ inr (e, ap suc q)
]

members_from-keeps :
    (p : ℕ) (rest : List ℕ) (ms : List (List ℕ)) (c j : ℕ)
    → Memᴰ j (get_or ms c [])
    → Memᴰ j (get_or (members_from p rest ms) c [])
unfolding members_from
members_from-keeps p [] ms c j m = m
members_from-keeps p (a ∷ rest) ms c j m =
    members_from-keeps (suc p) rest (push ms a p) c j (push-keeps ms a c p j m)

members_from-adds :
    (p : ℕ) (rest : List ℕ) (ms : List (List ℕ)) (c i j : ℕ)
    → All (λ a. a < length ms) rest
    → get_elem? rest j ≡ some c
    → i ≡ p + j
    → Memᴰ i (get_or (members_from p rest ms) c [])
unfolding members_from
members_from-adds p [] ms c i j h e q = absurd (ground arith)
members_from-adds p (a ∷ rest) ms c i zero h e q =
    let here : a ≡ c = some-injective a c e in
    let num : p ≡ i = omega arith in
    members_from-keeps (suc p) rest (push ms a p) c i (
      subst (λ k. Memᴰ k (get_or (push ms a p) c [])) num
        (subst (λ k. Memᴰ p (get_or (push ms a p) k [])) here (push-adds ms a p h.0)))
members_from-adds p (a ∷ rest) ms c i (suc j) h e q =
    members_from-adds (suc p) rest (push ms a p) c i j
      (subst (λ n. All (λ x. x < n) rest) (sym (length-set ms a _)) h.1) e (omega arith)

members_from-origin :
    (p : ℕ) (rest : List ℕ) (ms : List (List ℕ)) (c i : ℕ)
    → Memᴰ i (get_or (members_from p rest ms) c [])
    → Memᴰ i (get_or ms c []) ⊎ ((j : ℕ) × (i ≡ p + j) × (get_elem? rest j ≡ some c))
unfolding members_from
members_from-origin p [] ms c i m = inl m
members_from-origin p (a ∷ rest) ms c i m =
    elim (members_from-origin (suc p) rest (push ms a p) c i m) [
      | inr (j, q, e) ↦ inr (suc j, omega (arith, q), e)
      | inl k ↦ elim (push-origin ms a c p i k) [
        | inl l ↦ inl l
        | inr (q, e) ↦ inr (zero, omega (arith, q), ap some e)
      ]
    ]

no_members : (k c j : ℕ) → Memᴰ j (get_or (replicate k []) c []) → ⊥
no_members zero c j m = elim m [ ]
no_members (suc k) zero j m = elim m [ ]
no_members (suc k) (suc c) j m = no_members k c j m

-- When every assignment is in range, a point is among the members of a cluster exactly if it is
-- assigned to that cluster.
pub members_iff_assigned :
    (clustering : Clustering) (cluster point : ℕ)
    → All (λ a. a < clustering.k) clustering.assignments
    → (get_elem? clustering.assignments point ≡ some cluster)
      ↔ Memᴰ point (get_or (members clustering) cluster [])
unfolding members
members_iff_assigned clustering cluster point h = (
  λ e.
      members_from-adds 0 clustering.assignments (replicate clustering.k []) cluster point point
        (subst (λ n. All (λ x. x < n) clustering.assignments)
          (sym (length-replicate clustering.k [])) h)
        e (omega arith),
  λ m.
      elim (members_from-origin 0 clustering.assignments (replicate clustering.k []) cluster point
        m) [
          | inl k ↦ absurd (no_members clustering.k cluster point k)
          | inr (j, q, e) ↦
              let n : j ≡ point = omega (arith, q) in
              subst (λ x. get_elem? clustering.assignments x ≡ some cluster) n e
        ],
)

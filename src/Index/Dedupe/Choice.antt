-- ===== src/Index/Dedupe/Choice.antt =====
-- The representative that a point joins: close enough, and none closer.
use semcast.Base.{
  ℕ, ◌≡◌, ◌≢◌, refl, sym, subst, ◌⊎◌, inl, inr, Option, none, some, List, [], ◌∷◌, true, false,
  keep_if, All, All-Mem, Mem-keep_if, keep_if-Mem, Ordering, Bool-cases,
}
use Prim.Native.Nat.{lt, eq, gt}
use mathlib.Core.List.{Memᴰ}
use mathlib.Core.List.Memᴰ.{head, tail}
use semcast.Base.Float.{Float}
use semcast.Index.Dedupe.{later, max_from, max_by, best}

module _ (float : Float) where
  open float use {F, ge, total_cmp, cmp_total, cmp_trans}

  abbrev NotAbove : F → ℕ × F → Type 0
  NotAbove x e = total_cmp e.1 x ≢ gt

  not_above_refl : (x : F) → total_cmp x x ≢ gt
  not_above_refl x h = cmp_total x x h h

  All-NotAbove :
      (x y : F) (es : List (ℕ × F)) → total_cmp x y ≢ gt → All (NotAbove x) es → All (NotAbove y) es
  All-NotAbove x y [] h a = tt
  All-NotAbove x y (e ∷ es) h a = (cmp_trans e.1 x y a.0 h, All-NotAbove x y es h a.1)

  later_cases :
      (a b : ℕ × F)
      → ((later float a b ≡ a) × (total_cmp b.1 a.1 ≢ gt))
        ⊎ ((later float a b ≡ b) × (total_cmp a.1 b.1 ≢ gt))
  later_cases (i, x) (j, y) = go (total_cmp x y) refl
    where
      go :
          (o : Ordering)
          → total_cmp x y ≡ o
          → ((later float (i, x) (j, y) ≡ (i, x)) × (total_cmp y x ≢ gt))
            ⊎ ((later float (i, x) (j, y) ≡ (j, y)) × (total_cmp x y ≢ gt))
      go gt e = inl (rw (e, later) refl, cmp_total x y e)
      go lt e = inr (rw (e, later) refl, λ h. cc)
      go eq e = inr (rw (e, later) refl, λ h. cc)

  skip-Mem : {m b : ℕ × F} (e : ℕ × F) {es : List (ℕ × F)} → Memᴰ m (b ∷ es) → Memᴰ m (b ∷ e ∷ es)
  skip-Mem e (head q) = head q
  skip-Mem e (tail m) = tail (tail m)

  abbrev IsTop : List (ℕ × F) → ℕ × F → Type 0
  IsTop es m = Memᴰ m es × All (NotAbove m.1) es

  -- The maximum is an entry, and no entry is above it.
  max_from-IsTop : (b : ℕ × F) (es : List (ℕ × F)) → IsTop (b ∷ es) (max_from float b es)
  unfolding max_from
  max_from-IsTop b [] = (head refl, (not_above_refl b.1, tt))
  max_from-IsTop b (e ∷ es) = elim (later_cases b e) [
    | inl (q, h) ↦
        let ih = max_from-IsTop b es in
        subst (λ x. IsTop (b ∷ e ∷ es) (max_from float x es)) (sym q)
          (skip-Mem e ih.0, (ih.1.0, (cmp_trans e.1 b.1 _ h ih.1.0, ih.1.1)))
    | inr (q, h) ↦
        let ih = max_from-IsTop e es in
        subst (λ x. IsTop (b ∷ e ∷ es) (max_from float x es)) (sym q)
          (tail ih.0, (cmp_trans b.1 e.1 _ h ih.1.0, ih.1))
  ]

  -- What is found among scored representatives: one over the threshold, with none over the
  -- threshold above it; and nothing only if none is over the threshold.
  abbrev pub Best : F → List (ℕ × F) → Option (ℕ × F) → Type 0
  Best threshold es none = (e : ℕ × F) → Memᴰ e es → ge e.1 threshold ≡ false
  Best threshold es (some m) =
      Memᴰ m es
      × (ge m.1 threshold ≡ true)
      × ((e : ℕ × F) → Memᴰ e es → ge e.1 threshold ≡ true → total_cmp e.1 m.1 ≢ gt)

  kept-Best :
      (threshold : F) (es kept : List (ℕ × F))
      → keep_if (λ e. ge e.1 threshold) es ≡ kept
      → Best threshold es (max_by float kept)
  unfolding max_by
  kept-Best threshold es [] q = λ e m. elim (Bool-cases (ge e.1 threshold)) [
    | inl h ↦ elim (subst (Memᴰ e) q (keep_if-Mem (λ x. ge x.1 threshold) es m h)) [ ]
    | inr h ↦ h
  ]
  kept-Best threshold es (k ∷ ks) q =
      let (here, top) = max_from-IsTop k ks in
      let (m, over) =
        Mem-keep_if (λ e. ge e.1 threshold) es (subst (Memᴰ (max_from float k ks)) (sym q) here) in
      (
        m,
        over,
        λ e i h.
            All-Mem (NotAbove (max_from float k ks).1) (k ∷ ks) top
              (subst (Memᴰ e) q (keep_if-Mem (λ x. ge x.1 threshold) es i h)),
      )

  pub best-Best : (threshold : F) (es : List (ℕ × F)) → Best threshold es (best float threshold es)
  unfolding best
  best-Best threshold es = kept-Best threshold es _ refl

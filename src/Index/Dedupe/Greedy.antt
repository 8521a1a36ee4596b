-- ===== src/Index/Dedupe/Greedy.antt =====
-- The loop of `greedy_groups`, one point at a time.
use mathlib.Core.List.{Memᴰ, append_assoc, append-nil}
use mathlib.Core.List.Memᴰ
use semcast.Base.{
  ℕ, zero, suc, ◌<◌, ◌≡◌, ◌≢◌, refl, sym, ap, subst, ◌∙◌, inl, inr, none, some, List, [], ◌∷◌, ◌++◌,
  map, Bool, true, false, arith, length, drop, get_or, All, drop-cons, get_elem?-get_or,
  Option-cases, All-append,
}
use Prim.Native.Nat.{gt}
use semcast.Base.Float.{Float}
use semcast.Index.Dedupe.{similarity, scored, best, group_from}
use semcast.Index.Dedupe.Choice.{Best, best-Best}

module _ (float : Float) (points : List (List float.F)) (threshold : float.F) where
  open float use {F, ge, total_cmp}

  -- How alike two of the points are.
  abbrev pub score : ℕ → ℕ → F
  score i r = similarity float (get_or points i []) (get_or points r [])

  abbrev pub is_close : ℕ → ℕ → Bool
  is_close i r = ge (score i r) threshold

  pub true_is_false : {b : Bool} → b ≡ false → b ≡ true → ⊥
  true_is_false p q = cc

  pub All-weaken : (i : ℕ) (reps : List ℕ) → All (λ r. r < i) reps → All (λ r. r < suc i) reps
  All-weaken i [] h = tt
  All-weaken i (r ∷ reps) h = (omega arith, All-weaken i reps h.1)

  -- The groups of `n` points from the `i`th on, one point at a time.
  pub data Greedy : ℕ → ℕ → List ℕ → List ℕ → Type 0 where
    done : {i : ℕ} {reps : List ℕ} → Greedy i zero reps []
    own :
        {i n : ℕ} {reps gs : List ℕ}
        → ((r : ℕ) → Memᴰ r reps → is_close i r ≡ false)
        → Greedy (suc i) n (reps ++ i ∷ []) gs
        → Greedy i (suc n) reps (i ∷ gs)
    join :
        {i n : ℕ} {reps gs : List ℕ} (r : ℕ)
        → Memᴰ r reps
        → is_close i r ≡ true
        → ((s : ℕ) → Memᴰ s reps → is_close i s ≡ true → total_cmp (score i s) (score i r) ≢ gt)
        → Greedy (suc i) n reps gs
        → Greedy i (suc n) reps (r ∷ gs)

  abbrev entry : ℕ → ℕ → ℕ × F
  entry i r = (r, score i r)

  scored_lem :
      (i : ℕ) (reps : List ℕ)
      → All (λ r. r < length points) reps
      → scored float points (get_or points i []) reps ≡ some (map (entry i) reps)
  unfolding scored
  scored_lem i [] h = refl
  scored_lem i (r ∷ reps) h =
      rw (get_elem?-get_or [] points r h.0, scored, scored_lem i reps h.1) refl

  -- What `best` says of the representatives that it was given.
  own_lem :
      (i : ℕ) (reps : List ℕ)
      → best float threshold (map (entry i) reps) ≡ none
      → (r : ℕ) → Memᴰ r reps
      → is_close i r ≡ false
  own_lem i reps b r m =
      (subst (Best float threshold (map (entry i) reps)) b
          (best-Best float threshold (map (entry i) reps)))
        (entry i r) (Memᴰ.map (entry i) m)

  unfoldable pub Joins : ℕ → List ℕ → ℕ → Type 0
  Joins i reps r =
      Memᴰ r reps
      × (is_close i r ≡ true)
      × ((s : ℕ) → Memᴰ s reps → is_close i s ≡ true → total_cmp (score i s) (score i r) ≢ gt)

  join_lem :
      (i : ℕ) (reps : List ℕ) (m : ℕ × F)
      → best float threshold (map (entry i) reps) ≡ some m
      → Joins i reps m.0
  unfolding Joins
  join_lem i reps m b =
      let (here, over, top) =
        subst (Best float threshold (map (entry i) reps)) b
          (best-Best float threshold (map (entry i) reps)) in
      let (r, mem, e) = Memᴰ.of_map (entry i) reps here in
      let is_r : r ≡ m.0 = ap (λ x. x.0) e in
      let scored_r : score i m.0 ≡ m.1 = rw (← is_r) (ap (λ x. x.1) e) in
      (
        subst (λ x. Memᴰ x reps) is_r mem,
        subst (λ v. ge v threshold ≡ true) (sym scored_r) over,
        λ s k c.
            subst (λ v. total_cmp (score i s) v ≢ gt) (sym scored_r)
              (top (entry i s) (Memᴰ.map (entry i) k) c),
      )

  pub group_from-Greedy :
      (i : ℕ) (rest : List (List F)) (groups reps : List ℕ)
      → drop i points ≡ rest
      → All (λ r. r < length points) reps
      → (gs : List ℕ) × (group_from float points threshold i rest groups reps ≡ some (groups ++ gs))
        × Greedy i (length rest) reps gs
  unfolding group_from Joins
  group_from-Greedy i [] groups reps e h = ([], rw append-nil refl, done)
  group_from-Greedy i (point ∷ rest) groups reps e h =
      let (p, q, l) = drop-cons [] i points e in
      let entries : scored float points point reps ≡ some (map (entry i) reps) =
        subst (λ x. scored float points x reps ≡ some (map (entry i) reps)) p
          (scored_lem i reps h) in
      elim (Option-cases (best float threshold (map (entry i) reps))) [
        | inl b ↦
            let (gs, run, g) =
              group_from-Greedy (suc i) rest (groups ++ i ∷ []) (reps ++ i ∷ []) q
                (All-append _ reps (i ∷ []) (l, tt) h) in
            (
              i ∷ gs,
              rw (entries, group_from, b) (run ∙ ap some (append_assoc groups (i ∷ []) gs)),
              own (own_lem i reps b) g,
            )
        | inr (m, b) ↦
            let (gs, run, g) = group_from-Greedy (suc i) rest (groups ++ m.0 ∷ []) reps q h in
            let (mem, close, top) = join_lem i reps m b in
            (
              m.0 ∷ gs,
              rw (entries, group_from, b) (run ∙ ap some (append_assoc groups (m.0 ∷ []) gs)),
              join m.0 mem close top g,
            )
      ]

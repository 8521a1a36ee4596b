-- ===== src/Index/Dedupe/Groups.antt =====
-- What `greedy_groups` promises of its result.
use mathlib.Core.List.{Memᴰ}
use mathlib.Core.List.Memᴰ
use semcast.Base.{
  ℕ, zero, suc, ◌+◌, ◌≤◌, ◌<◌, ◌≡◌, ◌≢◌, refl, sym, ap, subst, ◌∙◌, ◌⊎◌, inl, inr, some, List, [],
  ◌∷◌, ◌++◌, true, false, arith, length, get_elem?, All, All-append, All-Mem,
}
use Prim.Native.Nat.{gt}
use mathlib.Core.Path.{subst₂}
use mathlib.Core.Option.{some-injective}
use semcast.Base.Float.{Float}
use semcast.Index.Dedupe.{greedy_groups}
use semcast.Index.Dedupe.Greedy.{
  Greedy, done, own, join, score, is_close, Joins, group_from-Greedy, All-weaken, true_is_false,
}

module _ (float : Float) (points : List (List float.F)) (threshold : float.F) where
  open float use {F, ge, total_cmp}

  -- A representative, while the points from the `i`th on are grouped: an old one, or a point of
  -- its own group.
  data RepIn (i : ℕ) (reps gs : List ℕ) (r : ℕ) : Type 0 where
    old : Memᴰ r reps → RepIn i reps gs r
    new : (k : ℕ) → r ≡ i + k → get_elem? gs k ≡ some r → RepIn i reps gs r

  own-RepIn :
      (i : ℕ) (reps gs : List ℕ) (r : ℕ)
      → RepIn i reps (i ∷ gs) r
      → RepIn (suc i) (reps ++ i ∷ []) gs r
  own-RepIn i reps gs r (old m) = old (Memᴰ.append_left (i ∷ []) m)
  own-RepIn i reps gs r (new zero e q) = old (Memᴰ.append_right reps (Memᴰ.head (omega arith)))
  own-RepIn i reps gs r (new (suc k) e q) = new k (omega arith) q

  RepIn-own :
      (i : ℕ) (reps gs : List ℕ) (r : ℕ)
      → RepIn (suc i) (reps ++ i ∷ []) gs r
      → RepIn i reps (i ∷ gs) r
  RepIn-own i reps gs r (old m) = elim (Memᴰ.append_cases reps m) [
    | inl h ↦ old h
    | inr h ↦ let e = Memᴰ.eq_of_singleton h in new zero (omega arith) (ap some (sym e))
  ]
  RepIn-own i reps gs r (new k e q) = new (suc k) (omega arith) q

  join-RepIn :
      (i : ℕ) (reps gs : List ℕ) (g r : ℕ)
      → g < i
      → RepIn i reps (g ∷ gs) r
      → RepIn (suc i) reps gs r
  join-RepIn i reps gs g r l (old m) = old m
  join-RepIn i reps gs g r l (new zero e q) = absurd (ground arith)
  join-RepIn i reps gs g r l (new (suc k) e q) = new k (omega arith) q

  RepIn-join :
      (i : ℕ) (reps gs : List ℕ) (g r : ℕ) → RepIn (suc i) reps gs r → RepIn i reps (g ∷ gs) r
  RepIn-join i reps gs g r (old m) = old m
  RepIn-join i reps gs g r (new k e q) = new (suc k) (omega arith) q

  -- Point `i` is in the group of `g`, by the representatives `IsRep`.
  pub record GroupedIn (IsRep : ℕ → Type 0) (i g : ℕ) : Type 0 where
    pub before : g ≤ i
    pub is_rep : IsRep g
    pub close : (g ≡ i) ⊎ (is_close float points threshold i g ≡ true)
    pub nearest :
        (r : ℕ)
        → r < i
        → IsRep r
        → is_close float points threshold i r ≡ true
        → (g ≢ i)
          × (total_cmp (score float points threshold i r) (score float points threshold i g) ≢ gt)

  GroupedIn-map :
      (P Q : ℕ → Type 0) (i g : ℕ)
      → ((r : ℕ) → P r → Q r)
      → ((r : ℕ) → Q r → P r)
      → GroupedIn P i g
      → GroupedIn Q i g
  GroupedIn-map P Q i g to from h = record {
    before = h.before;
    is_rep = to g h.is_rep;
    close = h.close;
    nearest = λ r l q c. h.nearest r l (from r q) c;
  }

  old_of_lt : (i : ℕ) (reps gs : List ℕ) (r : ℕ) → r < i → RepIn i reps gs r → Memᴰ r reps
  old_of_lt i reps gs r l (old m) = m
  old_of_lt i reps gs r l (new k e q) = absurd (omega arith)

  own_now :
      (i : ℕ) (reps gs : List ℕ)
      → ((r : ℕ) → Memᴰ r reps → is_close float points threshold i r ≡ false)
      → GroupedIn (RepIn i reps (i ∷ gs)) i i
  own_now i reps gs far = record {
    before = omega arith;
    is_rep = new zero (omega arith) refl;
    close = inl refl;
    nearest = λ r l q c.
        absurd (true_is_false float points threshold (far r (old_of_lt i reps (i ∷ gs) r l q)) c);
  }

  join_now :
      (i : ℕ) (reps gs : List ℕ) (g : ℕ)
      → g < i
      → Joins float points threshold i reps g
      → GroupedIn (RepIn i reps (g ∷ gs)) i g
  unfolding Joins
  join_now i reps gs g l (mem, c, top) = record {
    before = omega arith;
    is_rep = old mem;
    close = inr c;
    nearest = λ r k q near. (omega arith, top r (old_of_lt i reps (g ∷ gs) r k q) near);
  }

  Greedy-GroupedIn :
      {i n : ℕ} {reps gs : List ℕ}
      → Greedy float points threshold i n reps gs
      → All (λ r. r < i) reps
      → (k g : ℕ) → get_elem? gs k ≡ some g
      → GroupedIn (RepIn i reps gs) (i + k) g
  Greedy-GroupedIn done h k g e = absurd (ground arith)
  Greedy-GroupedIn {i} {reps = reps} (own {gs = gs} far rest) h zero g e =
      let at : i ≡ i + zero = omega arith in
      let is_g : i ≡ g = ground arith in
      subst₂ (GroupedIn (RepIn i reps (i ∷ gs))) at is_g (own_now i reps gs far)
  Greedy-GroupedIn {i} {reps = reps} (own {gs = gs} far rest) h (suc k) g e =
      let at : suc i + k ≡ i + suc k = omega arith in
      let below =
        All-append (λ r. r < suc i) reps (i ∷ []) (omega arith, tt)
          (All-weaken float points threshold i reps h) in
      GroupedIn-map (RepIn (suc i) (reps ++ i ∷ []) gs) (RepIn i reps (i ∷ gs)) (i + suc k) g
        (RepIn-own i reps gs) (own-RepIn i reps gs)
        (subst (λ j. GroupedIn (RepIn (suc i) (reps ++ i ∷ []) gs) j g) at
          (Greedy-GroupedIn rest below k g e))
  Greedy-GroupedIn {i} {reps = reps} (join {gs = gs} r m c top rest) h zero g e =
      let at : i ≡ i + zero = omega arith in
      let is_g : r ≡ g = ground arith in
      subst₂ (GroupedIn (RepIn i reps (r ∷ gs))) at is_g
        (join_now i reps gs r (All-Mem (λ s. s < i) reps h m) (unfold Joins in (m, c, top)))
  Greedy-GroupedIn {i} {reps = reps} (join {gs = gs} r m c top rest) h (suc k) g e =
      let at : suc i + k ≡ i + suc k = omega arith in
      let l = All-Mem (λ s. s < i) reps h m in
      GroupedIn-map (RepIn (suc i) reps gs) (RepIn i reps (r ∷ gs)) (i + suc k) g
        (RepIn-join i reps gs r) (λ s. join-RepIn i reps gs r s l)
        (subst (λ j. GroupedIn (RepIn (suc i) reps gs) j g) at
          (Greedy-GroupedIn rest (All-weaken float points threshold i reps h) k g e))

  Greedy-length :
      {i n : ℕ} {reps gs : List ℕ} → Greedy float points threshold i n reps gs → length gs ≡ n
  Greedy-length done = refl
  Greedy-length (own far rest) = ap suc (Greedy-length rest)
  Greedy-length (join r m c top rest) = ap suc (Greedy-length rest)

  -- A survivor: a point that represents its own group.
  abbrev pub Survives : List ℕ → ℕ → Type 0
  Survives groups r = get_elem? groups r ≡ some r

  Survives-RepIn : (groups : List ℕ) (r : ℕ) → Survives groups r → RepIn 0 [] groups r
  Survives-RepIn groups r h = new r (omega arith) h

  RepIn-Survives : (groups : List ℕ) (r : ℕ) → RepIn 0 [] groups r → Survives groups r
  RepIn-Survives groups r (old m) = elim m [ ]
  RepIn-Survives groups r (new k e q) =
      let same : k ≡ r = omega arith in subst (λ j. get_elem? groups j ≡ some r) same q

  greedy_groups-GroupedIn :
      (groups : List ℕ)
      → greedy_groups float points threshold ≡ some groups
      → (i g : ℕ) → get_elem? groups i ≡ some g
      → GroupedIn (Survives groups) i g
  unfolding greedy_groups
  greedy_groups-GroupedIn groups e i g h =
      let (gs, run, greedy) = group_from-Greedy float points threshold 0 points [] [] refl tt in
      let same : gs ≡ groups = some-injective gs groups (sym run ∙ e) in
      let at : 0 + i ≡ i = omega arith in
      let found : get_elem? gs i ≡ some g = rw same h in
      subst (λ l. GroupedIn (Survives l) i g) same
        (GroupedIn-map (RepIn 0 [] gs) (Survives gs) i g (RepIn-Survives gs) (Survives-RepIn gs)
          (subst (λ j. GroupedIn (RepIn 0 [] gs) j g) at (Greedy-GroupedIn greedy tt i g found)))

  -- Grouping always returns (no index is ever out of range), with one group index for each point.
  pub greedy_groups_total :
      (groups : List ℕ) × (greedy_groups float points threshold ≡ some groups)
      × (length groups ≡ length points)
  unfolding greedy_groups
  greedy_groups_total =
      let (gs, run, greedy) = group_from-Greedy float points threshold 0 points [] [] refl tt in
      (gs, run, Greedy-length greedy)

  module _ (groups : List ℕ) (run : greedy_groups float points threshold ≡ some groups) (i g : ℕ)
      (found : get_elem? groups i ≡ some g) where
    -- The group index `g` at point `i` is at most `i` and a survivor (it represents itself), and
    -- the point is `g` itself or has a similarity of at least `threshold` to it.
    pub greedy_groups-Survives :
        (g ≤ i) × Survives groups g × ((g ≡ i) ⊎ (is_close float points threshold i g ≡ true))
    greedy_groups-Survives =
        let h = greedy_groups-GroupedIn groups run i g found in (h.before, h.is_rep, h.close)

    -- If some survivor `r` before point `i` has a similarity of at least `threshold` to it, then
    -- point `i` is grouped with an earlier point, to which it is no less similar (by `total_cmp`)
    -- than to `r`.
    pub greedy_groups_nearest :
        (r : ℕ)
        → r < i
        → Survives groups r
        → is_close float points threshold i r ≡ true
        → (g ≢ i)
          × (total_cmp (score float points threshold i r) (score float points threshold i g) ≢ gt)
    greedy_groups_nearest r = (greedy_groups-GroupedIn groups run i g found).nearest r

-- ===== src/Index/Kmeans/Assigned.antt =====
-- The assignments of src/index/kmeans.rs are in range, so that no index of it panics.
use semcast.Base.{
  Option, some, get_elem?, ◌==◌, length-map, map, ℕ, zero, suc, ◌+◌, ◌-◌, ◌≤◌, ◌<◌, ◌≡◌, refl, sym,
  ap, subst, ◌∙◌, inl, inr, List, [], ◌∷◌, ◌++◌, length, set, replicate, All, arith, Bool-cases,
  length-append, length-replicate, length-set,
}
use semcast.Index.Kmeans.{
  Floats, distance, nearest_from, nearest_centroid, accumulate, means, recentre, assign, lloyd,
  and_some, mean, add_into, closest, pick_from, Clustering, seed_more, seed, draw, kmeans, clamp,
  max_iterations,
}

one_plus : (n : ℕ) → 1 + n ≡ suc n
one_plus n = omega arith

-- The code does not panic, and its result has the property.
abbrev Gives : {A : Type 0} → (A → Type 0) → Option A → Type 0
Gives {A} P o = (a : A) × (o ≡ some a) × P a

and_some-Gives :
    {A B : Type 0} {P : A → Type 0} {Q : B → Type 0} {o : Option A} (next : A → Option B)
    → Gives P o
    → ((a : A) → P a → Gives Q (next a))
    → Gives Q (and_some o next)
and_some-Gives next (a, e, p) each =
    let (b, e', q) = each a p in (b, ap (λ x. and_some x next) e ∙ e', q)

get_elem?-Gives :
    {A : Type 0} (xs : List A) (i : ℕ) → i < length xs → Gives (λ x. Unit) (get_elem? xs i)
get_elem?-Gives [] i h = absurd (omega arith)
get_elem?-Gives (x ∷ xs) zero h = (x, refl, tt)
get_elem?-Gives (x ∷ xs) (suc i) h = get_elem?-Gives xs i (omega arith)

-- Each of the clusters is one of the first.
Below : ℕ → List ℕ → Type 0
Below k assignments = All (λ c. c < k) assignments

module _ (f : Floats) where
  nearest_from-lt :
      (point : List f.F) (i : ℕ) (centroids : List (List f.F)) (best : ℕ) (d : f.F)
      → best < i + length centroids
      → nearest_from f point i centroids best d < i + length centroids
  unfolding nearest_from
  nearest_from-lt point i [] best d h = h
  nearest_from-lt point i (c ∷ cs) best d h = elim (Bool-cases (f.is_lt (distance f point c) d)) [
    | inl e ↦
        let r = nearest_from-lt point (suc i) cs i (distance f point c) (omega arith) in
        rw (e, nearest_from) (omega (arith, r))
    | inr e ↦
        let r = nearest_from-lt point (suc i) cs best d (omega arith) in
        rw (e, nearest_from) (omega (arith, r))
  ]

  assign_lem :
      (centroids : List (List f.F)) (points : List (List f.F)) (assignments : List ℕ)
      → 0 < length centroids
      → length assignments ≡ length points
      → (length (assign f centroids points assignments).0 ≡ length points)
        × Below (length centroids) (assign f centroids points assignments).0
  unfolding assign nearest_centroid Below
  assign_lem centroids [] [] h e = (refl, tt)
  assign_lem centroids [] (a ∷ rest) h e = absurd (omega arith)
  assign_lem centroids (p ∷ points) [] h e = absurd (omega arith)
  assign_lem centroids (p ∷ points) (a ∷ rest) h e =
      let (l, r) = assign_lem centroids points rest h (omega arith) in
      let z = nearest_from-lt p 0 centroids 0 f.infinity (omega arith) in
      (ap suc l, (omega (arith, z), r))

  accumulate-Gives :
      (k : ℕ) (points : List (List f.F)) (assignments : List ℕ) (sums : List (List f.F))
      (counts : List ℕ)
      → Below k assignments
      → length sums ≡ k
      → length counts ≡ k
      → Gives
          (λ r. (length r.0 ≡ k) × (length r.1 ≡ k))
          (accumulate f points assignments sums counts)
  unfolding accumulate Below
  accumulate-Gives k [] rest sums counts below s c = ((sums, counts), refl, (s, c))
  accumulate-Gives k (p ∷ points) [] sums counts below s c = ((sums, counts), refl, (s, c))
  accumulate-Gives k (p ∷ points) (a ∷ rest) sums counts below s c =
      let below_here = below.0 in
      and_some-Gives _ (get_elem?-Gives sums a (omega arith)) (λ sum _.
        and_some-Gives _ (get_elem?-Gives counts a (omega arith)) (λ count _.
          accumulate-Gives k points rest (set sums a (add_into f sum p)) (set counts a (count + 1))
            below.1 (length-set sums a (add_into f sum p) ∙ s)
            (length-set counts a (count + 1) ∙ c)))

  mean-Gives :
      (cluster : ℕ) (previous : List (List f.F)) (sum : List f.F) (count : ℕ)
      → cluster < length previous
      → Gives (λ m. Unit) (mean f cluster previous sum count)
  mean-Gives cluster previous sum count h = elim (Bool-cases (count == 0)) [
    | inl e ↦ rw e (get_elem?-Gives previous cluster h)
    | inr e ↦ rw e (_, refl, tt)
  ]

  means-Gives :
      (cluster : ℕ) (previous sums : List (List f.F)) (counts : List ℕ)
      → cluster + length sums ≤ length previous
      → length counts ≡ length sums
      → Gives (λ r. length r ≡ length sums) (means f cluster previous sums counts)
  unfolding means
  means-Gives cluster previous [] counts h e = ([], refl, refl)
  means-Gives cluster previous (s ∷ sums) [] h e = absurd (omega arith)
  means-Gives cluster previous (s ∷ sums) (c ∷ counts) h e =
      and_some-Gives _ (mean-Gives cluster previous s c (omega arith)) (λ m _.
        and_some-Gives _
          (means-Gives (suc cluster) previous sums counts (omega arith) (omega arith))
          (λ rest l. (m ∷ rest, refl, ap suc l)))

  recentre-Gives :
      (points : List (List f.F)) (assignments : List ℕ) (k : ℕ) (previous : List (List f.F))
      → 0 < length points
      → Below k assignments
      → length previous ≡ k
      → Gives (λ r. length r ≡ k) (recentre f points assignments k previous)
  unfolding recentre
  recentre-Gives points assignments k previous some_points below p =
      and_some-Gives _ (get_elem?-Gives points 0 some_points) (λ first _.
        let row = replicate (length first) f.zero32 in
        and_some-Gives _
          (accumulate-Gives k points assignments (replicate k row) (replicate k 0) below
            (length-replicate k row) (length-replicate k 0))
          (λ totals l.
            let (sums, same, n) =
              means-Gives 0 previous totals.0 totals.1 (omega (arith, l.0, p)) (l.1 ∙ sym l.0) in
            (sums, same, n ∙ l.0)))

  abbrev Assigned : List (List f.F) → ℕ → List ℕ → Type 0
  Assigned points k assignments = (length assignments ≡ length points) × Below k assignments

  lloyd-Gives :
      (n : ℕ) (points : List (List f.F)) (k : ℕ) (centroids : List (List f.F))
      (assignments : List ℕ)
      → 0 < length points
      → 0 < k
      → length centroids ≡ k
      → Assigned points k assignments
      → Gives (Assigned points k) (lloyd f n points k centroids assignments)
  unfolding lloyd
  lloyd-Gives zero points k centroids assignments s h c a = (assignments, refl, a)
  lloyd-Gives (suc n) points k centroids assignments s h c a =
      let next = (assign f centroids points assignments).0 in
      let (l1, a1) = assign_lem centroids points assignments (omega arith) a.0 in
      let a2 : Below k next = subst (λ m. Below m next) c a1 in
      elim (Bool-cases (assign f centroids points assignments).1) [
        | inl e ↦
            rw (e, lloyd)
              (and_some-Gives (λ moved_to. lloyd f n points k moved_to next)
                (recentre-Gives points next k centroids s a2 c)
                (λ moved_to l. lloyd-Gives n points k moved_to next s h l (l1, a2)))
        | inr e ↦ rw (e, lloyd) (next, refl, (l1, a2))
      ]

  pick_from-lt :
      (n i : ℕ) (target : f.R) (weights : List f.R) (last : ℕ)
      → last < n
      → i + length weights ≤ n
      → pick_from f i target weights last < n
  unfolding pick_from
  pick_from-lt n i target [] last l h = l
  pick_from-lt n i target (w ∷ weights) last l h =
      elim (Bool-cases (f.is_le64 (f.sub64 target w) f.zero64)) [
        | inl e ↦ rw (e, pick_from) (omega arith)
        | inr e ↦
            rw (e, pick_from)
              (pick_from-lt n (suc i) (f.sub64 target w) weights last l (omega arith))
      ]

  draw-lt :
      (state : ℕ) (points centroids : List (List f.F))
      → 0 < length points
      → (draw f state points centroids).0 < length points
  unfolding draw
  draw-lt state points centroids s =
      let weights = map (λ p. closest f p f.infinity64 centroids) points in
      let l : length weights ≡ length points = length-map _ points in
      elim (Bool-cases (f.is_le64 (f.sum64 weights) f.zero64)) [
        | inl e ↦ rw (e, draw) (omega arith)
        | inr e ↦
            rw (e, draw)
              (pick_from-lt (length points) 0 _ weights (length points - 1) (omega arith)
                (omega arith))
      ]

  seed_more-Gives :
      (missing state : ℕ) (points centroids : List (List f.F))
      → 0 < length points
      → Gives
          (λ r. length r ≡ length centroids + missing)
          (seed_more f missing state points centroids)
  unfolding seed_more
  seed_more-Gives zero state points centroids s = (centroids, refl, omega arith)
  seed_more-Gives (suc m) state points centroids s =
      let (chosen, next) = draw f state points centroids in
      and_some-Gives _ (get_elem?-Gives points chosen (draw-lt state points centroids s)) (λ c _.
        let (r, e, l) = seed_more-Gives m next points (centroids ++ c ∷ []) s in
        (r, e, omega (arith, l, length-append centroids (c ∷ []))))

  seed-Gives :
      (points : List (List f.F)) (k : ℕ)
      → 0 < length points
      → Gives (λ r. length r ≡ suc (k - 1)) (seed f points k)
  unfolding seed
  seed-Gives points k s = and_some-Gives _ (get_elem?-Gives points _ (omega arith)) (λ c _.
      let (r, e, l) = seed_more-Gives (k - 1) _ points (c ∷ []) s in (r, e, l ∙ one_plus (k - 1)))

  replicate-Below : (n k : ℕ) → 0 < k → Below k (replicate n 0)
  unfolding Below
  replicate-Below zero k h = tt
  replicate-Below (suc n) k h = (h, replicate-Below n k h)

  -- For any points but none and any number of clusters asked for, no index is out of range, every
  -- point is assigned to a cluster, each assignment is one of the clusters, and there are at least one
  -- cluster and at most as many as points.
  pub kmeans_in_range :
      (points : List (List f.F)) (k : ℕ)
      → 0 < length points
      → (c : Clustering) × (kmeans f points k ≡ some c)
        × (length c.assignments ≡ length points)
        × All (λ a. a < c.k) c.assignments
        × (0 < c.k)
        × (c.k ≤ length points)
  unfolding kmeans Below
  kmeans_in_range [] k h = absurd (omega arith)
  kmeans_in_range (p ∷ points) k h =
      let all = p ∷ points in
      let clusters = clamp k 1 (length all) in
      let pos : 0 < clusters = omega arith in
      let (centroids, seeded, l) = seed-Gives all clusters h in
      let (a, ran, assigned) =
        lloyd-Gives max_iterations all clusters centroids (replicate (length all) 0) h pos
          (omega (arith, l))
          (length-replicate (length all) 0, replicate-Below (length all) clusters pos) in
      (
        record { assignments = a; k = clusters },
        ap
              (λ o. and_some o (λ x.
                and_some (lloyd f max_iterations all clusters x (replicate (length all) 0))
                  (λ y. some (record { assignments = y; k = clusters }))))
              seeded
            ∙ ap (λ o. and_some o (λ y. some (record { assignments = y; k = clusters }))) ran,
        assigned.0,
        assigned.1,
        pos,
        omega arith,
      )

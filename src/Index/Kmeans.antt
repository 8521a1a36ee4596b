-- ===== src/Index/Kmeans.antt =====
-- src/index/kmeans.rs: clustering by k-means, seeded by a fixed pseudo-random stream. `none` is a
-- panic: an index out of range, or a clamp to an empty range. Only `members` reads a default for a
-- cluster out of range.
pub mod Assigned
pub mod Members
use semcast.Base.{
  Option, none, some, get_elem?, is_empty, ℕ, zero, suc, ◌+◌, ◌-◌, ◌*◌, ◌/◌, ◌%◌, ◌^◌, min, max,
  Bool, true, false, not, ◌||◌, List, [], ◌∷◌, ◌++◌, map, length, get_or, set, replicate,
  if◌then◌else◌, ◌==◌,
}

-- The operations on f32, `F`, and f64, `R`, that the code uses.
pub record Floats : Type 1 where
  pub F : Type 0
  pub R : Type 0
  pub zero32 : F
  pub infinity : F
  pub add : F → F → F
  pub sub : F → F → F
  pub mul : F → F → F
  pub div : F → F → F
  pub sum : List F → F
  pub is_lt : F → F → Bool
  pub of_usize : ℕ → F
  pub to_f64 : F → R
  pub zero64 : R
  pub infinity64 : R
  pub min64 : R → R → R
  pub sum64 : List R → R
  pub sub64 : R → R → R
  pub mul64 : R → R → R
  pub is_le64 : R → R → Bool
  -- A whole number below 2 ^ 31 over 2 ^ 31.
  pub unit_of : ℕ → R

pub record Clustering : Type 0 where
  pub assignments : List ℕ
  pub k : ℕ

unfoldable pub members_from : ℕ → List ℕ → List (List ℕ) → List (List ℕ)
members_from point [] members = members
members_from point (cluster ∷ rest) members =
    members_from (suc point) rest (set members cluster (get_or members cluster [] ++ point ∷ []))

-- `Clustering::members`.
unfoldable pub members : Clustering → List (List ℕ)
unfolding members_from
members c = members_from 0 c.assignments (replicate c.k [])

-- The generator: the value drawn, and the next state.
abbrev pub lcg_new : ℕ → ℕ
lcg_new seed = seed + (1 - seed % 2)

unfoldable pub lcg_next : ℕ → ℕ × ℕ
lcg_next state =
    let next = (state * 6364136223846793005 + 1442695040888963407) % 2 ^ 64 in (next / 2 ^ 33, next)

abbrev pub clamp : ℕ → ℕ → ℕ → ℕ
clamp n low high = min (max n low) high

abbrev pub max_iterations : ℕ
max_iterations = 50

-- The next step, unless the code has panicked.
abbrev pub and_some {ℓ κ} : {A : Type ℓ} {B : Type κ} → Option A → (A → Option B) → Option B
and_some none next = none
and_some (some a) next = next a

module _ (f : Floats) where
  unfoldable pub distance : List f.F → List f.F → f.F
  distance a b = f.sum (squares a b)
    where
      squares : List f.F → List f.F → List f.F
      squares [] ys = []
      squares (x ∷ xs) [] = []
      squares (x ∷ xs) (y ∷ ys) = f.mul (f.sub x y) (f.sub x y) ∷ squares xs ys

  -- The loop, with the best index and distance so far.
  unfoldable pub nearest_from : List f.F → ℕ → List (List f.F) → ℕ → f.F → ℕ
  unfolding distance
  nearest_from point i [] best best_distance = best
  nearest_from point i (c ∷ centroids) best best_distance =
      let nearer = nearest_from point (suc i) centroids i (distance point c) in
      let rest = nearest_from point (suc i) centroids best best_distance in
      if f.is_lt (distance point c) best_distance then nearer else rest

  unfoldable pub nearest_centroid : List f.F → List (List f.F) → ℕ
  unfolding nearest_from
  nearest_centroid point centroids = nearest_from point 0 centroids 0 f.infinity

  -- `slot += value`, as far as both reach.
  abbrev pub add_into : List f.F → List f.F → List f.F
  add_into [] values = []
  add_into (s ∷ slots) [] = s ∷ slots
  add_into (s ∷ slots) (x ∷ values) = f.add s x ∷ add_into slots values

  -- The sums and the counts per cluster.
  unfoldable pub accumulate :
      List (List f.F) → List ℕ → List (List f.F) → List ℕ → Option (List (List f.F) × List ℕ)
  accumulate [] assignments sums counts = some (sums, counts)
  accumulate (p ∷ points) [] sums counts = some (sums, counts)
  accumulate (p ∷ points) (cluster ∷ assignments) sums counts =
      and_some (get_elem? sums cluster) (λ sum. and_some (get_elem? counts cluster) (λ count.
        accumulate points assignments (set sums cluster (add_into sum p))
          (set counts cluster (count + 1))))

  -- The mean of a cluster, an empty one's centroid kept from before.
  abbrev pub mean : ℕ → List (List f.F) → List f.F → ℕ → Option (List f.F)
  mean cluster previous sum count =
      if count == 0
      then get_elem? previous cluster
      else some (map (λ x. f.div x (f.of_usize count)) sum)

  unfoldable pub means : ℕ → List (List f.F) → List (List f.F) → List ℕ → Option (List (List f.F))
  means cluster previous [] counts = some []
  means cluster previous (sum ∷ sums) [] = some []
  means cluster previous (sum ∷ sums) (count ∷ counts) =
      and_some (mean cluster previous sum count)
        (λ m. and_some (means (suc cluster) previous sums counts) (λ rest. some (m ∷ rest)))

  unfoldable pub recentre :
      List (List f.F) → List ℕ → ℕ → List (List f.F) → Option (List (List f.F))
  unfolding accumulate means
  recentre points assignments k previous = and_some (get_elem? points 0) (λ first.
      and_some
        (accumulate points assignments (replicate k (replicate (length first) f.zero32))
          (replicate k 0))
        (λ totals. means 0 previous totals.0 totals.1))

  -- One pass of assignments, and whether a point moved.
  unfoldable pub assign : List (List f.F) → List (List f.F) → List ℕ → List ℕ × Bool
  unfolding nearest_centroid
  assign centroids [] assignments = (assignments, false)
  assign centroids (p ∷ points) [] = ([], false)
  assign centroids (p ∷ points) (a ∷ assignments) =
      let nearest = nearest_centroid p centroids in
      let (rest, moved) = assign centroids points assignments in
      (nearest ∷ rest, not (a == nearest) || moved)

  -- The iterations that are left.
  unfoldable pub lloyd : ℕ → List (List f.F) → ℕ → List (List f.F) → List ℕ → Option (List ℕ)
  unfolding assign recentre
  lloyd zero points k centroids assignments = some assignments
  lloyd (suc n) points k centroids assignments =
      let (next, moved) = assign centroids points assignments in
      let rest =
        and_some (recentre points next k centroids) (λ moved_to. lloyd n points k moved_to next) in
      if moved then rest else some next

  -- The smallest distance to a chosen centroid.
  unfoldable pub closest : List f.F → f.R → List (List f.F) → f.R
  unfolding distance
  closest point least [] = least
  closest point least (c ∷ centroids) =
      closest point (f.min64 least (f.to_f64 (distance point c))) centroids

  -- The first index at which the weights use up the target.
  unfoldable pub pick_from : ℕ → f.R → List f.R → ℕ → ℕ
  pick_from i target [] last = last
  pick_from i target (w ∷ weights) last =
      let left = f.sub64 target w in
      let rest = pick_from (suc i) left weights last in if f.is_le64 left f.zero64 then i else rest

  -- The index of a further centroid, and the generator's next state.
  unfoldable pub draw : ℕ → List (List f.F) → List (List f.F) → ℕ × ℕ
  unfolding closest pick_from lcg_next
  draw state points centroids =
      let weights = map (λ p. closest p f.infinity64 centroids) points in
      let total = f.sum64 weights in
      let (value, next) = lcg_next state in
      if f.is_le64 total f.zero64
      then (value % length points, next)
      else (pick_from 0 (f.mul64 (f.unit_of value) total) weights (length points - 1), next)

  -- The `while`: a turn pushes one centroid, so it runs as often as centroids are missing.
  unfoldable pub seed_more : ℕ → ℕ → List (List f.F) → List (List f.F) → Option (List (List f.F))
  unfolding draw
  seed_more zero state points centroids = some centroids
  seed_more (suc missing) state points centroids =
      let (chosen, next) = draw state points centroids in
      and_some (get_elem? points chosen)
        (λ centroid. seed_more missing next points (centroids ++ centroid ∷ []))

  unfoldable pub seed : List (List f.F) → ℕ → Option (List (List f.F))
  unfolding seed_more lcg_next
  seed points k =
      let (value, next) = lcg_next (lcg_new 0x5E1EC7ED) in
      and_some (get_elem? points (value % length points))
        (λ centroid. seed_more (k - 1) next points (centroid ∷ []))

  unfoldable pub kmeans : List (List f.F) → ℕ → Option Clustering
  unfolding seed lloyd
  kmeans points k =
      let clusters = clamp k 1 (length points) in
      let zeros = replicate (length points) 0 in
      if is_empty points
      then none
      else and_some (seed points clusters) (λ centroids.
        and_some (lloyd max_iterations points clusters centroids zeros)
          (λ assignments. some (record { assignments = assignments; k = clusters })))

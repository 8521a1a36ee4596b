-- ===== src/Index/Dedupe.antt =====
-- src/index/dedupe.rs: greedy near-duplicate grouping. `none` is the panic of an index out of range.
pub mod Choice
pub mod Greedy
pub mod Groups
use semcast.Base.{
  ℕ, zero, suc, ◌+◌, Option, none, some, List, [], ◌∷◌, ◌++◌, map, Bool, true, false, keep_if,
  get_elem?, Ordering, if◌then◌else◌,
}
use Prim.Native.Nat.{lt, eq, gt}
use semcast.Base.Float.{Float}

module _ (float : Float) where
  open float use {F, mul, div, sqrt, sum, ge, is_gt, total_cmp, zero as zero_f}

  -- `a.iter().zip(b).map(|(a, b)| a * b)`.
  abbrev pub products : List F → List F → List F
  products [] b = []
  products (x ∷ a) [] = []
  products (x ∷ a) (y ∷ b) = mul x y ∷ products a b

  unfoldable pub similarity : List F → List F → F
  similarity a b =
      let dot = sum (products a b) in
      let norm = mul (sqrt (sum (products a a))) (sqrt (sum (products b b))) in
      if is_gt norm zero_f then div dot norm else zero_f

  -- Each representative with its score.
  unfoldable pub scored : List (List F) → List F → List ℕ → Option (List (ℕ × F))
  scored points point [] = some []
  scored points point (rep ∷ reps) = elim (get_elem? points rep) [
    | none ↦ none
    | some p ↦ elim (scored points point reps) [
      | none ↦ none
      | some rest ↦ some ((rep, similarity point p) ∷ rest)
    ]
  ]

  -- `max_by`: of equal entries the last one counts.
  abbrev pub later : ℕ × F → ℕ × F → ℕ × F
  later (i, x) (j, y) = elim (total_cmp x y) [ gt ↦ (i, x) | _ ↦ (j, y) ]

  unfoldable pub max_from : ℕ × F → List (ℕ × F) → ℕ × F
  max_from best [] = best
  max_from best (e ∷ es) = max_from (later best e) es

  unfoldable pub max_by : List (ℕ × F) → Option (ℕ × F)
  unfolding max_from
  max_by [] = none
  max_by (e ∷ es) = some (max_from e es)

  -- The representative that the point joins, if one is close enough.
  unfoldable pub best : F → List (ℕ × F) → Option (ℕ × F)
  unfolding max_by
  best threshold entries = max_by (keep_if (λ e. ge e.1 threshold) entries)

  -- The loop over the points from the `i`th on.
  unfoldable pub group_from :
      List (List F) → F → ℕ → List (List F) → List ℕ → List ℕ → Option (List ℕ)
  unfolding best scored similarity
  group_from points threshold i [] groups reps = some groups
  group_from points threshold i (point ∷ rest) groups reps = elim (scored points point reps) [
    | none ↦ none
    | some entries ↦ elim (best threshold entries) [
      | some (rep, _) ↦ group_from points threshold (suc i) rest (groups ++ rep ∷ []) reps
      | none ↦ group_from points threshold (suc i) rest (groups ++ i ∷ []) (reps ++ i ∷ [])
    ]
  ]

  unfoldable pub greedy_groups : List (List F) → F → Option (List ℕ)
  unfolding group_from
  greedy_groups points threshold = group_from points threshold 0 points [] []

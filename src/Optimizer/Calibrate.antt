-- ===== src/Optimizer/Calibrate.antt =====
-- src/optimizer/calibrate.rs: the score floor that keeps the target share of a sample's matches.
-- Scores are `float.F`, f32; recalls and confidences are `real.R`, f64.
pub mod Counts
pub mod Targets
pub mod Certified
use semcast.Base.{
  ℕ, zero, suc, ◌+◌, ◌-◌, ◌≡◌, Bool, true, false, ◌&&◌, ◌||◌, not, Option, none, some, List, [],
  ◌∷◌, ◌++◌, length, get_or, count_if, keep_if, is_empty, if◌then◌else◌, ltb, ◌==◌, Ordering,
}
use Prim.Native.Nat.{lt, eq, gt}
use semcast.Base.Float.{Float}

-- What the code uses of f64, and of f32 beyond `Float`. The quantile of the normal distribution,
-- a table of published coefficients, is `normal_quantile`.
pub record Reals (F : Type 0) : Type 1 where
  pub R : Type 0
  pub of_usize : ℕ → R
  pub add : R → R → R
  pub sub : R → R → R
  pub mul : R → R → R
  pub div : R → R → R
  pub sqrt : R → R
  pub clamp01 : R → R
  pub ge : R → R → Bool
  -- `ceil() as usize`.
  pub ceil_usize : R → ℕ
  pub normal_quantile : R → R
  pub neg_infinity : F
  pub feq : F → F → Bool

pub record SampledScores (F : Type 0) : Type 0 where
  pub positive_scores : List F
  pub positive_unindexed : ℕ
  pub positive_lost : ℕ
  pub unverified_scores : List F
  pub sampled : ℕ

pub record Calibration (F : Type 0) (R : Type 0) : Type 0 where
  pub threshold : F
  pub sampled_rows : ℕ
  pub estimated_recall : R
  pub certified_recall : Option R

abbrev pub unwrap_or {ℓ} : {A : Type ℓ} → Option A → A → A
unwrap_or none d = d
unwrap_or (some a) d = a

abbrev pub find_first {ℓ} : {A : Type ℓ} → (A → Bool) → List A → Option A
find_first p [] = none
find_first p (x ∷ xs) = if p x then some x else find_first p xs

abbrev pub map_option {ℓ κ} : {A : Type ℓ} {B : Type κ} → (A → B) → Option A → Option B
map_option f none = none
map_option f (some a) = some (f a)

module _ (float : Float) where
  -- `sort_by(|a, b| b.total_cmp(a))`, which is stable.
  unfoldable pub insert_desc : float.F → List float.F → List float.F
  insert_desc x [] = x ∷ []
  insert_desc x (y ∷ ys) = elim (float.total_cmp y x) [ gt ↦ y ∷ insert_desc x ys | _ ↦ x ∷ y ∷ ys ]

  unfoldable pub sort_desc : List float.F → List float.F
  unfolding insert_desc
  sort_desc [] = []
  sort_desc (x ∷ xs) = insert_desc x (sort_desc xs)

module _ (float : Float) (real : Reals float.F) where
  -- `dedup`: of equal neighbours the first stays.
  unfoldable pub dedup_after : float.F → List float.F → List float.F
  dedup_after x [] = []
  dedup_after x (y ∷ ys) =
      let merged = dedup_after x ys in
      let kept = dedup_after y ys in if real.feq y x then merged else y ∷ kept

  unfoldable pub dedup : List float.F → List float.F
  unfolding dedup_after
  dedup [] = []
  dedup (x ∷ xs) = x ∷ dedup_after x xs

  -- Positives kept, and positives in all, assuming the worst for failed labels.
  unfoldable pub recall_at : float.F → List float.F → SampledScores float.F → ℕ × ℕ
  recall_at floor positive scores = (
    count_if (λ score. float.ge score floor) positive + scores.positive_unindexed,
    length positive
        + scores.positive_unindexed
        + scores.positive_lost
        + count_if (λ score. float.is_gt floor score) scores.unverified_scores,
  )

  unfoldable pub meets_target : ℕ → ℕ → real.R → Bool
  meets_target kept total target_recall =
      total == 0 || real.ge (real.div (real.of_usize kept) (real.of_usize total)) target_recall

  unfoldable pub candidate_floors : List float.F → SampledScores float.F → List float.F
  unfolding dedup sort_desc
  candidate_floors positive scores = dedup (sort_desc float (positive ++ scores.unverified_scores))

  unfoldable pub point_estimate_floor :
      real.R → float.F → List float.F → SampledScores float.F → ℕ → float.F
  point_estimate_floor target_recall default_floor positive scores total =
      let needed =
        real.ceil_usize (real.mul target_recall (real.of_usize total))
        - scores.positive_unindexed in
      if needed == 0
      then default_floor
      else if ltb (length positive) needed
      then real.neg_infinity
      else get_or positive (needed - 1) real.neg_infinity

  unfoldable pub wilson_lower_bound : ℕ → ℕ → real.R → real.R
  wilson_lower_bound successes trials alpha =
      let n = real.of_usize trials in
      let p = real.div (real.of_usize successes) n in
      let one = real.of_usize 1 in
      let z = real.normal_quantile (real.sub one alpha) in
      let z2 = real.mul z z in
      let center = real.add p (real.div z2 (real.mul (real.of_usize 2) n)) in
      let margin = real.mul z (
        real.sqrt (
          real.add (real.div (real.mul p (real.sub one p)) n)
            (real.div z2 (real.mul (real.mul (real.of_usize 4) n) n)))) in
      if trials == 0
      then real.of_usize 0
      else real.clamp01 (real.div (real.sub center margin) (real.add one (real.div z2 n)))

  abbrev pub at_most_top : List float.F → float.F → Bool
  at_most_top [] candidate = false
  at_most_top (top ∷ positive) candidate = float.ge top candidate

  unfoldable pub certified_floor :
      real.R → real.R → List float.F → SampledScores float.F → Option float.F
  unfolding candidate_floors recall_at wilson_lower_bound
  certified_floor target_recall confidence positive scores =
      let candidates = keep_if (at_most_top positive) (candidate_floors positive scores) in
      let alpha =
        real.div (real.sub (real.of_usize 1) confidence) (real.of_usize (length candidates)) in
      if is_empty candidates
      then none
      else find_first
          (λ floor.
            let (kept, total) = recall_at floor positive scores in
            real.ge (wilson_lower_bound kept total alpha) target_recall)
          candidates

  abbrev pub meets_at : real.R → List float.F → SampledScores float.F → float.F → Bool
  meets_at target_recall positive scores floor =
      meets_target (recall_at floor positive scores).0 (recall_at floor positive scores).1
        target_recall

  -- The closure `estimated_floor`.
  unfoldable pub estimated_floor :
      real.R → float.F → List float.F → SampledScores float.F → ℕ → float.F
  unfolding point_estimate_floor candidate_floors recall_at meets_target
  estimated_floor target_recall default_floor positive scores known =
      let floor = point_estimate_floor target_recall default_floor positive scores known in
      if meets_at target_recall positive scores floor
      then floor
      else unwrap_or
          (find_first (meets_at target_recall positive scores)
            (keep_if (λ candidate. float.is_gt floor candidate) (candidate_floors positive scores)))
          real.neg_infinity

  abbrev pub known_positives : List float.F → SampledScores float.F → ℕ
  known_positives positive scores =
      length positive + scores.positive_unindexed + scores.positive_lost

  -- The `match confidence`.
  unfoldable pub pick_threshold :
      real.R → Option real.R → float.F → List float.F → SampledScores float.F → float.F
  unfolding estimated_floor certified_floor
  pick_threshold target_recall none default_floor positive scores =
      estimated_floor target_recall default_floor positive scores (known_positives positive scores)
  pick_threshold target_recall (some confidence) default_floor positive scores =
      if known_positives positive scores == 0
      then estimated_floor target_recall default_floor positive scores
          (known_positives positive scores)
      else unwrap_or (certified_floor target_recall confidence positive scores) real.neg_infinity

  -- The result at a threshold.
  unfoldable pub report :
      Option real.R → float.F → List float.F → SampledScores float.F → Calibration float.F real.R
  unfolding recall_at wilson_lower_bound
  report confidence threshold positive scores =
      let (kept, total) = recall_at threshold positive scores in
      if total == 0
      then record {
        threshold = threshold;
        sampled_rows = scores.sampled;
        estimated_recall = real.of_usize 1;
        certified_recall = map_option (λ c. real.of_usize 1) confidence;
      }
      else record {
        threshold = threshold;
        sampled_rows = scores.sampled;
        estimated_recall = real.div (real.of_usize kept) (real.of_usize total);
        certified_recall =
            map_option (λ c. wilson_lower_bound kept total (real.sub (real.of_usize 1) c))
              confidence;
      }

  unfoldable pub calibrate_threshold :
      real.R → Option real.R → float.F → SampledScores float.F → Calibration float.F real.R
  unfolding sort_desc pick_threshold report
  calibrate_threshold target_recall confidence default_floor scores =
      let positive = sort_desc float scores.positive_scores in
      if known_positives positive scores == 0 && is_empty scores.unverified_scores
      then record {
        threshold = default_floor;
        sampled_rows = scores.sampled;
        estimated_recall = real.of_usize 1;
        certified_recall = map_option (λ c. real.of_usize 1) confidence;
      }
      else report confidence (pick_threshold target_recall confidence default_floor positive scores)
          positive scores

  -- `Calibration::meets`.
  unfoldable pub meets : Calibration float.F real.R → real.R → Bool
  meets calibration target_recall =
      real.ge (unwrap_or calibration.certified_recall calibration.estimated_recall) target_recall

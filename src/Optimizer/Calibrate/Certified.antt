-- ===== src/Optimizer/Calibrate/Certified.antt =====
-- The certified floor of src/optimizer/calibrate.rs, `WITH CONFIDENCE`.
use semcast.Base.{
  ◌≡◌, refl, sym, ap, subst, ◌∙◌, Bool, true, false, none, some, List, [], ◌∷◌, length, keep_if,
  is_empty, if◌then◌else◌, ◌⊎◌, inl, ◌==◌,
}
use semcast.Base.Float.{Float}
use semcast.Optimizer.Calibrate.{
  Reals, SampledScores, Calibration, unwrap_or, find_first, sort_desc, recall_at, candidate_floors,
  wilson_lower_bound, at_most_top, certified_floor, known_positives, pick_threshold,
  calibrate_threshold,
}
use semcast.Optimizer.Calibrate.Targets.{find_first-holds, report_lem, calibrate_seen, unseen}

nonempty-holds {ℓ} :
    {A : Type ℓ} (p : A → Bool) (d : A) (xs : List A)
    → (unwrap_or (if is_empty xs then none else find_first p xs) d ≡ d)
      ⊎ (p (unwrap_or (if is_empty xs then none else find_first p xs) d) ≡ true)
nonempty-holds p d [] = inl refl
nonempty-holds p d (x ∷ xs) = find_first-holds p (x ∷ xs) d

module _ (float : Float) (real : Reals float.F) where
  -- A floor certifies when the Wilson bound clears the target at the confidence's risk, divided by
  -- the number of candidate floors.
  unfoldable pub certifies : real.R → real.R → List float.F → SampledScores float.F → float.F → Bool
  certifies target confidence positive scores floor =
      real.ge
        (wilson_lower_bound float real (recall_at float real floor positive scores).0
          (recall_at float real floor positive scores).1
          (real.div (real.sub (real.of_usize 1) confidence) (
            real.of_usize (
              length (
                keep_if (at_most_top float real positive)
                  (candidate_floors float real positive scores))))))
        target

  certified_floor-certifies :
      (target confidence : real.R) (positive : List float.F) (scores : SampledScores float.F)
      → (unwrap_or (certified_floor float real target confidence positive scores) real.neg_infinity
          ≡ real.neg_infinity)
        ⊎ (certifies target confidence positive scores (
              unwrap_or
                (certified_floor float real target confidence positive scores)
                real.neg_infinity)
            ≡ true)
  unfolding certified_floor certifies
  certified_floor-certifies target confidence positive scores =
      nonempty-holds (certifies target confidence positive scores) real.neg_infinity
        (keep_if (at_most_top float real positive) (candidate_floors float real positive scores))

  -- With a confidence asked for and a known positive in the sample, the floor that is picked has a
  -- Wilson bound that clears the target at the corrected risk, or it is minus infinity.
  pub calibrate_threshold-certifies :
      (target confidence : real.R) (default_floor : float.F) (scores : SampledScores float.F)
      → (known_positives float real (sort_desc float scores.positive_scores) scores == 0) ≡ false
      → ((calibrate_threshold float real target (some confidence) default_floor scores).threshold
          ≡ real.neg_infinity)
        ⊎ (certifies target confidence
              (sort_desc float scores.positive_scores)
              scores
              (calibrate_threshold float real target
                (some confidence)
                default_floor
                scores).threshold
            ≡ true)
  unfolding pick_threshold
  calibrate_threshold-certifies target confidence default_floor scores k =
      let positive = sort_desc float scores.positive_scores in
      let t = pick_threshold float real target (some confidence) default_floor positive scores in
      let e : unseen float real scores ≡ false = rw k refl in
      let p : t
          ≡ unwrap_or (certified_floor float real target confidence positive scores)
              real.neg_infinity =
        rw (k, pick_threshold) refl in
      subst (λ x. (x ≡ real.neg_infinity) ⊎ (certifies target confidence positive scores x ≡ true))
        (sym (
          ap (λ (x : Calibration float.F real.R). x.threshold)
            (calibrate_seen float real target (some confidence) default_floor scores e)
          ∙ (report_lem float real (some confidence) t positive scores).0
          ∙ p))
        (certified_floor-certifies target confidence positive scores)

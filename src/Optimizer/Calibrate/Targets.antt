-- ===== src/Optimizer/Calibrate/Targets.antt =====
-- What src/optimizer/calibrate.rs promises of the floor it picks.
use semcast.Base.{
  ℕ, ◌≡◌, refl, sym, ap, subst, ◌∙◌, Bool, true, false, ◌&&◌, Option, none, List, [], ◌∷◌, count_if,
  is_empty, arith, if◌then◌else◌, Bool-cases, ◌⊎◌, inl, inr, ◌==◌,
}
use semcast.Base.Float.{Float}
use semcast.Optimizer.Calibrate.{
  Reals, SampledScores, Calibration, unwrap_or, find_first, sort_desc, recall_at, meets_target,
  point_estimate_floor, meets_at, estimated_floor, known_positives, pick_threshold, report,
  calibrate_threshold,
}

pub find_first-holds {ℓ} :
    {A : Type ℓ} (p : A → Bool) (xs : List A) (d : A)
    → (unwrap_or (find_first p xs) d ≡ d) ⊎ (p (unwrap_or (find_first p xs) d) ≡ true)
find_first-holds p [] d = inl refl
find_first-holds p (y ∷ ys) d = elim (Bool-cases (p y)) [
  | inl e ↦ inr (rw e e)
  | inr e ↦ rw e (find_first-holds p ys d)
]

-- A value that passes a test, or else the first one of a list that does.
fallback-holds {ℓ} :
    {A : Type ℓ} (p : A → Bool) (b : Bool) (x d : A) (xs : List A)
    → p x ≡ b
    → ((if b then x else unwrap_or (find_first p xs) d) ≡ d)
      ⊎ (p (if b then x else unwrap_or (find_first p xs) d) ≡ true)
fallback-holds p true x d xs e = inr e
fallback-holds p false x d xs e = find_first-holds p xs d

count_if-is_empty {ℓ} :
    {A : Type ℓ} (p : A → Bool) (xs : List A) → is_empty xs ≡ true → count_if p xs ≡ 0
count_if-is_empty p [] h = refl
count_if-is_empty p (x ∷ xs) h = absurd (cc)

module _ (float : Float) (real : Reals float.F) where
  estimated_floor-meets :
      (target : real.R) (default_floor : float.F) (positive : List float.F)
      (scores : SampledScores float.F) (known : ℕ)
      → (estimated_floor float real target default_floor positive scores known ≡ real.neg_infinity)
        ⊎ (meets_at float real target positive scores
              (estimated_floor float real target default_floor positive scores known)
            ≡ true)
  unfolding estimated_floor
  estimated_floor-meets target default_floor positive scores known =
      fallback-holds (meets_at float real target positive scores) _
        (point_estimate_floor float real target default_floor positive scores known)
        real.neg_infinity _ refl

  -- Without evidence there is nothing to keep at any floor.
  no_evidence :
      (positive : List float.F) (scores : SampledScores float.F) (floor : float.F)
      → (known_positives float real positive scores == 0 && is_empty scores.unverified_scores)
        ≡ true
      → (recall_at float real floor positive scores).1 ≡ 0
  unfolding recall_at
  no_evidence positive scores floor h =
      let e : is_empty scores.unverified_scores ≡ true = ground arith in
      let c = count_if-is_empty (λ score. float.is_gt floor score) scores.unverified_scores e in
      ground arith

  meets_zero :
      (kept total : ℕ) (target : real.R)
      → total ≡ 0
      → meets_target float real kept total target ≡ true
  unfolding meets_target
  meets_zero kept total target h = let k : (total == 0) ≡ true = ground arith in rw k refl

  -- The share of the positives that a floor keeps, vacuously all of none.
  unfoldable pub share : ℕ × ℕ → real.R
  share counts =
      if counts.1 == 0
      then real.of_usize 1
      else real.div (real.of_usize counts.0) (real.of_usize counts.1)

  share_zero : (kept total : ℕ) → total ≡ 0 → real.of_usize 1 ≡ share (kept, total)
  unfolding share
  share_zero kept total h = let k : (total == 0) ≡ true = ground arith in rw (k, share) refl

  pub report_lem :
      (confidence : Option real.R) (t : float.F) (positive : List float.F)
      (scores : SampledScores float.F)
      → ((report float real confidence t positive scores).threshold ≡ t)
        × ((report float real confidence t positive scores).estimated_recall
            ≡ share (recall_at float real t positive scores))
  unfolding report share
  report_lem confidence t positive scores =
      elim (Bool-cases ((recall_at float real t positive scores).1 == 0)) [
        | inl e ↦ (rw (e, report) refl, rw (e, report, share) refl)
        | inr e ↦ (rw (e, report) refl, rw (e, report, share) refl)
      ]

  abbrev pub unseen : SampledScores float.F → Bool
  unseen scores =
      known_positives float real (sort_desc float scores.positive_scores) scores == 0
      && is_empty scores.unverified_scores

  calibrate_unseen :
      (target : real.R) (confidence : Option real.R) (default_floor : float.F)
      (scores : SampledScores float.F)
      → unseen scores ≡ true
      → ((calibrate_threshold float real target confidence default_floor scores).threshold
          ≡ default_floor)
        × ((calibrate_threshold float real target confidence default_floor scores).estimated_recall
            ≡ real.of_usize 1)
  unfolding calibrate_threshold
  calibrate_unseen target confidence default_floor scores e =
      (rw (e, calibrate_threshold) refl, rw (e, calibrate_threshold) refl)

  pub calibrate_seen :
      (target : real.R) (confidence : Option real.R) (default_floor : float.F)
      (scores : SampledScores float.F)
      → unseen scores ≡ false
      → calibrate_threshold float real target confidence default_floor scores
        ≡ report float real confidence
            (pick_threshold float real target confidence default_floor
              (sort_desc float scores.positive_scores)
              scores)
            (sort_desc float scores.positive_scores)
            scores
  unfolding calibrate_threshold
  calibrate_seen target confidence default_floor scores e = rw (e, calibrate_threshold) refl

  -- Every branch reports as its estimated recall the share of the sample's positives that the floor
  -- it reports keeps, failed labels below the floor counted as lost.
  pub calibrate_threshold_reports_truly :
      (target : real.R) (confidence : Option real.R) (default_floor : float.F)
      (scores : SampledScores float.F)
      → (calibrate_threshold float real target confidence default_floor scores).estimated_recall
        ≡ share (
            recall_at float real
              (calibrate_threshold float real target confidence default_floor scores).threshold
              (sort_desc float scores.positive_scores)
              scores)
  unfolding share
  calibrate_threshold_reports_truly target confidence default_floor scores =
      let positive = sort_desc float scores.positive_scores in
      let c = calibrate_threshold float real target confidence default_floor scores in
      elim (Bool-cases (unseen scores)) [
        | inl e ↦
            let z = no_evidence positive scores c.threshold e in
            (calibrate_unseen target confidence default_floor scores e).1
            ∙ share_zero _ (recall_at float real c.threshold positive scores).1 z
        | inr e ↦
            let t = pick_threshold float real target confidence default_floor positive scores in
            let q = calibrate_seen target confidence default_floor scores e in
            let (th, er) = report_lem confidence t positive scores in
            ap (λ (x : Calibration float.F real.R). x.estimated_recall) q
            ∙ er
            ∙ ap (λ x. share (recall_at float real x positive scores))
                (sym (ap (λ (x : Calibration float.F real.R). x.threshold) q ∙ th))
      ]

  -- With no confidence asked for, the floor that is picked keeps the target share of the sample's
  -- matches, failed labels below it counted as lost, or it is minus infinity and prunes nothing.
  pub calibrate_threshold-meets_target :
      (target : real.R) (default_floor : float.F) (scores : SampledScores float.F)
      → ((calibrate_threshold float real target none default_floor scores).threshold
          ≡ real.neg_infinity)
        ⊎ (meets_at float real target
              (sort_desc float scores.positive_scores)
              scores
              (calibrate_threshold float real target none default_floor scores).threshold
            ≡ true)
  unfolding pick_threshold
  calibrate_threshold-meets_target target default_floor scores =
      let positive = sort_desc float scores.positive_scores in
      let c = calibrate_threshold float real target none default_floor scores in
      elim (Bool-cases (unseen scores)) [
        | inl e ↦ inr (meets_zero _ _ target (no_evidence positive scores c.threshold e))
        | inr e ↦
            let t = pick_threshold float real target none default_floor positive scores in
            subst
              (λ x. (x ≡ real.neg_infinity) ⊎ (meets_at float real target positive scores x ≡ true))
              (sym (
                ap (λ (x : Calibration float.F real.R). x.threshold)
                  (calibrate_seen target none default_floor scores e)
                ∙ (report_lem none t positive scores).0))
              (estimated_floor-meets target default_floor positive scores
                (known_positives float real positive scores))
      ]

-- ===== src/Optimizer/Tests.antt =====
-- Runs of the calibration at concrete inputs, whole numbers (recalls in percent) in place of floats.
use semcast.Base.{
  ℕ, ◌+◌, ◌-◌, ◌*◌, ◌/◌, ◌≡◌, ◌⊎◌, refl, min, true, false, none, some, [], ◌∷◌, leb, ◌==◌,
}
use semcast.Base.Float.{whole}
use semcast.Optimizer.Calibrate.{
  Reals, SampledScores, calibrate_threshold, recall_at, sort_desc, insert_desc, meets_at,
  known_positives,
}
use semcast.Optimizer.Calibrate.Targets.{
  share, calibrate_threshold_reports_truly, calibrate_threshold-meets_target,
}
use semcast.Optimizer.Calibrate.Certified.{certifies, calibrate_threshold-certifies}

abbrev pub percent : Reals ℕ
percent = record {
  R = ℕ;
  of_usize = λ n. n;
  add = ◌+◌;
  sub = ◌-◌;
  mul = ◌*◌;
  div = λ a b. a * 100 / b;
  sqrt = λ n. n;
  clamp01 = λ n. min n 100;
  ge = λ a b. leb b a;
  ceil_usize = λ n. (n + 99) / 100;
  normal_quantile = λ n. 1;
  neg_infinity = 0;
  feq = λ a b. a == b;
}

abbrev sample : SampledScores ℕ
sample = record {
  positive_scores = 5 ∷ 9 ∷ 7 ∷ [];
  positive_unindexed = 1;
  positive_lost = 0;
  unverified_scores = 6 ∷ [];
  sampled = 10;
}

calibrate_threshold-meets_target_example :
    ((calibrate_threshold whole percent 60 none 8 sample).threshold ≡ percent.neg_infinity)
    ⊎ (meets_at whole percent 60
          (sort_desc whole sample.positive_scores)
          sample
          (calibrate_threshold whole percent 60 none 8 sample).threshold
        ≡ true)
calibrate_threshold-meets_target_example =
    calibrate_threshold-meets_target whole percent 60 8 sample

calibrate_threshold_reports_truly_example :
    (calibrate_threshold whole percent 60 none 8 sample).estimated_recall
    ≡ share whole percent (
        recall_at whole percent
          (calibrate_threshold whole percent 60 none 8 sample).threshold
          (sort_desc whole sample.positive_scores)
          sample)
calibrate_threshold_reports_truly_example =
    calibrate_threshold_reports_truly whole percent 60 none 8 sample

sample_known :
    (known_positives whole percent (sort_desc whole sample.positive_scores) sample == 0) ≡ false
unfolding sort_desc insert_desc
sample_known = refl

calibrate_threshold-certifies_example :
    ((calibrate_threshold whole percent 60 (some 90) 8 sample).threshold ≡ percent.neg_infinity)
    ⊎ (certifies whole percent 60 90
          (sort_desc whole sample.positive_scores)
          sample
          (calibrate_threshold whole percent 60 (some 90) 8 sample).threshold
        ≡ true)
calibrate_threshold-certifies_example =
    calibrate_threshold-certifies whole percent 60 90 8 sample sample_known

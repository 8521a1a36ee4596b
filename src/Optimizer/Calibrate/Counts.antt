-- ===== src/Optimizer/Calibrate/Counts.antt =====
-- What src/optimizer/calibrate.rs counts at a floor, and how the counts move with the floor.
use semcast.Base.{◌≤◌, ◌≡◌, Bool, true, List, [], ◌∷◌, length, count_if, arith}
use semcast.Base.Float.{Float}
use semcast.Optimizer.Calibrate.{Reals, SampledScores, recall_at}

module _ {ℓ} {A : Type ℓ} where
  count_if-le_length : (p : A → Bool) (xs : List A) → count_if p xs ≤ length xs
  count_if-le_length p [] = omega arith
  count_if-le_length p (x ∷ xs) = ground (arith, count_if-le_length p xs)

  count_if_mono :
      (p q : A → Bool) (xs : List A)
      → ((x : A) → p x ≡ true → q x ≡ true)
      → count_if p xs ≤ count_if q xs
  count_if_mono p q [] h = omega arith
  count_if_mono p q (x ∷ xs) h = ground (arith, h x, count_if_mono p q xs h)

module _ (float : Float) (real : Reals float.F) where
  -- At any floor at most as many positives are kept as there are; and from a floor to a lower one,
  -- the kept ones do not become fewer and the total does not grow.
  pub recall_at_bounds :
      (high low : float.F) (positive : List float.F) (scores : SampledScores float.F)
      → ((x : float.F) → float.ge x high ≡ true → float.ge x low ≡ true)
      → ((x : float.F) → float.is_gt low x ≡ true → float.is_gt high x ≡ true)
      → ((recall_at float real high positive scores).0
          ≤ (recall_at float real high positive scores).1)
        × ((recall_at float real high positive scores).0
            ≤ (recall_at float real low positive scores).0)
        × ((recall_at float real low positive scores).1
            ≤ (recall_at float real high positive scores).1)
  unfolding recall_at
  recall_at_bounds high low positive scores h k =
      let a = count_if-le_length (λ score. float.ge score high) positive in
      let b =
        count_if_mono (λ score. float.ge score high) (λ score. float.ge score low) positive h in
      let c =
        count_if_mono (λ score. float.is_gt low score) (λ score. float.is_gt high score)
          scores.unverified_scores k in
      (omega arith, omega arith, omega arith)

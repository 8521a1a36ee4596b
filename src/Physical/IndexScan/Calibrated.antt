-- ===== src/Physical/IndexScan/Calibrated.antt =====
-- src/physical/index_scan.rs: the labels of the sample, and the floor that is calibrated on them. What
-- the index and the cache answer is read once; `LearnedProxy::fit` is a parameter, which gives a
-- score for each vector that it can judge.
use semcast.Base.{
  ℕ, zero, suc, ◌+◌, ◌/◌, Bool, not, ◌||◌, Option, none, some, List, [], ◌∷◌, ◌++◌, length, take,
  drop, min, ltb, if◌then◌else◌, is_some,
}
use semcast.Base.Text.{Chars}
use semcast.Base.Float.{Float}
use semcast.Base.Assoc.{nat_key, lookup}
use semcast.Cache.{Entries}
use semcast.Optimizer.Calibrate.{Reals, Calibration, calibrate_threshold, meets}
use semcast.Physical.IndexScan.{
  Label, FilterScan, PrefilterResult, sample_documents, bucket_chunks, best_from, retain, clears,
  no_scores, score_labels,
}
use semcast.Physical.IndexScan.Labels.{CalibrationConfig, label_budget, Labelled, label_sample}

-- Where the loop over the tranches stands.
pub record Drawn (F : Type 0) (R : Type 0) : Type 0 where
  pub labels : List Label
  pub cache : Entries
  pub model_calls : ℕ
  pub label_errors : ℕ
  pub attempt : Option (Calibration F R × List (ℕ × F))

pub record SearchParams (F : Type 0) : Type 0 where
  pub score_floor : F
  pub chunks_per_doc : ℕ

module _ (float : Float) (real : Reals float.F) (Embedding : Type 0)
    (fit : List (Embedding × Bool) → Option (Embedding → Option float.F))
    (doc_hash : Chars → ℕ) where
  abbrev pub example :
      Option Embedding → Option Bool → List (Embedding × Bool) → List (Embedding × Bool)
  example (some vector) (some label) rest = (vector, label) ∷ rest
  example _ _ rest = rest

  -- The labelled vectors of the training half.
  unfoldable pub examples : List (ℕ × Embedding) → List Label → List (Embedding × Bool)
  examples vectors [] = []
  examples vectors ((text, label) ∷ training) =
      example (lookup (doc_hash text) vectors) label (examples vectors training)

  abbrev pub with_score :
      ℕ → Option float.F → Option (List (ℕ × float.F)) → Option (List (ℕ × float.F))
  with_score hash (some score) (some rest) = some ((hash, score) ∷ rest)
  with_score hash _ _ = none

  abbrev pub score_of : (Embedding → Option float.F) → Option Embedding → Option float.F
  score_of proxy none = none
  score_of proxy (some vector) = proxy vector

  -- A score for every document that the search returned, or none at all.
  unfoldable pub learn :
      (Embedding → Option float.F)
      → List (ℕ × Embedding)
      → List (ℕ × float.F)
      → Option (List (ℕ × float.F))
  learn proxy vectors [] = some []
  learn proxy vectors ((hash, score) ∷ best) =
      with_score hash (score_of proxy (lookup hash vectors)) (learn proxy vectors best)

  abbrev pub learned_with :
      Option (Embedding → Option float.F)
      → List (ℕ × Embedding)
      → List (ℕ × float.F)
      → Option (List (ℕ × float.F))
  learned_with none vectors best = none
  learned_with (some proxy) vectors best = learn proxy vectors best

  module _ (config : CalibrationConfig real.R) (params : SearchParams float.F) where
    -- The closure `calibrate_with`.
    unfoldable pub calibrate_with :
        List ℕ → List (ℕ × float.F) → List Label → Calibration float.F real.R
    unfolding score_labels calibrate_threshold
    calibrate_with indexed scores labels =
        calibrate_threshold float real config.target_recall config.confidence params.score_floor
          (score_labels float real doc_hash labels scores indexed)

    -- The calibration, and the scores that it is on.
    unfoldable pub calibrate_over_best_proxy :
        List Label
        → List (ℕ × float.F)
        → List ℕ
        → List (ℕ × Embedding)
        → Calibration float.F real.R × List (ℕ × float.F)
    unfolding examples learn calibrate_with
    calibrate_over_best_proxy labels per_doc_best indexed vectors =
        let half = length labels / 2 in
        let proxy = fit (examples vectors (take half labels)) in
        elim (learned_with proxy vectors per_doc_best) [
          | some learned ↦ (calibrate_with indexed learned (drop half labels), learned)
          | none ↦ (calibrate_with indexed per_doc_best labels, per_doc_best)
        ]

    module _ (digest : Chars → ℕ) (condition : Chars) where
      abbrev pub drawn_with :
          Labelled
          → Drawn float.F real.R
          → Calibration float.F real.R × List (ℕ × float.F)
          → Drawn float.F real.R
      drawn_with tranche st outcome = record {
        labels = st.labels ++ tranche.labels;
        cache = tranche.cache;
        model_calls = st.model_calls + tranche.model_calls;
        label_errors = st.label_errors + tranche.label_errors;
        attempt = some outcome;
      }

      abbrev pub settled : Calibration float.F real.R → Bool
      settled calibrated =
          not (is_some config.confidence) || meets float real calibrated config.target_recall

      -- The loop, on fuel, over the pool and the number of its documents that are labelled.
      unfoldable pub draw_tranches :
          ℕ
          → List ℕ
          → List (ℕ × float.F)
          → List (ℕ × Embedding)
          → List Chars
          → ℕ
          → Drawn float.F real.R
          → Option (Drawn float.F real.R)
      unfolding label_sample calibrate_over_best_proxy
      draw_tranches zero indexed best vectors pool labelled st = none
      draw_tranches (suc fuel) indexed best vectors pool labelled st =
          let upto = min (labelled + config.sample_size) (length pool) in
          let tranche =
            label_sample digest condition config (drop labelled (take upto pool)) st.cache in
          let outcome =
            calibrate_over_best_proxy (st.labels ++ tranche.labels) best indexed vectors in
          let next = drawn_with tranche st outcome in
          let more = draw_tranches fuel indexed best vectors pool upto next in
          if ltb labelled (length pool)
          then (if settled outcome.0 then some next else more)
          else some st

      -- What the calibrated path leaves: the calibration, its scores, the evidence, and the labels.
      pub record Prefiltered : Type 0 where
        pub calibrated : Calibration float.F real.R
        pub scores : List (ℕ × float.F)
        pub result : PrefilterResult
        pub drawn : Drawn float.F real.R

      -- Nothing to label: no rows, or every one of them NULL.
      abbrev pub outcome_of :
          Option (Calibration float.F real.R × List (ℕ × float.F))
          → List (ℕ × float.F)
          → Calibration float.F real.R × List (ℕ × float.F)
      outcome_of (some outcome) best = outcome
      outcome_of none best = (
        calibrate_threshold float real config.target_recall config.confidence params.score_floor
            (no_scores float real 0),
        best,
      )

      abbrev pub filtered_by :
          FilterScan float.F → List (ℕ × float.F) → Drawn float.F real.R → Prefiltered
      filtered_by scan best drawn =
          let (calibrated, scores) = outcome_of drawn.attempt best in
          let p : ℕ → Bool = clears float real scores calibrated.threshold in
          record {
            calibrated = calibrated;
            scores = scores;
            result = record {
              chunks = retain p (bucket_chunks scan.hits params.chunks_per_doc);
              indexed = scan.indexed;
            };
            drawn = drawn;
          }

      unfoldable pub calibrated_prefilter :
          FilterScan float.F
          → List (ℕ × Embedding)
          → List (Option Chars)
          → Entries
          → Option Prefiltered
      unfolding best_from sample_documents label_budget draw_tranches
      calibrated_prefilter scan vectors buffered cache =
          let best = best_from scan.hits [] in
          let pool = sample_documents doc_hash buffered (label_budget config) in
          let start : Drawn float.F real.R = record {
            labels = [];
            cache = cache;
            model_calls = 0;
            label_errors = 0;
            attempt = none;
          } in
          elim (draw_tranches (suc (length pool)) scan.indexed best vectors pool 0 start) [
            | none ↦ none
            | some drawn ↦ some (filtered_by scan best drawn)
          ]

-- ===== src/Physical/IndexScan/Promise.antt =====
-- src/physical/index_scan.rs: the calibrated path as a whole.
use semcast.Base.{
  ℕ, zero, suc, ◌+◌, ◌/◌, ◌≡◌, ◌≤◌, ◌<◌, refl, sym, subst, inl, inr, ◌⊎◌, Bool, true, false, Option,
  none, some, List, [], ◌++◌, length, count_if, drop, take, min, ltb, ltb→lt, if◌then◌else◌,
  Option-cases, arith, some_is_none,
}
use semcast.Base.Text.{Chars}
use semcast.Base.Float.{Float}
use semcast.Base.Assoc.{nat_key}
use semcast.Cache.{Entries}
use semcast.Optimizer.Calibrate.{Reals, Calibration, recall_at, sort_desc}
use semcast.Optimizer.Calibrate.Targets.{share, calibrate_threshold_reports_truly}
use semcast.Physical.IndexScan.{Label, FilterScan, best_from, sample_documents, score_labels, tally}
use semcast.Physical.IndexScan.Labels.{CalibrationConfig, label_budget, label_sample}
use semcast.Physical.IndexScan.Calibrated.{
  SearchParams, Drawn, Prefiltered, learned_with, examples, calibrate_with,
  calibrate_over_best_proxy, draw_tranches, filtered_by, calibrated_prefilter, settled, drawn_with,
  outcome_of,
}
use semcast.Physical.IndexScan.Survivors.{has, learn-has, survivors}
use semcast.Physical.IndexScan.Recall.{kept, matched, recall-Counted}

some_injective {ℓ} : {A : Type ℓ} {a b : A} → some a ≡ some b → a ≡ b
some_injective e = cc

module _ (float : Float) (real : Reals float.F) (Embedding : Type 0)
    (fit : List (Embedding × Bool) → Option (Embedding → Option float.F)) (doc_hash : Chars → ℕ)
    (config : CalibrationConfig real.R) (params : SearchParams float.F) where
  -- A calibration is of some labels, all of them or the second half, on scores for the documents that
  -- the search returned.
  OnLabels :
      List ℕ
      → List (ℕ × float.F)
      → List Label
      → Calibration float.F real.R × List (ℕ × float.F)
      → Type 0
  OnLabels indexed best labels outcome =
      (used : List Label) × ((used ≡ labels) ⊎ (used ≡ drop (length labels / 2) labels))
      × (outcome.0
          ≡ calibrate_with float real Embedding fit doc_hash config params indexed outcome.1 used)
      × ((h : ℕ) → has h outcome.1 ≡ has h best)

  learned_with-has :
      (proxy : Option (Embedding → Option float.F)) (vectors : List (ℕ × Embedding))
      (best learned : List (ℕ × float.F))
      → learned_with float real Embedding fit doc_hash proxy vectors best ≡ some learned
      → (h : ℕ) → has h learned ≡ has h best
  learned_with-has none vectors best learned done h = absurd (some_is_none (sym done))
  learned_with-has (some proxy) vectors best learned done h =
      learn-has float real Embedding fit doc_hash proxy vectors best learned done h

  best_proxy-OnLabels :
      (labels : List Label) (best : List (ℕ × float.F)) (indexed : List ℕ)
      (vectors : List (ℕ × Embedding))
      → OnLabels indexed best labels (
          calibrate_over_best_proxy float real Embedding fit doc_hash config params labels best
            indexed vectors)
  unfolding OnLabels calibrate_over_best_proxy
  best_proxy-OnLabels labels best indexed vectors =
      let proxy =
        fit
          (examples float real Embedding fit doc_hash vectors (take (length labels / 2) labels)) in
      elim (Option-cases (learned_with float real Embedding fit doc_hash proxy vectors best)) [
        | inl e ↦ rw (e, calibrate_over_best_proxy) (labels, inl refl, refl, λ h. refl)
        | inr (learned, e) ↦
            rw (e, calibrate_over_best_proxy)
              (
                drop (length labels / 2) labels,
                inr refl,
                refl,
                learned_with-has proxy vectors best learned e,
              )
      ]

  module _ (digest : Chars → ℕ) (condition : Chars) where
    Attempted : List ℕ → List (ℕ × float.F) → Drawn float.F real.R → Type 0
    Attempted indexed best d =
        ((d.labels ≡ []) × (d.attempt ≡ none))
        ⊎ ((outcome : Calibration float.F real.R × List (ℕ × float.F)) × (d.attempt ≡ some outcome)
            × OnLabels indexed best d.labels outcome)

    draw_tranches-Attempted :
        (fuel : ℕ) (indexed : List ℕ) (best : List (ℕ × float.F)) (vectors : List (ℕ × Embedding))
        (pool : List Chars) (labelled : ℕ) (st d : Drawn float.F real.R)
        → Attempted indexed best st
        → draw_tranches float real Embedding fit doc_hash config params digest condition fuel
            indexed best vectors pool labelled st
          ≡ some d
        → Attempted indexed best d
    unfolding draw_tranches Attempted
    draw_tranches-Attempted zero indexed best vectors pool labelled st d before done =
        absurd (some_is_none (sym done))
    draw_tranches-Attempted (suc fuel) indexed best vectors pool labelled st d before done =
        let upto = min (labelled + config.sample_size) (length pool) in
        let tranche =
          label_sample digest condition config (drop labelled (take upto pool)) st.cache in
        let labels = st.labels ++ tranche.labels in
        let outcome =
          calibrate_over_best_proxy float real Embedding fit doc_hash config params labels best
            indexed vectors in
        let next =
          drawn_with float real Embedding fit doc_hash config params digest condition tranche st
            outcome in
        let after : Attempted indexed best next =
          inr (outcome, refl, best_proxy-OnLabels labels best indexed vectors) in
        picked next st
          (draw_tranches float real Embedding fit doc_hash config params digest condition fuel
            indexed best vectors pool upto next)
          (ltb labelled (length pool))
          (settled float real Embedding fit doc_hash config params digest condition outcome.0)
          before after
          (λ q. draw_tranches-Attempted fuel indexed best vectors pool upto next d after q) done
      where
        picked :
            (next st : Drawn float.F real.R) (more : Option (Drawn float.F real.R)) (b c : Bool)
            → Attempted indexed best st
            → Attempted indexed best next
            → (more ≡ some d → Attempted indexed best d)
            → (if b then (if c then some next else more) else some st) ≡ some d
            → Attempted indexed best d
        picked next st more false c before after later done =
            subst (Attempted indexed best) (some_injective done) before
        picked next st more true true before after later done =
            subst (Attempted indexed best) (some_injective done) after
        picked next st more true false before after later done = later done

    -- If tranches are not empty, enough fuel is given.
    draw_tranches_total :
        (fuel : ℕ) (indexed : List ℕ) (best : List (ℕ × float.F)) (vectors : List (ℕ × Embedding))
        (pool : List Chars) (labelled : ℕ) (st : Drawn float.F real.R)
        → 1 ≤ config.sample_size
        → labelled ≤ length pool
        → length pool < fuel + labelled
        → (d : Drawn float.F real.R) × (draw_tranches float real Embedding fit doc_hash config
              params digest condition fuel indexed best vectors pool labelled st
            ≡ some d)
    unfolding draw_tranches
    draw_tranches_total zero indexed best vectors pool labelled st some_size within enough =
        absurd (omega (arith, within, enough))
    draw_tranches_total (suc fuel) indexed best vectors pool labelled st some_size within enough =
        let upto = min (labelled + config.sample_size) (length pool) in
        let tranche =
          label_sample digest condition config (drop labelled (take upto pool)) st.cache in
        let outcome =
          calibrate_over_best_proxy float real Embedding fit doc_hash config params
            (st.labels ++ tranche.labels) best indexed vectors in
        let next =
          drawn_with float real Embedding fit doc_hash config params digest condition tranche st
            outcome in
        some_drawn next st
          (draw_tranches float real Embedding fit doc_hash config params digest condition fuel
            indexed best vectors pool upto next)
          (ltb labelled (length pool))
          (settled float real Embedding fit doc_hash config params digest condition outcome.0)
          (λ more.
            draw_tranches_total fuel indexed best vectors pool upto next some_size (omega arith) (
              let less = ltb→lt labelled (length pool) more in
              omega (arith, less, some_size, enough)))
      where
        some_drawn :
            (next st : Drawn float.F real.R) (more : Option (Drawn float.F real.R)) (b c : Bool)
            → (b ≡ true → (d : Drawn float.F real.R) × (more ≡ some d))
            → (d : Drawn float.F real.R) × ((if b then (if c then some next else more) else some st)
                ≡ some d)
        some_drawn next st more false c rest = (st, refl)
        some_drawn next st more true true rest = (next, refl)
        some_drawn next st more true false rest = rest refl

    -- The calibrated path ends with a result, if a tranche is not empty.
    pub calibrated_prefilter_total :
        (scan : FilterScan float.F) (vectors : List (ℕ × Embedding))
        (buffered : List (Option Chars)) (cache : Entries)
        → 1 ≤ config.sample_size
        → (p : Prefiltered float real Embedding fit doc_hash config params digest condition)
          × (calibrated_prefilter float real Embedding fit doc_hash config params digest condition
                scan vectors buffered cache
              ≡ some p)
    unfolding calibrated_prefilter
    calibrated_prefilter_total scan vectors buffered cache some_size =
        let pool = sample_documents doc_hash buffered (label_budget config) in
        let start : Drawn float.F real.R = record {
          labels = [];
          cache = cache;
          model_calls = 0;
          label_errors = 0;
          attempt = none;
        } in
        let (d, done) =
          draw_tranches_total (suc (length pool)) scan.indexed (best_from scan.hits []) vectors pool
            0 start some_size (omega arith) (omega arith) in
        (
          filtered_by float real Embedding fit doc_hash config params digest condition scan
              (best_from scan.hits []) d,
          rw (done, calibrated_prefilter) refl,
        )

    -- A recall is the share of two counts, that of kept matches at most what it is among some labels
    -- and that of matches at least.
    unfoldable pub Honest :
        Prefiltered float real Embedding fit doc_hash config params digest condition → Type 0
    unfolding share
    Honest p =
        (used : List Label) × ((used ≡ p.drawn.labels)
          ⊎ (used ≡ drop (length p.drawn.labels / 2) p.drawn.labels))
        × (k : ℕ) × (t : ℕ) × (p.calibrated.estimated_recall ≡ share float real (k, t))
        × (k ≤ count_if (kept float real doc_hash p.result) used)
        × (count_if matched used ≤ t)

    outcome-OnLabels :
        (indexed : List ℕ) (best : List (ℕ × float.F)) (d : Drawn float.F real.R)
        → Attempted indexed best d
        → OnLabels indexed best d.labels (
            outcome_of float real Embedding fit doc_hash config params digest condition d.attempt
              best)
    unfolding Attempted OnLabels calibrate_with score_labels tally
    outcome-OnLabels indexed best d (inl (none_labelled, no_attempt)) =
        rw no_attempt ([], inl (sym none_labelled), refl, λ h. refl)
    outcome-OnLabels indexed best d (inr (outcome, attempt, on)) = rw attempt on

    conclude-Honest :
        (scan : FilterScan float.F) (d : Drawn float.F real.R)
        → Attempted scan.indexed (best_from scan.hits []) d
        → Honest (
            filtered_by float real Embedding fit doc_hash config params digest condition scan
              (best_from scan.hits [])
              d)
    unfolding Honest OnLabels calibrate_with
    conclude-Honest scan d attempted =
        let best = best_from scan.hits [] in
        let (used, whole, made, same) = outcome-OnLabels scan.indexed best d attempted in
        let p =
          filtered_by float real Embedding fit doc_hash config params digest condition scan best
            d in
        let s = score_labels float real doc_hash used p.scores scan.indexed in
        let r = recall_at float real p.calibrated.threshold (sort_desc float s.positive_scores) s in
        let (low, high) =
          recall-Counted float real doc_hash p.result p.scores p.calibrated.threshold used (
            survivors float real scan.hits params.chunks_per_doc p.scores p.calibrated.threshold
              same) in
        let report =
          calibrate_threshold_reports_truly float real config.target_recall config.confidence
            params.score_floor s in
        let told =
          subst
            (λ (c : Calibration float.F real.R).
              c.estimated_recall
              ≡ share float real
                  (recall_at float real c.threshold (sort_desc float s.positive_scores) s))
            (sym made) report in
        (used, whole, r.0, r.1, told, low, high)

    concluded :
        (o : Option (Drawn float.F real.R))
        (f : Drawn float.F real.R
          → Prefiltered float real Embedding fit doc_hash config params digest condition)
        (p : Prefiltered float real Embedding fit doc_hash config params digest condition)
        → (elim o [ none ↦ none | some d ↦ some (f d) ]) ≡ some p
        → (d : Drawn float.F real.R) × (o ≡ some d) × (f d ≡ p)
    concluded none f p done = absurd (some_is_none (sym done))
    concluded (some d) f p done = (d, refl, some_injective done)

    -- The recall that the calibrated path reports does not overstate: it is the share of a count of
    -- matches that is at most the number of labelled matches that the scan keeps, in a count that is
    -- at least the number of labelled matches. The labels are all those drawn, or their second half.
    pub calibrated_prefilter-Honest :
        (scan : FilterScan float.F) (vectors : List (ℕ × Embedding))
        (buffered : List (Option Chars)) (cache : Entries)
        (p : Prefiltered float real Embedding fit doc_hash config params digest condition)
        → calibrated_prefilter float real Embedding fit doc_hash config params digest condition scan
            vectors buffered cache
          ≡ some p
        → Honest p
    unfolding calibrated_prefilter Attempted
    calibrated_prefilter-Honest scan vectors buffered cache p done =
        let best = best_from scan.hits [] in
        let pool = sample_documents doc_hash buffered (label_budget config) in
        let start : Drawn float.F real.R = record {
          labels = [];
          cache = cache;
          model_calls = 0;
          label_errors = 0;
          attempt = none;
        } in
        let (d, drew, same) =
          concluded
            (draw_tranches float real Embedding fit doc_hash config params digest condition
              (suc (length pool)) scan.indexed best vectors pool 0 start)
            (filtered_by float real Embedding fit doc_hash config params digest condition scan best)
            p done in
        let attempted =
          draw_tranches-Attempted (suc (length pool)) scan.indexed best vectors pool 0 start d
            (inl (refl, refl)) drew in
        subst Honest same (conclude-Honest scan d attempted)

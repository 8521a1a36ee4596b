-- ===== src/Physical/Tests/Scan.antt =====
-- A calibrated scan of three documents, of which the index knows two.
use semcast.Base.{
  ℕ, ◌≡◌, ◌+◌, Bool, Option, none, some, List, [], ◌∷◌, map, length, count_if, arith,
}
use semcast.Base.Text.{Chars, codes}
use semcast.Base.Float.{whole}
use semcast.Model.{Result, ok, CompletionRequest, Completion}
use semcast.Optimizer.Tests.{percent}
use semcast.Physical.IndexScan.{FilterScan, ScoredHit, PrefilterResult, scan_batch}
use semcast.Physical.IndexScan.Accounts.{passes, scan_batch_accounts}
use semcast.Physical.IndexScan.Labels.{CalibrationConfig}
use semcast.Physical.IndexScan.Calibrated.{SearchParams, Prefiltered, calibrated_prefilter}
use semcast.Physical.IndexScan.Promise.{
  Honest, calibrated_prefilter-Honest, calibrated_prefilter_total,
}

abbrev answer : CompletionRequest → Result Completion
answer q = ok (record { text = codes "yes"; input_tokens = 1; output_tokens = 1 })

abbrev config : CalibrationConfig ℕ
config = record {
  target_recall = 80;
  confidence = none;
  sample_size = 2;
  model_id = codes "model";
  complete = map answer;
}

abbrev params : SearchParams ℕ
params = record { score_floor = 5; chunks_per_doc = 3 }

abbrev scored : ℕ → ℕ → ScoredHit ℕ
scored doc score = record { doc_hash = doc; score = score; text = codes "chunk" }

abbrev found : FilterScan ℕ
found = record { hits = scored 3 9 ∷ scored 5 4 ∷ scored 3 2 ∷ []; indexed = 3 ∷ 5 ∷ [] }

abbrev rows : List (Option Chars)
rows = some (codes "abc") ∷ none ∷ some (codes "abcde") ∷ some (codes "ab") ∷ []

-- No vectors, so that no proxy is fitted.
abbrev no_fit : List (ℕ × Bool) → Option (ℕ → Option ℕ)
no_fit labelled = none

calibrated_prefilter_total_example :
    (p : Prefiltered whole percent ℕ no_fit length config params length (codes "angry"))
    × (calibrated_prefilter whole percent ℕ no_fit length config params length
          (codes "angry")
          found
          []
          rows
          []
        ≡ some p)
calibrated_prefilter_total_example =
    calibrated_prefilter_total whole percent ℕ no_fit length config params length (codes "angry")
      found [] rows [] (ground arith)

abbrev ran :
    (p : Prefiltered whole percent ℕ no_fit length config params length (codes "angry"))
    × (calibrated_prefilter whole percent ℕ no_fit length config params length
          (codes "angry")
          found
          []
          rows
          []
        ≡ some p)
ran =
    calibrated_prefilter_total whole percent ℕ no_fit length config params length (codes "angry")
      found [] rows [] (ground arith)

calibrated_prefilter-Honest_example :
    Honest whole percent ℕ no_fit length config params length (codes "angry") ran.0
calibrated_prefilter-Honest_example =
    calibrated_prefilter-Honest whole percent ℕ no_fit length config params length (codes "angry")
      found [] rows [] ran.0 ran.1

abbrev evidence : PrefilterResult
evidence = record { chunks = (3, codes "chunk" ∷ []) ∷ []; indexed = 3 ∷ 5 ∷ [] }

scan_batch_accounts_example :
    ((scan_batch length evidence rows).keep ≡ map (passes length evidence) rows)
    × (count_if (passes length evidence) rows
        ≡ (scan_batch length evidence rows).index_hits
          + (scan_batch length evidence rows).passthrough_rows)
    × ((scan_batch length evidence rows).index_hits
          + (scan_batch length evidence rows).passthrough_rows
          + (scan_batch length evidence rows).rows_pruned
        ≡ length rows)
scan_batch_accounts_example = scan_batch_accounts length evidence rows

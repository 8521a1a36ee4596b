-- ===== src/Physical/IndexScan.antt =====
-- src/physical/index_scan.rs: the rows that the index lets pass, and the floor that a labelled sample
-- sets. The hash maps are association lists in the order of first entry, the sets lists; `doc_hash`
-- and the cache's digest, the index's answers, the model, and the fit of a learned proxy are
-- parameters. A row is its text, or none for NULL.
pub mod Accounts
pub mod Calibrated
pub mod Labels
pub mod Promise
pub mod Recall
pub mod Survivors
use semcast.Base.{
  ℕ, zero, suc, ◌+◌, ◌*◌, ◌/◌, ◌%◌, ◌^◌, Bool, true, false, ◌||◌, Option, none, some, List, [], ◌∷◌,
  ◌++◌, map, length, take, drop, ltb, leb, max, min, keep_if, if◌then◌else◌, is_some,
}
use semcast.Base.Text.{Chars, codes}
use semcast.Base.Float.{Float}
use semcast.Base.Assoc.{nat_key, lookup, insert, chars_beq}
use semcast.Model.{Result, ok, err, CompletionRequest, Completion}
use semcast.Cache.{CachedValue, value, error, Entries, get, put}
use semcast.Optimizer.Calibrate.{Reals, SampledScores, Calibration, calibrate_threshold, meets}
use semcast.Physical.Rank.{Chunks, or_default, contains}
use semcast.Physical.Verify.{
  means_cache_key, means_prompt_version, synthesize_means_prompt, parse_verdict,
}

abbrev pub calibration_label_budget : ℕ
calibration_label_budget = 256

-- A sampled document and its label, none if the call failed.
abbrev pub Label : Type 0
Label = Chars × Option Bool

-- A search hit; its chunk index is not read.
pub record ScoredHit (F : Type 0) : Type 0 where
  pub doc_hash : ℕ
  pub score : F
  pub text : Chars

pub record FilterScan (F : Type 0) : Type 0 where
  pub hits : List (ScoredHit F)
  pub indexed : List ℕ

pub record PrefilterResult : Type 0 where
  pub chunks : Chunks
  pub indexed : List ℕ

-- `ChunkEvidence::chunks_for`, over the cell.
unfoldable pub chunks_for : Option PrefilterResult → ℕ → Option (List Chars)
chunks_for none hash = none
chunks_for (some result) hash = lookup hash result.chunks

-- The exclusive or of two numbers of that many bits.
abbrev pub xor : ℕ → ℕ → ℕ → ℕ
xor zero a b = 0
xor (suc bits) a b = (a % 2 + b % 2) % 2 + 2 * xor bits (a / 2) (b / 2)

abbrev pub sample_seed : ℕ
sample_seed = 0x5eedca1b00000001

-- On u64, where a product and a sum wrap around.
unfoldable pub sample_priority : ℕ → ℕ
sample_priority doc_hash =
    let z0 = (xor 64 doc_hash sample_seed + 0x9e3779b97f4a7c15) % 2 ^ 64 in
    let z1 = xor 64 z0 (z0 / 2 ^ 30) * 0xbf58476d1ce4e5b9 % 2 ^ 64 in
    let z2 = xor 64 z1 (z1 / 2 ^ 27) * 0x94d049bb133111eb % 2 ^ 64 in xor 64 z2 (z2 / 2 ^ 31)

-- The mask of a batch, and the counters' increases.
pub record Scanned : Type 0 where
  pub keep : List Bool
  pub index_hits : ℕ
  pub rows_pruned : ℕ
  pub passthrough_rows : ℕ

module _ (doc_hash : Chars → ℕ) where
  unfoldable pub scan_batch : PrefilterResult → List (Option Chars) → Scanned
  scan_batch result [] = record { keep = []; index_hits = 0; rows_pruned = 0; passthrough_rows = 0 }
  scan_batch result (none ∷ texts) =
      let rest = scan_batch result texts in
      record rest { keep = false ∷ rest.keep; rows_pruned = suc rest.rows_pruned }
  scan_batch result (some text ∷ texts) =
      let rest = scan_batch result texts in
      let hash = doc_hash text in
      if is_some (lookup hash result.chunks)
      then record rest { keep = true ∷ rest.keep; index_hits = suc rest.index_hits }
      else if contains result.indexed hash
      then record rest { keep = false ∷ rest.keep; rows_pruned = suc rest.rows_pruned }
      else record rest { keep = true ∷ rest.keep; passthrough_rows = suc rest.passthrough_rows }

  -- The distinct documents by hash, at the first of their rows.
  unfoldable pub first_seen : List (Option Chars) → List (ℕ × Chars) → List (ℕ × Chars)
  first_seen [] seen = seen
  first_seen (none ∷ texts) seen = first_seen texts seen
  first_seen (some text ∷ texts) seen =
      let hash = doc_hash text in
      let known = first_seen texts seen in
      let added = first_seen texts (insert hash text seen) in
      if is_some (lookup hash seen) then known else added

  abbrev pub insert_by_priority : ℕ × Chars → List (ℕ × Chars) → List (ℕ × Chars)
  insert_by_priority d [] = d ∷ []
  insert_by_priority d (e ∷ drawn) =
      let rest = insert_by_priority d drawn in if ltb e.0 d.0 then e ∷ rest else d ∷ e ∷ drawn

  -- `sort_unstable_by_key`; distinct documents have distinct priorities.
  unfoldable pub sort_by_priority : List (ℕ × Chars) → List (ℕ × Chars)
  sort_by_priority [] = []
  sort_by_priority (d ∷ drawn) = insert_by_priority d (sort_by_priority drawn)

  unfoldable pub sample_documents : List (Option Chars) → ℕ → List Chars
  unfolding first_seen sort_by_priority sample_priority
  sample_documents buffered sample_size =
      let drawn = map (λ (d : ℕ × Chars). (sample_priority d.0, d.1)) (first_seen buffered []) in
      map (λ (d : ℕ × Chars). d.1) (take sample_size (sort_by_priority drawn))

-- The hits of each document, the first ones up to a number.
unfoldable pub bucket_hits : {F : Type 0} → List (ScoredHit F) → ℕ → Chunks → Chunks
bucket_hits [] chunks_per_doc chunks = chunks
bucket_hits (hit ∷ hits) chunks_per_doc chunks =
    let doc_chunks = or_default (lookup hit.doc_hash chunks) in
    bucket_hits hits chunks_per_doc (
      insert hit.doc_hash
        (if ltb (length doc_chunks) chunks_per_doc then doc_chunks ++ hit.text ∷ [] else doc_chunks)
        chunks)

unfoldable pub bucket_chunks : {F : Type 0} → List (ScoredHit F) → ℕ → Chunks
unfolding bucket_hits
bucket_chunks hits chunks_per_doc = bucket_hits hits chunks_per_doc []

-- `Scanner::prefilter`, over the index's answer.
unfoldable pub prefilter : {F : Type 0} → FilterScan F → ℕ → PrefilterResult
unfolding bucket_chunks
prefilter scan chunks_per_doc = record {
  chunks = bucket_chunks scan.hits chunks_per_doc;
  indexed = scan.indexed;
}

-- The best score of each document; the hits come best first.
unfoldable pub best_from : {F : Type 0} → List (ScoredHit F) → List (ℕ × F) → List (ℕ × F)
best_from [] best = best
best_from (hit ∷ hits) best =
    let known = best_from hits best in
    let added = best_from hits (insert hit.doc_hash hit.score best) in
    if is_some (lookup hit.doc_hash best) then known else added

-- `HashMap::retain`, by the key.
unfoldable pub retain : (ℕ → Bool) → Chunks → Chunks
retain p chunks = keep_if (λ (entry : ℕ × List Chars). p entry.0) chunks

module _ (float : Float) (real : Reals float.F) where
  -- The documents that survive a floor.
  abbrev pub clears : List (ℕ × float.F) → float.F → ℕ → Bool
  clears scores floor hash = elim (lookup hash scores) [
    | none ↦ false
    | some score ↦ float.ge score floor
  ]

  abbrev pub no_scores : ℕ → SampledScores float.F
  no_scores sampled = record {
    positive_scores = [];
    positive_unindexed = 0;
    positive_lost = 0;
    unverified_scores = [];
    sampled = sampled;
  }

  -- What a label adds, by the document's score and by whether the index knows it.
  abbrev pub add_label :
      Option Bool → Option float.F → Bool → SampledScores float.F → SampledScores float.F
  add_label (some false) score known scores = scores
  add_label none (some score) known scores = record scores {
    unverified_scores = score ∷ scores.unverified_scores;
  }
  add_label none none true scores = record scores { positive_lost = suc scores.positive_lost }
  add_label none none false scores = scores
  add_label (some true) (some score) known scores = record scores {
    positive_scores = score ∷ scores.positive_scores;
  }
  add_label (some true) none true scores = record scores {
    positive_lost = suc scores.positive_lost;
  }
  add_label (some true) none false scores = record scores {
    positive_unindexed = suc scores.positive_unindexed;
  }

  module _ (doc_hash : Chars → ℕ) where
    unfoldable pub tally :
        List (ℕ × float.F) → List ℕ → List Label → SampledScores float.F → SampledScores float.F
    tally per_doc_best indexed [] scores = scores
    tally per_doc_best indexed ((text, label) ∷ labels) scores =
        let hash = doc_hash text in
        add_label label (lookup hash per_doc_best) (contains indexed hash)
          (tally per_doc_best indexed labels scores)

    unfoldable pub score_labels : List Label → List (ℕ × float.F) → List ℕ → SampledScores float.F
    unfolding tally
    score_labels labels per_doc_best indexed =
        tally per_doc_best indexed labels (no_scores (length labels))

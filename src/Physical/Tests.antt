-- ===== src/Physical/Tests.antt =====
-- Runs of the verify stage at a concrete batch.
mod Extraction
mod Scan
use semcast.Base.{
  ℕ, ◌+◌, ◌≤◌, ◌≡◌, refl, false, Option, none, some, List, [], ◌∷◌, map, length, count_if, All,
  get_elem?,
}
use semcast.Base.Text.{Chars, codes}
use semcast.Base.Float.{whole}
use semcast.Base.Assoc.{nat_key}
use semcast.Physical.Rank.{ChunkHit, Candidates, bucket_candidates, keep_candidates}
use semcast.Physical.Rank.Buckets.{kept, bucket_candidates_bounded, keep_candidates_accounts}
use semcast.Physical.Distinct.{run}
use semcast.Physical.Distinct.Groups.{run_keys_every_text}
use semcast.Model.{Result, ok, CompletionRequest, Completion}
use semcast.Cache.{value, Entries}
use semcast.Physical.Verify.{Verifier, cache_key, verify_batch}
use semcast.Physical.Verify.Account.{is_null, verify_batch_accounts}
use semcast.Physical.Verify.Verdicts.{decide, verify_batch-decide}

abbrev yes : CompletionRequest → Result Completion
yes q = ok (record { text = codes " Yes."; input_tokens = 1; output_tokens = 1 })

abbrev verifier : Verifier
verifier = record {
  condition = codes "angry";
  model_id = codes "model";
  digest = λ text. length text;
  chunks_for = λ text. none;
  complete = map yes;
}

abbrev cached : Entries
cached = (cache_key verifier (codes "calm") false, value (codes "no")) ∷ []

abbrev rows : List (Option Chars)
rows = some (codes "calm") ∷ none ∷ some (codes "hello") ∷ []

verify_batch_accounts_example :
    (length (verify_batch verifier cached rows).keep ≡ length rows)
    × ((verify_batch verifier cached rows).model_calls
          + (verify_batch verifier cached rows).cache_hits
          + count_if is_null rows
        ≡ length rows)
    × ((verify_batch verifier cached rows).rows_dropped
        ≤ (verify_batch verifier cached rows).model_calls)
verify_batch_accounts_example = verify_batch_accounts verifier cached rows

verify_batch-decide_example :
    get_elem? (verify_batch verifier cached rows).keep 2
    ≡ some (decide verifier yes cached (some (codes "hello")))
verify_batch-decide_example =
    verify_batch-decide verifier yes cached rows 2 (some (codes "hello")) (λ batch. refl) refl

abbrev hits : List ChunkHit
hits =
    record { doc_hash = 5; text = codes "best" }
    ∷ record { doc_hash = 5; text = codes "second" }
    ∷ record { doc_hash = 6; text = codes "other" }
    ∷ []

bucket_candidates_bounded_example :
    (length (bucket_candidates hits 1 1) ≤ 1)
    × All (λ entry. length entry.1 ≤ 1) (bucket_candidates hits 1 1)
bucket_candidates_bounded_example = bucket_candidates_bounded hits 1 1

abbrev hash_of : Chars → ℕ
hash_of text = length text

abbrev chosen : Candidates
chosen = record { evidence = (5, codes "best" ∷ []) ∷ []; indexed = 5 ∷ 6 ∷ [] }

abbrev vectors : List (ℕ × List ℕ)
vectors = (4, 1 ∷ 0 ∷ []) ∷ (5, 1 ∷ 0 ∷ []) ∷ []

abbrev documents : List ℕ
documents = 4 ∷ 5 ∷ []

run_keys_every_text_example :
    (column : List (Option Chars)) × (groups duplicate_rows unindexed_rows : ℕ) × (run whole 1
        hash_of vectors rows
      ≡ some (column, groups, duplicate_rows, unindexed_rows))
    × (map is_null column ≡ map is_null rows)
run_keys_every_text_example = run_keys_every_text whole 1 hash_of vectors rows

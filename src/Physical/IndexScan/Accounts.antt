-- ===== src/Physical/IndexScan/Accounts.antt =====
-- src/physical/index_scan.rs: the rows that the index lets pass, and the counters.
use semcast.Base.{
  ℕ, ◌+◌, ◌≡◌, refl, ap, inl, inr, Bool, true, false, not, ◌||◌, Option, none, some, List, [], ◌∷◌,
  map, length, count_if, is_some, Bool-cases, arith,
}
use semcast.Base.Text.{Chars}
use semcast.Base.Assoc.{nat_key, lookup}
use semcast.Physical.Rank.{contains}
use semcast.Physical.IndexScan.{PrefilterResult, scan_batch}

module _ (doc_hash : Chars → ℕ) (result : PrefilterResult) where
  -- A row passes if it has a text and the index has evidence of it or does not know it.
  abbrev pub passes : Option Chars → Bool
  passes none = false
  passes (some text) =
      is_some (lookup (doc_hash text) result.chunks)
      || not (contains result.indexed (doc_hash text))

  -- The mask keeps the rows whose document survived and those that the index does not know, and no
  -- others; each row is counted as one of the three kinds, and the kept ones are the hits and the
  -- rows that pass through.
  pub scan_batch_accounts :
      (texts : List (Option Chars))
      → ((scan_batch doc_hash result texts).keep ≡ map passes texts)
        × (count_if passes texts
            ≡ (scan_batch doc_hash result texts).index_hits
              + (scan_batch doc_hash result texts).passthrough_rows)
        × ((scan_batch doc_hash result texts).index_hits
              + (scan_batch doc_hash result texts).passthrough_rows
              + (scan_batch doc_hash result texts).rows_pruned
            ≡ length texts)
  unfolding scan_batch
  scan_batch_accounts [] = (refl, refl, refl)
  scan_batch_accounts (none ∷ texts) =
      let (mask, kept, all) = scan_batch_accounts texts in
      (ap (λ r. false ∷ r) mask, kept, ground (arith, all))
  scan_batch_accounts (some text ∷ texts) =
      let (mask, kept, all) = scan_batch_accounts texts in
      elim (Bool-cases (is_some (lookup (doc_hash text) result.chunks))) [
        | inl e ↦ rw e (ap (λ r. true ∷ r) mask, ground (arith, kept), ground (arith, all))
        | inr e ↦ elim (Bool-cases (contains result.indexed (doc_hash text))) [
          | inl f ↦ rw (e, f) (ap (λ r. false ∷ r) mask, ground (arith, kept), ground (arith, all))
          | inr f ↦ rw (e, f) (ap (λ r. true ∷ r) mask, ground (arith, kept), ground (arith, all))
        ]
      ]

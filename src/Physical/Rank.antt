-- ===== src/Physical/Rank.antt =====
-- src/physical/rank.rs: the candidates of a rank and the rows that are kept for scoring. The hash
-- map is an association list in the order of first entry, the set of indexed hashes a list, and
-- `doc_hash` a parameter. A row is its text, or none for NULL.
pub mod Buckets
use semcast.Base.{
  ℕ, suc, ◌+◌, Bool, true, false, not, ◌&&◌, Option, none, some, List, [], ◌∷◌, ◌++◌, length, leb,
  ltb, ◌==◌, if◌then◌else◌, is_some,
}
use semcast.Base.Text.{Chars}
use semcast.Base.Assoc.{nat_key, lookup, insert}

-- A search hit; its chunk index and its score are not read.
pub record ChunkHit : Type 0 where
  pub doc_hash : ℕ
  pub text : Chars

abbrev pub Chunks : Type 0
Chunks = List (ℕ × List Chars)

abbrev pub or_default : Option (List Chars) → List Chars
or_default none = []
or_default (some chunks) = chunks

-- One hit: a further document is skipped once there are enough, and a further chunk of a document.
unfoldable pub add_hit : ℕ → ℕ → ChunkHit → Chunks → Chunks
add_hit candidates chunks_per_doc hit chunks =
    let doc_chunks = or_default (lookup hit.doc_hash chunks) in
    if not (is_some (lookup hit.doc_hash chunks)) && leb candidates (length chunks)
    then chunks
    else if ltb (length doc_chunks) chunks_per_doc
    then insert hit.doc_hash (doc_chunks ++ hit.text ∷ []) chunks
    else insert hit.doc_hash doc_chunks chunks

unfoldable pub bucket_from : ℕ → ℕ → List ChunkHit → Chunks → Chunks
unfolding add_hit
bucket_from candidates chunks_per_doc [] chunks = chunks
bucket_from candidates chunks_per_doc (hit ∷ hits) chunks =
    bucket_from candidates chunks_per_doc hits (add_hit candidates chunks_per_doc hit chunks)

unfoldable pub bucket_candidates : List ChunkHit → ℕ → ℕ → Chunks
unfolding bucket_from
bucket_candidates hits candidates chunks_per_doc = bucket_from candidates chunks_per_doc hits []

pub record Candidates : Type 0 where
  pub evidence : Chunks
  pub indexed : List ℕ

abbrev pub contains : List ℕ → ℕ → Bool
contains [] h = false
contains (x ∷ xs) h = if x == h then true else contains xs h

-- The mask of a batch, and the counters' increases.
pub record Kept : Type 0 where
  pub keep : List Bool
  pub candidate_rows : ℕ
  pub rows_pruned : ℕ
  pub unindexed_rows : ℕ

module _ (doc_hash : Chars → ℕ) (candidates : Candidates) where
  unfoldable pub keep_candidates : List (Option Chars) → Kept
  keep_candidates [] = record { keep = []; candidate_rows = 0; rows_pruned = 0; unindexed_rows = 0 }
  keep_candidates (none ∷ texts) =
      let rest = keep_candidates texts in
      record rest { keep = false ∷ rest.keep; rows_pruned = suc rest.rows_pruned }
  keep_candidates (some text ∷ texts) =
      let rest = keep_candidates texts in
      let hash = doc_hash text in
      if is_some (lookup hash candidates.evidence)
      then record rest { keep = true ∷ rest.keep; candidate_rows = suc rest.candidate_rows }
      else if contains candidates.indexed hash
      then record rest { keep = false ∷ rest.keep; rows_pruned = suc rest.rows_pruned }
      else record rest { keep = false ∷ rest.keep; unindexed_rows = suc rest.unindexed_rows }

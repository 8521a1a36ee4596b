-- ===== src/Physical/Rank/Buckets.antt =====
-- The bounds that src/physical/rank.rs keeps on what a rank reads, and the account of its rows.
use semcast.Base.{
  is_some, ℕ, suc, ◌+◌, ◌≤◌, ◌<◌, ◌≡◌, refl, Bool, true, false, not, ◌&&◌, Option, none, some, List,
  [], ◌∷◌, ◌++◌, length, leb, ltb, arith, All, Bool-cases, inl, inr, length-append, count_if,
}
use semcast.Base.Text.{Chars}
use semcast.Base.Assoc.{nat_key, lookup, insert, ◌=?◌}
use semcast.Physical.Rank.{
  ChunkHit, Chunks, or_default, add_hit, bucket_from, bucket_candidates, Candidates, contains,
  keep_candidates,
}

length-insert :
    (k : ℕ) (v : List Chars) (m : Chunks)
    → (length (insert k v m) ≤ suc (length m))
      × (is_some (lookup k m) ≡ true → length (insert k v m) ≡ length m)
unfolding insert lookup
length-insert k v [] = (omega arith, λ h. absurd (cc))
length-insert k v ((j, w) ∷ m) = elim (Bool-cases (j =? k)) [
  | inl e ↦ rw (e, insert, lookup) (omega arith, λ h. refl)
  | inr e ↦
      let ih = length-insert k v m in
      rw (e, insert, lookup) (omega (arith, ih.0), λ h. omega (arith, ih.1 h))
]

module _ (candidates chunks_per_doc : ℕ) where
  abbrev Small : ℕ × List Chars → Type 0
  Small entry = length entry.1 ≤ chunks_per_doc

  insert-Small :
      (k : ℕ) (v : List Chars) (m : Chunks)
      → length v ≤ chunks_per_doc
      → All Small m
      → All Small (insert k v m)
  unfolding insert
  insert-Small k v [] h a = (h, tt)
  insert-Small k v ((j, w) ∷ m) h a = elim (Bool-cases (j =? k)) [
    | inl e ↦ rw (e, insert) (h, a.1)
    | inr e ↦ rw (e, insert) (a.0, insert-Small k v m h a.1)
  ]

  lookup-Small :
      (k : ℕ) (m : Chunks) → All Small m → length (or_default (lookup k m)) ≤ chunks_per_doc
  unfolding lookup
  lookup-Small k [] a = omega arith
  lookup-Small k ((j, w) ∷ m) a = elim (Bool-cases (j =? k)) [
    | inl e ↦ rw (e, lookup) a.0
    | inr e ↦ rw (e, lookup) (lookup-Small k m a.1)
  ]

  insert-bounded :
      (k : ℕ) (v : List Chars) (m : Chunks)
      → (not (is_some (lookup k m)) && leb candidates (length m)) ≡ false
      → length m ≤ candidates
      → length (insert k v m) ≤ candidates
  insert-bounded k v m e l = elim (Bool-cases (is_some (lookup k m))) [
    | inl s ↦ let r = (length-insert k v m).1 s in omega (arith, r)
    | inr s ↦
        let r = (length-insert k v m).0 in
        let t : length m < candidates = ground arith in omega (arith, r)
  ]

  add_hit-bounded :
      (hit : ChunkHit) (m : Chunks)
      → length m ≤ candidates
      → All Small m
      → (length (add_hit candidates chunks_per_doc hit m) ≤ candidates)
        × All Small (add_hit candidates chunks_per_doc hit m)
  unfolding add_hit
  add_hit-bounded hit m l a =
      let k = hit.doc_hash in
      let d = or_default (lookup k m) in
      elim (Bool-cases (not (is_some (lookup k m)) && leb candidates (length m))) [
        | inl e ↦ rw (e, add_hit) (l, a)
        | inr e ↦ elim (Bool-cases (ltb (length d) chunks_per_doc)) [
          | inl s ↦
              let few : length (d ++ hit.text ∷ []) ≤ chunks_per_doc =
                let r = length-append d (hit.text ∷ []) in ground (arith, r) in
              rw (e, s, add_hit)
                (
                  insert-bounded k (d ++ hit.text ∷ []) m e l,
                  insert-Small k (d ++ hit.text ∷ []) m few a,
                )
          | inr s ↦
              rw (e, s, add_hit)
                (insert-bounded k d m e l, insert-Small k d m (lookup-Small k m a) a)
        ]
      ]

  bucket_from-bounded :
      (hits : List ChunkHit) (m : Chunks)
      → length m ≤ candidates
      → All Small m
      → (length (bucket_from candidates chunks_per_doc hits m) ≤ candidates)
        × All Small (bucket_from candidates chunks_per_doc hits m)
  unfolding bucket_from
  bucket_from-bounded [] m l a = (l, a)
  bucket_from-bounded (hit ∷ hits) m l a =
      let (p, q) = add_hit-bounded hit m l a in
      bucket_from-bounded hits (add_hit candidates chunks_per_doc hit m) p q

-- Whatever the hits, no more documents than asked for become candidates, and none has more chunks
-- than a document may have.
pub bucket_candidates_bounded :
    (hits : List ChunkHit) (candidates chunks_per_doc : ℕ)
    → (length (bucket_candidates hits candidates chunks_per_doc) ≤ candidates)
      × All
          (λ entry. length entry.1 ≤ chunks_per_doc)
          (bucket_candidates hits candidates chunks_per_doc)
unfolding bucket_candidates
bucket_candidates_bounded hits candidates chunks_per_doc =
    bucket_from-bounded candidates chunks_per_doc hits [] (omega arith) tt

abbrev pub kept : Bool → Bool
kept b = b

-- Each row of a batch is kept as a candidate, pruned or counted as unindexed, and the mask keeps as
-- many rows as there are candidates' rows.
pub keep_candidates_accounts :
    (doc_hash : Chars → ℕ) (candidates : Candidates) (texts : List (Option Chars))
    → (length (keep_candidates doc_hash candidates texts).keep ≡ length texts)
      × (count_if kept (keep_candidates doc_hash candidates texts).keep
          ≡ (keep_candidates doc_hash candidates texts).candidate_rows)
      × ((keep_candidates doc_hash candidates texts).candidate_rows
            + (keep_candidates doc_hash candidates texts).rows_pruned
            + (keep_candidates doc_hash candidates texts).unindexed_rows
          ≡ length texts)
unfolding keep_candidates
keep_candidates_accounts doc_hash candidates [] = (refl, refl, refl)
keep_candidates_accounts doc_hash candidates (none ∷ texts) =
    let (a, b, c) = keep_candidates_accounts doc_hash candidates texts in
    (omega arith, b, omega arith)
keep_candidates_accounts doc_hash candidates (some text ∷ texts) =
    let (a, b, c) = keep_candidates_accounts doc_hash candidates texts in
    elim (Bool-cases (is_some (lookup (doc_hash text) candidates.evidence))) [
      | inl e ↦ rw (e, keep_candidates) (omega arith, omega arith, omega arith)
      | inr e ↦ elim (Bool-cases (contains candidates.indexed (doc_hash text))) [
        | inl s ↦ rw (e, s, keep_candidates) (omega arith, b, omega arith)
        | inr s ↦ rw (e, s, keep_candidates) (omega arith, b, omega arith)
      ]
    ]

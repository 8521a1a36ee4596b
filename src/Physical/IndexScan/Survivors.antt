-- ===== src/Physical/IndexScan/Survivors.antt =====
-- src/physical/index_scan.rs: which documents have evidence after the floor is applied.
use semcast.Base.{
  ℕ, ◌≡◌, refl, ap, sym, ◌∙◌, inl, inr, Bool, true, false, ◌||◌, ◌&&◌, Option, none, some, List, [],
  ◌∷◌, ◌++◌, length, is_some, if◌then◌else◌, Bool-cases, arith, ltb, some_is_none, ==_iff, ◌==◌,
}
use semcast.Base.Text.{Chars}
use semcast.Base.Float.{Float}
use semcast.Base.Assoc.{nat_key, lookup, insert, lookup-insert, ◌=?◌}
use semcast.Optimizer.Calibrate.{Reals}
use semcast.Physical.Rank.{Chunks, or_default}
use semcast.Physical.IndexScan.{ScoredHit, bucket_hits, bucket_chunks, best_from, retain, clears}
use semcast.Physical.IndexScan.Calibrated.{learn, with_score, score_of}

-- Whether a map has a key.
abbrev pub has {ℓ} : {V : Type ℓ} → ℕ → List (ℕ × V) → Bool
has h m = is_some (lookup h m)

has-insert {ℓ} :
    {V : Type ℓ} (k h : ℕ) (v : V) (m : List (ℕ × V)) → has h (insert k v m) ≡ (k == h || has h m)
has-insert k h v m = elim (Bool-cases (k =? h)) [
  | inl e ↦ ap is_some (lookup-insert k h v m) ∙ rw e refl
  | inr e ↦ ap is_some (lookup-insert k h v m) ∙ rw e refl
]

has_cons {ℓ} :
    {V : Type ℓ} (k h : ℕ) (v : V) (m : List (ℕ × V)) → has h ((k, v) ∷ m) ≡ (k == h || has h m)
unfolding lookup
has_cons k h v m = elim (Bool-cases (k == h)) [ inl e ↦ rw e refl | inr e ↦ rw e refl ]

pub has-retain :
    (p : ℕ → Bool) (h : ℕ) (chunks : Chunks) → has h (retain p chunks) ≡ (p h && has h chunks)
unfolding retain lookup
has-retain p h [] = ground arith
has-retain p h ((k, v) ∷ chunks) =
    let same : (k == h) ≡ true → p k ≡ p h = λ e. ap p ((==_iff k h).0 e) in
    let rest = has-retain p h chunks in
    elim (Bool-cases (p k)) [
      | inl e ↦
          rw e (
            has_cons k h v (retain p chunks) ∙ ground (arith, rest, e, same, has_cons k h v chunks))
      | inr e ↦ rw e (ground (arith, rest, e, same, has_cons k h v chunks))
    ]

known_key {ℓ} :
    {V : Type ℓ} (k h : ℕ) (m : List (ℕ × V)) → has k m ≡ true → (k == h || has h m) ≡ has h m
known_key k h m e =
    let same : (k == h) ≡ true → has h m ≡ true =
      λ q. ap (λ x. has x m) (sym ((==_iff k h).0 q)) ∙ e in
    ground (arith, same)

some_injective {ℓ} : {A : Type ℓ} {a b : A} → some a ≡ some b → a ≡ b
some_injective e = cc

-- The buckets and the best scores have the same documents.
bucket-best :
    {F : Type 0} (hits : List (ScoredHit F)) (n : ℕ) (chunks : Chunks) (best : List (ℕ × F))
    → ((h : ℕ) → has h chunks ≡ has h best)
    → (h : ℕ) → has h (bucket_hits hits n chunks) ≡ has h (best_from hits best)
unfolding bucket_hits best_from
bucket-best [] n chunks best same h = same h
bucket-best (hit ∷ hits) n chunks best same h =
    let more =
      if ltb (length (or_default (lookup hit.doc_hash chunks))) n
      then or_default (lookup hit.doc_hash chunks) ++ hit.text ∷ []
      else or_default (lookup hit.doc_hash chunks) in
    elim (Bool-cases (has hit.doc_hash best)) [
      | inl e ↦ rw e (
          bucket-best hits n (insert hit.doc_hash more chunks) best
            (λ j.
              has-insert hit.doc_hash j more chunks
              ∙ ap (λ b. hit.doc_hash == j || b) (same j)
              ∙ known_key hit.doc_hash j best e)
            h)
      | inr e ↦ rw e (
          bucket-best hits n (insert hit.doc_hash more chunks) (insert hit.doc_hash hit.score best)
            (λ j.
              has-insert hit.doc_hash j more chunks
              ∙ ap (λ b. hit.doc_hash == j || b) (same j)
              ∙ sym (has-insert hit.doc_hash j hit.score best))
            h)
    ]

module _ (float : Float) (real : Reals float.F) (Embedding : Type 0)
    (fit : List (Embedding × Bool) → Option (Embedding → Option float.F))
    (doc_hash : Chars → ℕ) where
  scored_has :
      (k h : ℕ) (old : float.F) (o : Option float.F) (rest : Option (List (ℕ × float.F)))
      (best learned : List (ℕ × float.F))
      → ((l : List (ℕ × float.F)) → rest ≡ some l → has h l ≡ has h best)
      → with_score float real Embedding fit doc_hash k o rest ≡ some learned
      → has h learned ≡ has h ((k, old) ∷ best)
  scored_has k h old none rest best learned ih done = absurd (some_is_none (sym done))
  scored_has k h old (some s) none best learned ih done = absurd (some_is_none (sym done))
  scored_has k h old (some s) (some l) best learned ih done =
      ap (has h) (sym (some_injective done))
      ∙ has_cons k h s l
      ∙ ap (λ b. k == h || b) (ih l refl)
      ∙ sym (has_cons k h old best)

  -- A learned proxy judges the same documents.
  pub learn-has :
      (proxy : Embedding → Option float.F) (vectors : List (ℕ × Embedding))
      (best learned : List (ℕ × float.F))
      → learn float real Embedding fit doc_hash proxy vectors best ≡ some learned
      → (h : ℕ) → has h learned ≡ has h best
  unfolding learn
  learn-has proxy vectors [] learned done h = ap (has h) (sym (some_injective done))
  learn-has proxy vectors ((k, score) ∷ best) learned done h =
      scored_has k h score (score_of float real Embedding fit doc_hash proxy (lookup k vectors))
        (learn float real Embedding fit doc_hash proxy vectors best) best learned
        (λ l q. learn-has proxy vectors best l q h) done

module _ (float : Float) (real : Reals float.F) where
  score_clears :
      (floor : float.F) (o : Option float.F)
      → ((elim o [ none ↦ false | some score ↦ float.ge score floor ]) && is_some o)
        ≡ (elim o [ none ↦ false | some score ↦ float.ge score floor ])
  score_clears floor none = refl
  score_clears floor (some score) = ground arith

  -- A document has evidence exactly if it has a score that clears the floor.
  pub survivors :
      (hits : List (ScoredHit float.F)) (n : ℕ) (scores : List (ℕ × float.F)) (floor : float.F)
      → ((h : ℕ) → has h scores ≡ has h (best_from hits []))
      → (h : ℕ)
      → has h (retain (clears float real scores floor) (bucket_chunks hits n))
        ≡ clears float real scores floor h
  unfolding bucket_chunks lookup
  survivors hits n scores floor same h =
      let known = bucket-best hits n [] [] (λ j. refl) h in
      has-retain (clears float real scores floor) h (bucket_chunks hits n)
      ∙ ap (λ b. clears float real scores floor h && b) (known ∙ sym (same h))
      ∙ score_clears floor (lookup h scores)

-- ===== src/Physical/IndexScan/Recall.antt =====
-- src/physical/index_scan.rs: what the calibrated floor reports, against the rows that the scan keeps.
use semcast.Base.{
  ℕ, suc, ◌+◌, ◌≡◌, ◌≤◌, refl, ap, sym, ◌∙◌, Bool, true, false, ◌&&◌, Option, none, some, List, [],
  ◌∷◌, length, Ordering, count_if, if◌then◌else◌, arith,
}
use Prim.Native.Nat.{lt, eq, gt}
use semcast.Base.Text.{Chars}
use semcast.Base.Float.{Float}
use semcast.Base.Assoc.{nat_key, lookup}
use semcast.Optimizer.Calibrate.{Reals, SampledScores, recall_at, sort_desc, insert_desc}
use semcast.Physical.Rank.{contains}
use semcast.Physical.IndexScan.{
  Label, PrefilterResult, clears, tally, no_scores, add_label, score_labels,
}
use semcast.Physical.IndexScan.Accounts.{passes}
use semcast.Physical.IndexScan.Survivors.{has}

-- A document that the model says matches.
abbrev pub matched : Label → Bool
matched (text, some true) = true
matched (text, some false) = false
matched (text, none) = false

module _ (float : Float) (p : float.F → Bool) where
  count_placed :
      (o : Ordering) (x y : float.F) (ys rest : List float.F)
      → count_if p rest ≡ count_if p (x ∷ ys)
      → count_if p (elim o [ gt ↦ y ∷ rest | _ ↦ x ∷ y ∷ ys ]) ≡ count_if p (x ∷ y ∷ ys)
  count_placed lt x y ys rest e = refl
  count_placed eq x y ys rest e = refl
  count_placed gt x y ys rest e = ground (arith, e)

  count-insert_desc :
      (x : float.F) (xs : List float.F) → count_if p (insert_desc float x xs) ≡ count_if p (x ∷ xs)
  unfolding insert_desc
  count-insert_desc x [] = refl
  count-insert_desc x (y ∷ ys) =
      count_placed (float.total_cmp y x) x y ys (insert_desc float x ys) (count-insert_desc x ys)

  count-sort_desc : (xs : List float.F) → count_if p (sort_desc float xs) ≡ count_if p xs
  unfolding sort_desc
  count-sort_desc [] = refl
  count-sort_desc (x ∷ xs) =
      count-insert_desc x (sort_desc float xs)
      ∙ ap (λ n. if p x then suc n else n) (count-sort_desc xs)

length_count : {A : Type 0} (xs : List A) → length xs ≡ count_if (λ x. true) xs
length_count [] = refl
length_count (x ∷ xs) = ap suc (length_count xs)

module _ (float : Float) (real : Reals float.F) (doc_hash : Chars → ℕ)
    (result : PrefilterResult) where
  -- A match that the scan keeps.
  abbrev pub kept : Label → Bool
  kept l = matched l && passes doc_hash result (some l.0)

  -- The scores count at most so many kept matches, and at least so many matches.
  Counted : float.F → SampledScores float.F → ℕ → ℕ → Type 0
  Counted floor s k m =
      (count_if (λ score. float.ge score floor) s.positive_scores + s.positive_unindexed ≤ k)
      × (m ≤ length s.positive_scores + s.positive_unindexed + s.positive_lost)

  add_label-Counted :
      (text : Chars) (label : Option Bool) (o : Option float.F) (known pass : Bool)
      (floor : float.F) (s : SampledScores float.F) (k m : ℕ)
      → ((score : float.F) → o ≡ some score → float.ge score floor ≡ true → pass ≡ true)
      → (known ≡ false → pass ≡ true)
      → Counted floor s k m
      → Counted floor
          (add_label float real label o known s)
          (if matched (text, label) && pass then suc k else k)
          (if matched (text, label) then suc m else m)
  unfolding Counted
  add_label-Counted text none none true pass floor s k m scored new c = (c.0, ground (arith, c.1))
  add_label-Counted text none none false pass floor s k m scored new c = c
  add_label-Counted text none (some x) known pass floor s k m scored new c = c
  add_label-Counted text (some false) o known pass floor s k m scored new c = c
  add_label-Counted text (some true) none true pass floor s k m scored new c =
      (ground (arith, c.0), ground (arith, c.1))
  add_label-Counted text (some true) none false pass floor s k m scored new c =
      (ground (arith, c.0, new refl), ground (arith, c.1))
  add_label-Counted text (some true) (some x) known pass floor s k m scored new c =
      (ground (arith, c.0, scored x refl), ground (arith, c.1))

  cleared :
      (floor score : float.F) (o : Option float.F)
      → o ≡ some score
      → float.ge score floor ≡ true
      → (elim o [ none ↦ false | some s ↦ float.ge s floor ]) ≡ true
  cleared floor score o e g = ap (λ x. elim x [ none ↦ false | some s ↦ float.ge s floor ]) e ∙ g

  tally-Counted :
      (scores : List (ℕ × float.F)) (floor : float.F) (labels : List Label) (sampled : ℕ)
      → ((h : ℕ) → has h result.chunks ≡ clears float real scores floor h)
      → Counted floor
          (tally float real doc_hash scores result.indexed labels (no_scores float real sampled))
          (count_if kept labels)
          (count_if matched labels)
  unfolding tally Counted
  tally-Counted scores floor [] sampled same = (ground arith, ground arith)
  tally-Counted scores floor ((text, label) ∷ labels) sampled same =
      let h = doc_hash text in
      add_label-Counted text label (lookup h scores) (contains result.indexed h)
        (passes doc_hash result (some text)) floor
        (tally float real doc_hash scores result.indexed labels (no_scores float real sampled))
        (count_if kept labels) (count_if matched labels)
        (λ score e g. ground (arith, same h, cleared floor score (lookup h scores) e g))
        (λ e. ground (arith, e)) (tally-Counted scores floor labels sampled same)

  -- The recall that is counted at a floor does not overstate: it counts no more matches as kept than
  -- the scan keeps, and no fewer in all than there are.
  pub recall-Counted :
      (scores : List (ℕ × float.F)) (floor : float.F) (labels : List Label)
      → ((h : ℕ) → has h result.chunks ≡ clears float real scores floor h)
      → (let s = score_labels float real doc_hash labels scores result.indexed in
          let r = recall_at float real floor (sort_desc float s.positive_scores) s in
          (r.0 ≤ count_if kept labels) × (count_if matched labels ≤ r.1))
  unfolding score_labels recall_at Counted
  recall-Counted scores floor labels same =
      let s = score_labels float real doc_hash labels scores result.indexed in
      let c = tally-Counted scores floor labels (length labels) same in
      let above = count-sort_desc float (λ score. float.ge score floor) s.positive_scores in
      let all =
        length_count (sort_desc float s.positive_scores)
        ∙ count-sort_desc float (λ score. true) s.positive_scores
        ∙ sym (length_count s.positive_scores) in
      (ground (arith, above, c.0), ground (arith, all, c.1))

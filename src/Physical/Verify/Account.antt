-- ===== src/Physical/Verify/Account.antt =====
-- Every row of a batch of src/physical/verify.rs is accounted for in the counters.
use semcast.Base.{
  ℕ, suc, ◌+◌, ◌≤◌, ◌≡◌, refl, ◌∙◌, Bool, true, false, Option, none, some, List, [], ◌∷◌, length,
  arith, count_if, length-set,
}
use semcast.Base.Text.{Chars}
use semcast.Model.{Result, Completion}
use semcast.Cache.{CachedValue, value, error, Entries}
use semcast.Physical.Verify.{
  Verifier, Verified, Scan, sent, scan_row, scan, verdict_of, settle_row, settle, verify_batch,
}

abbrev pub is_null : Option Chars → Bool
is_null none = true
is_null (some text) = false

module _ (v : Verifier) where
  -- What the first pass counts of `n` rows, `nulls` of them without a text.
  abbrev pub Counted : ℕ → ℕ → Scan → Type 0
  Counted n nulls s =
      (length s.keep ≡ n)
      × (length s.requests + s.hits + nulls ≡ n)
      × (length s.pending ≡ length s.requests)

  scan_row-Counted :
      (hit : Option CachedValue) (row n nulls : ℕ) (s : Chars × Bool) (rest : Scan)
      → Counted n nulls rest
      → Counted (suc n) nulls (scan_row v hit row s rest)
  scan_row-Counted none row n nulls s rest h = (omega arith, omega arith, omega arith)
  scan_row-Counted (some (value verdict)) row n nulls s rest h =
      (omega arith, omega arith, omega arith)
  scan_row-Counted (some (error e)) row n nulls s rest h = (omega arith, omega arith, omega arith)

  pub scan-Counted :
      (cache : Entries) (row : ℕ) (texts : List (Option Chars))
      → Counted (length texts) (count_if is_null texts) (scan v cache row texts)
  unfolding scan
  scan-Counted cache row [] = (refl, refl, refl)
  scan-Counted cache row (none ∷ texts) =
      let h = scan-Counted cache (suc row) texts in (omega arith, omega arith, omega arith)
  scan-Counted cache row (some text ∷ texts) =
      scan_row-Counted _ row (length texts) (count_if is_null texts) (sent v text) _
        (scan-Counted cache (suc row) texts)

  pub settle_row_lem :
      (p : ℕ × Chars × Bool) (o : Option Bool) (st : Verified)
      → (length (settle_row v p o st).keep ≡ length st.keep)
        × ((settle_row v p o st).model_calls ≡ st.model_calls)
        × ((settle_row v p o st).cache_hits ≡ st.cache_hits)
        × ((settle_row v p o st).rows_dropped ≤ suc st.rows_dropped)
  settle_row_lem p none st = (refl, refl, refl, omega arith)
  settle_row_lem p (some matched) st = (length-set st.keep p.0 matched, refl, refl, omega arith)

  settle_lem :
      (pending : List (ℕ × Chars × Bool)) (verdicts : List (Result Completion)) (st : Verified)
      → (length (settle v pending verdicts st).keep ≡ length st.keep)
        × ((settle v pending verdicts st).model_calls ≡ st.model_calls)
        × ((settle v pending verdicts st).cache_hits ≡ st.cache_hits)
        × ((settle v pending verdicts st).rows_dropped ≤ st.rows_dropped + length pending)
  unfolding settle
  settle_lem [] verdicts st = (refl, refl, refl, omega arith)
  settle_lem (p ∷ ps) [] st = (refl, refl, refl, omega arith)
  settle_lem (p ∷ ps) (r ∷ rs) st =
      let (a, b, c, d) = settle_row_lem p (verdict_of v r) st in
      let (e, f, g, h) = settle_lem ps rs (settle_row v p (verdict_of v r) st) in
      (e ∙ a, f ∙ b, g ∙ c, omega arith)

  -- Whatever the model answers, the mask has one entry for each row; each row is either NULL, a
  -- cache hit or a model call; and no more rows are dropped than were asked.
  pub verify_batch_accounts :
      (cache : Entries) (rows : List (Option Chars))
      → (length (verify_batch v cache rows).keep ≡ length rows)
        × ((verify_batch v cache rows).model_calls
              + (verify_batch v cache rows).cache_hits
              + count_if is_null rows
            ≡ length rows)
        × ((verify_batch v cache rows).rows_dropped ≤ (verify_batch v cache rows).model_calls)
  unfolding verify_batch
  verify_batch_accounts cache [] = (refl, refl, omega arith)
  verify_batch_accounts cache (r ∷ rows) =
      let s = scan v cache 0 (r ∷ rows) in
      let (k, c, p) = scan-Counted cache 0 (r ∷ rows) in
      let (a, b, d, e) = settle_lem s.pending (v.complete s.requests) _ in
      (a ∙ k, omega arith, omega arith)

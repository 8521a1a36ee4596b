-- ===== src/Physical/Verify/Verdicts.antt =====
-- Which rows src/physical/verify.rs keeps, row by row.
use semcast.Base.{
  ℕ, zero, suc, ◌+◌, ◌≤◌, ◌<◌, ◌≡◌, refl, sym, ap, subst, ◌∙◌, ◌⊎◌, inl, inr, Bool, false, Option,
  none, some, List, [], ◌∷◌, length, set, map, arith, get_elem?, get_or, ◌==◌, ==_iff, Bool-cases,
  get_elem?-set_self, get_elem?-set_ne,
}
use mathlib.Core.List.{Memᴰ}
use mathlib.Core.List.Memᴰ.{head, tail}
use semcast.Base.Text.{Chars, codes}
use semcast.Base.Assoc.{chars_beq}
use semcast.Model.{Result, CompletionRequest, Completion}
use semcast.Cache.{CachedValue, value, error, Entries, get}
use semcast.Physical.Verify.{
  Verifier, Verified, Scan, sent, cache_key, request_of, scan_row, scan, verdict_of, settle_row,
  settle, verify_batch,
}
use semcast.Physical.Verify.Account.{settle_row_lem, scan-Counted}

abbrev pub kept_if : Option Bool → Bool
kept_if none = false
kept_if (some matched) = matched

-- The row numbers that wait for a verdict.
abbrev rows_of : List (ℕ × Chars × Bool) → List ℕ
rows_of [] = []
rows_of (p ∷ ps) = p.0 ∷ rows_of ps

module _ (v : Verifier) (answer : CompletionRequest → Result Completion) (cache : Entries) where
  abbrev pub decide_by : Option CachedValue → Chars × Bool → Bool
  decide_by (some (value verdict)) s = chars_beq verdict (codes "yes")
  decide_by _ s = kept_if (verdict_of v (answer (request_of v s)))

  -- A NULL row is not kept; the cached verdict on what is sent decides, or else the model's.
  unfoldable pub decide : Option Chars → Bool
  decide none = false
  decide (some text) =
      decide_by (get (cache_key v (sent v text).0 (sent v text).1) cache) (sent v text)

  module _ (due : ℕ → Bool) where
    abbrev Due : ℕ → List (ℕ × Chars × Bool) → List (Result Completion) → Type 0
    Due n [] [] = Unit
    Due n [] (r ∷ rs) = ⊥
    Due n (p ∷ ps) [] = ⊥
    Due n (p ∷ ps) (r ∷ rs) = ((p.0 < n) × (kept_if (verdict_of v r) ≡ due p.0)) × Due n ps rs

    -- The row's entry is right, or waits as false.
    abbrev Right : ℕ → ℕ → List ℕ → List Bool → Type 0
    Right i j waiting keep =
        (get_elem? keep j ≡ some (due i)) ⊎ (Memᴰ i waiting × (get_elem? keep j ≡ some false))

    settle_row-Right :
        (p : ℕ × Chars × Bool) (waiting : List ℕ) (o : Option Bool) (st : Verified) (i : ℕ)
        → p.0 < length st.keep
        → kept_if o ≡ due p.0
        → Right i i (p.0 ∷ waiting) st.keep
        → Right i i waiting (settle_row v p o st).keep
    settle_row-Right p waiting none st i l e (inl h) = inl h
    settle_row-Right p waiting none st i l e (inr (head q, f)) =
        inl (f ∙ ap some (e ∙ ap due (sym q)))
    settle_row-Right p waiting none st i l e (inr (tail m, f)) = inr (m, f)
    settle_row-Right p waiting (some b) st i l e h = elim (Bool-cases (p.0 == i)) [
      | inl q ↦ inl (
          subst (λ k. get_elem? (set st.keep p.0 b) k ≡ some (due k)) ((==_iff p.0 i).0 q)
            (get_elem?-set_self st.keep p.0 b l ∙ ap some e))
      | inr q ↦
          let ne : get_elem? (set st.keep p.0 b) i ≡ get_elem? st.keep i =
            get_elem?-set_ne st.keep p.0 i b (ground arith) in
          elim h [
            | inl d ↦ inl (ne ∙ d)
            | inr (head s, f) ↦ absurd (ground arith)
            | inr (tail m, f) ↦ inr (m, ne ∙ f)
          ]
    ]

    settle-Right :
        (pending : List (ℕ × Chars × Bool)) (verdicts : List (Result Completion)) (st : Verified)
        (i : ℕ)
        → Due (length st.keep) pending verdicts
        → Right i i (rows_of pending) st.keep
        → get_elem? (settle v pending verdicts st).keep i ≡ some (due i)
    unfolding settle
    settle-Right [] [] st i d (inl h) = h
    settle-Right [] [] st i d (inr h) = elim h.0 [ ]
    settle-Right [] (r ∷ rs) st i d h = absurd d
    settle-Right (p ∷ ps) [] st i d h = absurd d
    settle-Right (p ∷ ps) (r ∷ rs) st i d h =
        settle-Right ps rs (settle_row v p (verdict_of v r) st) i
          (subst (λ n. Due n ps rs) (sym (settle_row_lem v p (verdict_of v r) st).0) d.1)
          (settle_row-Right p (rows_of ps) (verdict_of v r) st i d.0.0 d.0.1 h)

    -- The due values of the rows from a row on.
    abbrev Agrees : ℕ → List (Option Chars) → Type 0
    Agrees row [] = Unit
    Agrees row (t ∷ texts) = (decide t ≡ due row) × Agrees (suc row) texts

    scan_row-Due :
        (hit : Option CachedValue) (n row : ℕ) (s : Chars × Bool) (rest : Scan)
        → row < n
        → decide_by hit s ≡ due row
        → Due n rest.pending (map answer rest.requests)
        → Due n
            (scan_row v hit row s rest).pending
            (map answer (scan_row v hit row s rest).requests)
    scan_row-Due none n row s rest l e d = ((l, e), d)
    scan_row-Due (some (value verdict)) n row s rest l e d = d
    scan_row-Due (some (error x)) n row s rest l e d = ((l, e), d)

    scan-Due :
        (n row : ℕ) (texts : List (Option Chars))
        → row + length texts ≤ n
        → Agrees row texts
        → Due n (scan v cache row texts).pending (map answer (scan v cache row texts).requests)
    unfolding scan decide
    scan-Due n row [] l a = tt
    scan-Due n row (none ∷ texts) l a = scan-Due n (suc row) texts (omega arith) a.1
    scan-Due n row (some text ∷ texts) l a =
        scan_row-Due _ n row (sent v text) _ (omega arith) a.0
          (scan-Due n (suc row) texts (omega arith) a.1)

    scan_row-Right_here :
        (hit : Option CachedValue) (row : ℕ) (s : Chars × Bool) (rest : Scan)
        → decide_by hit s ≡ due row
        → Right row 0 (rows_of (scan_row v hit row s rest).pending) (scan_row v hit row s rest).keep
    scan_row-Right_here none row s rest e = inr (head refl, refl)
    scan_row-Right_here (some (value verdict)) row s rest e = inl (ap some e)
    scan_row-Right_here (some (error x)) row s rest e = inr (head refl, refl)

    scan_row-Right_later :
        (hit : Option CachedValue) (row : ℕ) (s : Chars × Bool) (rest : Scan) (i j : ℕ)
        → Right i j (rows_of rest.pending) rest.keep
        → Right i
            (suc j)
            (rows_of (scan_row v hit row s rest).pending)
            (scan_row v hit row s rest).keep
    scan_row-Right_later none row s rest i j (inl h) = inl h
    scan_row-Right_later none row s rest i j (inr h) = inr (tail h.0, h.1)
    scan_row-Right_later (some (value verdict)) row s rest i j h = h
    scan_row-Right_later (some (error x)) row s rest i j (inl h) = inl h
    scan_row-Right_later (some (error x)) row s rest i j (inr h) = inr (tail h.0, h.1)

    scan-Right :
        (row : ℕ) (texts : List (Option Chars)) (i j : ℕ)
        → i ≡ row + j
        → j < length texts
        → Agrees row texts
        → Right i j (rows_of (scan v cache row texts).pending) (scan v cache row texts).keep
    unfolding scan decide
    scan-Right row [] i j q l a = absurd (omega arith)
    scan-Right row (none ∷ texts) i zero q l a =
        let r : row ≡ i = omega arith in inl (ap some (a.0 ∙ ap due r))
    scan-Right row (none ∷ texts) i (suc j) q l a =
        scan-Right (suc row) texts i j (omega arith) (omega arith) a.1
    scan-Right row (some text ∷ texts) i zero q l a =
        let r : row ≡ i = omega arith in
        subst
          (λ k.
            Right k 0 (rows_of (scan v cache row (some text ∷ texts)).pending)
              (scan v cache row (some text ∷ texts)).keep)
          r (scan_row-Right_here _ row (sent v text) _ a.0)
    scan-Right row (some text ∷ texts) i (suc j) q l a =
        scan_row-Right_later _ row (sent v text) _ i j
          (scan-Right (suc row) texts i j (omega arith) (omega arith) a.1)

  Agrees-get :
      (all : List (Option Chars)) (row : ℕ) (texts : List (Option Chars))
      → ((j : ℕ) → decide (get_or texts j none) ≡ decide (get_or all (row + j) none))
      → Agrees (λ i. decide (get_or all i none)) row texts
  Agrees-get all row [] h = tt
  Agrees-get all row (t ∷ texts) h =
      let z : row + 0 ≡ row = omega arith in
      (
        h 0 ∙ ap (λ i. decide (get_or all i none)) z,
        Agrees-get all (suc row) texts (λ j.
            let s : row + suc j ≡ suc row + j = omega arith in
            h (suc j) ∙ ap (λ i. decide (get_or all i none)) s),
      )

get_or-in_range {ℓ} :
    {A : Type ℓ} (d : A) (xs : List A) (i : ℕ) (x : A)
    → get_elem? xs i ≡ some x
    → (i < length xs) × (get_or xs i d ≡ x)
get_or-in_range d [] i x h = absurd (ground arith)
get_or-in_range d (y ∷ xs) zero x h = ground arith
get_or-in_range d (y ∷ xs) (suc i) x h = let (p, q) = get_or-in_range d xs i x h in (omega arith, q)

-- When the model answers a request by itself, a row is kept exactly if it has a text and the cached
-- verdict on what is sent for it is yes or, without one, the model's answer reads as yes.
pub verify_batch-decide :
    (v : Verifier) (answer : CompletionRequest → Result Completion) (cache : Entries)
    (rows : List (Option Chars)) (i : ℕ) (row : Option Chars)
    → ((batch : List CompletionRequest) → v.complete batch ≡ map answer batch)
    → get_elem? rows i ≡ some row
    → get_elem? (verify_batch v cache rows).keep i ≡ some (decide v answer cache row)
unfolding verify_batch
verify_batch-decide v answer cache [] i row w h = absurd (ground arith)
verify_batch-decide v answer cache (r ∷ rows) i row w h =
    let all = r ∷ rows in
    let due : ℕ → Bool = λ j. decide v answer cache (get_or all j none) in
    let (l, e) = get_or-in_range none all i row h in
    let a =
      Agrees-get v answer cache all 0 all (λ j. let z : j ≡ 0 + j = omega arith in ap due z) in
    let s = scan v cache 0 all in
    let k = (scan-Counted v cache 0 all).0 in
    settle-Right v answer cache due s.pending (v.complete s.requests) _ i
      (subst (Due v answer cache due (length s.keep) s.pending) (sym (w s.requests))
        (scan-Due v answer cache due (length s.keep) 0 all (omega arith) a))
      (scan-Right v answer cache due 0 all i i (omega arith) l a)
    ∙ ap (λ t. some (decide v answer cache t)) e

-- ===== src/Physical/Distinct/Groups.antt =====
-- The keys of src/physical/distinct.rs exist for every row with a text, and the counters add up.
use semcast.Base.{
  zero, ◌<◌, get_elem?, get_elem?-get_or, some_is_none, subst, All, is_some, sym, suc, ◌++◌,
  Option-cases, true_is_false, ℕ, ◌+◌, ◌≡◌, refl, ap, ◌∙◌, true, false, Option, none, some, List,
  [], ◌∷◌, map, length, get_or, ◌==◌, arith, Bool-cases, inl, inr,
}
use semcast.Base.Text.{Chars}
use semcast.Base.Float.{Float}
use semcast.Base.Assoc.{nat_key, lookup}
use semcast.Index.Dedupe.Groups.{greedy_groups_total, greedy_groups-Survives}
use semcast.Physical.Rank.{contains}
use semcast.Physical.Verify.Account.{is_null}
use semcast.Physical.Distinct.{
  Keys, add_key, add_pair, pair_keys, gather, vectors_of, group_keys, keys_of, with_keys, run,
}

All-snoc :
    {A : Type 0} (P : A → Type 0) (xs : List A) (x : A) → All P xs → P x → All P (xs ++ x ∷ [])
All-snoc P [] x h last = (last, tt)
All-snoc P (y ∷ xs) x h last = (h.0, All-snoc P xs x h.1 last)

get_elem?-lt : {A : Type 0} (xs : List A) (i : ℕ) {a : A} → get_elem? xs i ≡ some a → i < length xs
get_elem?-lt [] i found = absurd (some_is_none (sym found))
get_elem?-lt (x ∷ xs) zero found = omega arith
get_elem?-lt (x ∷ xs) (suc i) found = omega (arith, get_elem?-lt xs i found)

All-indexed :
    {A : Type 0} (P : A → Type 0) (xs : List A)
    → ((i : ℕ) (a : A) → get_elem? xs i ≡ some a → P a)
    → All P xs
All-indexed P [] each = tt
All-indexed P (x ∷ xs) each = (each 0 x refl, All-indexed P xs (λ i a h. each (suc i) a h))

-- A key per hash, and each hash counted once.
abbrev Paired : List ℕ → Option Keys → Type 0
Paired hs o =
    (k : Keys) × (o ≡ some k)
    × (length k.keys ≡ length hs)
    × (k.groups + k.duplicate_rows ≡ length hs)

add_key_lem :
    (h r : ℕ) (k : Keys)
    → (length (add_key h r k).keys ≡ suc (length k.keys))
      × ((add_key h r k).groups + (add_key h r k).duplicate_rows
          ≡ suc (k.groups + k.duplicate_rows))
add_key_lem h r k = elim (Bool-cases (r == h)) [
  | inl q ↦ rw q (refl, omega arith)
  | inr q ↦ rw q (refl, omega arith)
]

add_pair_lem :
    (h r : ℕ) (hs : List ℕ) (o : Option Keys)
    → Paired hs o
    → Paired (h ∷ hs) (add_pair h (some r) o)
add_pair_lem h r hs o (k, e, l, s) =
    let (keyed, counted) = add_key_lem h r k in
    (add_key h r k, ap (add_pair h (some r)) e, keyed ∙ ap suc l, counted ∙ ap suc s)

pair_keys-Paired :
    (hashes hs groups : List ℕ)
    → All (λ g. g < length hashes) groups
    → length groups ≡ length hs
    → Paired hs (pair_keys hashes hs groups)
unfolding pair_keys
pair_keys-Paired hashes [] groups within e = (_, refl, refl, omega arith)
pair_keys-Paired hashes (h ∷ hs) [] within e = absurd (omega arith)
pair_keys-Paired hashes (h ∷ hs) (g ∷ gs) within e =
    let rest = pair_keys-Paired hashes hs gs within.1 (omega arith) in
    let found = get_elem?-get_or 0 hashes g within.0 in
    subst (λ o. Paired (h ∷ hs) (add_pair h o (pair_keys hashes hs gs))) (sym found)
      (add_pair_lem h (get_or hashes g 0) hs (pair_keys hashes hs gs) rest)

module _ (float : Float) (similarity : float.F) (doc_hash : Chars → ℕ)
    (vectors : List (ℕ × List float.F)) where
  -- The document has a vector.
  abbrev pub Indexed : ℕ → Type 0
  Indexed h = is_some (lookup h vectors) ≡ true

  vectors_of-some :
      (hashes : List ℕ)
      → All Indexed hashes
      → (points : List (List float.F)) × (vectors_of float similarity doc_hash vectors hashes
          ≡ some points)
        × (length points ≡ length hashes)
  unfolding vectors_of
  vectors_of-some [] indexed = ([], refl, refl)
  vectors_of-some (h ∷ hashes) indexed =
      let (points, e, l) = vectors_of-some hashes indexed.1 in
      elim (Option-cases (lookup h vectors)) [
        | inl q ↦ absurd (true_is_false (sym indexed.0 ∙ ap is_some q))
        | inr (v, q) ↦ (v ∷ points, rw (q, e, vectors_of) refl, ap suc l)
      ]

  gather-Indexed :
      (texts : List (Option Chars)) (hashes : List ℕ) (unindexed_rows : ℕ)
      → All Indexed hashes
      → All Indexed (gather float similarity doc_hash vectors texts hashes unindexed_rows).0
  unfolding gather
  gather-Indexed [] hashes n indexed = indexed
  gather-Indexed (none ∷ texts) hashes n indexed = gather-Indexed texts hashes n indexed
  gather-Indexed (some text ∷ texts) hashes n indexed =
      let hash = doc_hash text in
      elim (Option-cases (lookup hash vectors)) [
        | inl q ↦ rw (q, gather) (gather-Indexed texts hashes (suc n) indexed)
        | inr (v, q) ↦ elim (Bool-cases (contains hashes hash)) [
          | inl r ↦ rw (q, r, gather) (gather-Indexed texts hashes n indexed)
          | inr r ↦
              rw (q, r, gather)
                (gather-Indexed texts (hashes ++ hash ∷ []) n
                  (All-snoc Indexed hashes hash indexed (ap is_some q)))
        ]
      ]

  pub keys_of_total :
      (hashes : List ℕ)
      → All Indexed hashes
      → (k : Keys) × (keys_of float similarity doc_hash vectors hashes ≡ some k)
        × (length k.keys ≡ length hashes)
        × (k.groups + k.duplicate_rows ≡ length hashes)
  unfolding keys_of group_keys
  keys_of_total [] indexed =
      (record { keys = []; groups = 0; duplicate_rows = 0 }, refl, refl, omega arith)
  keys_of_total (h ∷ hs) indexed =
      let (points, found, same) = vectors_of-some (h ∷ hs) indexed in
      let (groups, e, l) = greedy_groups_total float points similarity in
      let within : All (λ g. g < length (h ∷ hs)) groups =
        All-indexed (λ g. g < length (h ∷ hs)) groups
          (λ i g at.
            let before = (greedy_groups-Survives float points similarity groups e i g at).0 in
            omega (arith, before, get_elem?-lt groups i at, l, same)) in
      let (k, paired, keyed, counted) =
        pair_keys-Paired (h ∷ hs) (h ∷ hs) groups within (l ∙ same) in
      (
        k,
        ap (group_keys float similarity doc_hash vectors (h ∷ hs)) found
            ∙ (rw (e, group_keys) refl ∙ paired),
        keyed,
        counted,
      )

  with_keys_lem :
      (keys : List (ℕ × Chars)) (texts : List (Option Chars))
      → map is_null (with_keys float similarity doc_hash vectors keys texts) ≡ map is_null texts
  unfolding with_keys
  with_keys_lem keys [] = refl
  with_keys_lem keys (none ∷ texts) = ap (◌∷◌ true) (with_keys_lem keys texts)
  with_keys_lem keys (some text ∷ texts) = ap (◌∷◌ false) (with_keys_lem keys texts)

  -- The stage succeeds on any rows and whatever the index holds: no document without a vector reaches
  -- the grouping. Its key column has an entry for each row, and the entry is NULL
  -- exactly for a row of NULL text: an unindexed row gets a key, too.
  pub run_keys_every_text :
      (texts : List (Option Chars))
      → (column : List (Option Chars)) × (groups duplicate_rows unindexed_rows : ℕ) × (run float
            similarity doc_hash vectors texts
          ≡ some (column, groups, duplicate_rows, unindexed_rows))
        × (map is_null column ≡ map is_null texts)
  unfolding run
  run_keys_every_text texts =
      let hashes = (gather float similarity doc_hash vectors texts [] 0).0 in
      let (k, e, l, s) = keys_of_total hashes (gather-Indexed texts [] 0 tt) in
      (
        with_keys float similarity doc_hash vectors k.keys texts,
        k.groups,
        k.duplicate_rows,
        (gather float similarity doc_hash vectors texts [] 0).1,
        rw (e, run) refl,
        with_keys_lem k.keys texts,
      )

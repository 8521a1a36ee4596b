-- ===== src/Physical/Distinct.antt =====
-- src/physical/distinct.rs: the group key that each row gets. The rows of all batches are one list
-- of texts, none for NULL; the index's vectors are an association list, and `doc_hash` a parameter.
pub mod Groups
use semcast.Base.{
  ℕ, zero, suc, ◌+◌, ◌/◌, ◌%◌, Bool, true, false, Option, none, some, List, [], ◌∷◌, ◌++◌, map,
  get_elem?, ltb, ◌==◌, is_empty, if◌then◌else◌,
}
use semcast.Base.Text.{Chars}
use semcast.Base.Float.{Float}
use semcast.Base.Assoc.{nat_key, lookup}
use semcast.Index.Dedupe.{greedy_groups}
use semcast.Physical.Rank.{contains}

abbrev pub hex_digit : ℕ → ℕ
hex_digit d = if ltb d 10 then 48 + d else 87 + d

unfoldable pub hex_from : ℕ → ℕ → Chars → Chars
hex_from zero n acc = acc
hex_from (suc width) n acc = hex_from width (n / 16) (hex_digit (n % 16) ∷ acc)

-- `{doc_hash:016x}` of 64 bits.
unfoldable pub format_key : ℕ → Chars
unfolding hex_from
format_key doc_hash = hex_from 16 doc_hash []

-- The map of keys, and the counters' increases.
pub record Keys : Type 0 where
  pub keys : List (ℕ × Chars)
  pub groups : ℕ
  pub duplicate_rows : ℕ

-- The key of a hash, and its count.
abbrev pub add_key : ℕ → ℕ → Keys → Keys
add_key h representative rest =
    let entry : ℕ × Chars = (h, format_key representative) in
    if representative == h
    then record rest { keys = entry ∷ rest.keys; groups = suc rest.groups }
    else record rest { keys = entry ∷ rest.keys; duplicate_rows = suc rest.duplicate_rows }

abbrev pub add_pair : ℕ → Option ℕ → Option Keys → Option Keys
add_pair h none rest = none
add_pair h (some representative) none = none
add_pair h (some representative) (some rest) = some (add_key h representative rest)

-- The pairs of the hashes with their groups; a group out of range is a panic.
unfoldable pub pair_keys : List ℕ → List ℕ → List ℕ → Option Keys
unfolding format_key
pair_keys hashes [] groups = some (record { keys = []; groups = 0; duplicate_rows = 0 })
pair_keys hashes (h ∷ hs) [] = some (record { keys = []; groups = 0; duplicate_rows = 0 })
pair_keys hashes (h ∷ hs) (g ∷ gs) = add_pair h (get_elem? hashes g) (pair_keys hashes hs gs)

module _ (float : Float) (similarity : float.F) (doc_hash : Chars → ℕ)
    (vectors : List (ℕ × List float.F)) where
  -- The distinct indexed documents in first-seen order, and the number of unindexed rows.
  unfoldable pub gather : List (Option Chars) → List ℕ → ℕ → List ℕ × ℕ
  gather [] hashes unindexed_rows = (hashes, unindexed_rows)
  gather (none ∷ texts) hashes unindexed_rows = gather texts hashes unindexed_rows
  gather (some text ∷ texts) hashes unindexed_rows =
      let hash = doc_hash text in
      let unknown = gather texts hashes (suc unindexed_rows) in
      let again = gather texts hashes unindexed_rows in
      let first = gather texts (hashes ++ hash ∷ []) unindexed_rows in
      elim (lookup hash vectors) [
        | none ↦ unknown
        | some vector ↦ if contains hashes hash then again else first
      ]

  -- The vectors of the hashes, in their order; a hash without one is a panic.
  unfoldable pub vectors_of : List ℕ → Option (List (List float.F))
  vectors_of [] = some []
  vectors_of (h ∷ hashes) =
      let rest = vectors_of hashes in
      elim (lookup h vectors) [
        | none ↦ none
        | some vector ↦ elim rest [ none ↦ none | some points ↦ some (vector ∷ points) ]
      ]

  -- The grouping of the points; `none` is its panic.
  unfoldable pub group_keys : List ℕ → Option (List (List float.F)) → Option Keys
  unfolding pair_keys
  group_keys hashes none = none
  group_keys hashes (some points) = elim (greedy_groups float points similarity) [
    | none ↦ none
    | some groups ↦ pair_keys hashes hashes groups
  ]

  -- `Deduper::keys`; `none` is a panic.
  unfoldable pub keys_of : List ℕ → Option Keys
  unfolding vectors_of group_keys
  keys_of hashes =
      if is_empty hashes
      then some (record { keys = []; groups = 0; duplicate_rows = 0 })
      else group_keys hashes (vectors_of hashes)

  abbrev pub key_or : Option Chars → ℕ → Chars
  key_or none hash = format_key hash
  key_or (some key) hash = key

  -- `Deduper::with_keys`: the key column.
  unfoldable pub with_keys : List (ℕ × Chars) → List (Option Chars) → List (Option Chars)
  unfolding format_key
  with_keys keys [] = []
  with_keys keys (none ∷ texts) = none ∷ with_keys keys texts
  with_keys keys (some text ∷ texts) =
      some (key_or (lookup (doc_hash text) keys) (doc_hash text)) ∷ with_keys keys texts

  -- `Deduper::run`: the key column and the counters' increases.
  unfoldable pub run : List (Option Chars) → Option (List (Option Chars) × ℕ × ℕ × ℕ)
  unfolding gather keys_of with_keys
  run texts =
      let (hashes, unindexed_rows) = gather texts [] 0 in
      elim (keys_of hashes) [
        | none ↦ none
        | some k ↦ some (with_keys k.keys texts, k.groups, k.duplicate_rows, unindexed_rows)
      ]

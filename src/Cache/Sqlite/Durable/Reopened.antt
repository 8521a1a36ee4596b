-- ===== src/Cache/Sqlite/Durable/Reopened.antt =====
-- src/cache/sqlite.rs: what one process and the next one, over the same file, answer.
use semcast.Base.{
  ℕ, ◌≡◌, refl, ap, sym, inl, inr, ◌⊎◌, Bool, true, false, Option, none, some, List, [], ◌∷◌, ◌++◌,
  is_some, Option-cases, Bool-cases, is_empty, ◌∙◌, All, some_is_none, true_is_false, ◌≢◌, subst,
}
use semcast.Base.Assoc.{nat_key, lookup, insert, lookup-insert_ne}
use semcast.Cache.{CacheKey, CachedValue, value, error}
use semcast.Cache.Sqlite.{
  get_amid, SqliteCache, Row, Stored, Table, rows, flush, insert_or_ignore, remember, committed,
  writer_turn, flush_request, row_key, row_of, admit, store, put_many, get, collect, write_batch,
  commit, verdict_of_row, opened, drop,
}
use semcast.Cache.Sqlite.Batches.{
  rows_sent, sent-append, append_nil, write_batch-kept, write_batch-append,
}
use semcast.Cache.Sqlite.Durable.{final_table, turn-final_table, skip_empty, drop-table}
use semcast.Cache.Sqlite.Durable.Agreement.{
  AgreesAt, Agrees, takes_over-Agrees, insert-Agrees, between-Agrees, is_some-none, is_empty_nil,
}

-- A put follows a get that missed: the map has the key, or the file lacks it.
unfoldable pub Missed : (List (List ℕ) → ℕ) → Stored → Table → CacheKey × CachedValue → Type 0
Missed digest stored table entry =
    (is_some (lookup (row_key digest entry.0) stored) ≡ true)
    ⊎ (lookup (row_key digest entry.0) table ≡ none)

verdict-row_of :
    (digest : List (List ℕ) → ℕ) (key : CacheKey) (v : CachedValue)
    → ((row_of digest key v).key ≡ row_key digest key) × (verdict_of_row (row_of digest key v) ≡ v)
unfolding verdict_of_row row_key
verdict-row_of digest key (value text) = (refl, refl)
verdict-row_of digest key (error text) = (refl, refl)

remember_new :
    (k : ℕ) (v : CachedValue) (cache : SqliteCache)
    → lookup k cache.stored ≡ none
    → (remember k v cache).1 ≡ v
unfolding remember
remember_new k v cache lacks = rw (lacks, remember) refl

abbrev of_row : Option Row → Option CachedValue
of_row none = none
of_row (some r) = some (verdict_of_row r)

-- What the writer commits stays, in the file and in the file to come.
turn-kept :
    (cache : SqliteCache) (k : ℕ) (r : Row)
    → lookup k cache.table ≡ some r
    → lookup k (writer_turn true cache).table ≡ some r
unfolding writer_turn commit
turn-kept cache k r held =
    let batch = (collect cache.channel []).0 in
    ap (lookup k) (skip_empty cache.table true batch) ∙ write_batch-kept k r batch cache.table held

turn-lasting :
    (cache : SqliteCache) (k : ℕ) (r : Row)
    → lookup k (writer_turn true cache).table ≡ some r
    → lookup k (final_table (writer_turn true cache)) ≡ some r
unfolding final_table
turn-lasting cache k r held =
    let next = writer_turn true cache in
    write_batch-kept k r (rows_sent next.channel) next.table held

module _ (digest : List (List ℕ) → ℕ) where
  insert-Missed :
      (k : ℕ) (v : CachedValue) (stored : Stored) (table : Table) (entry : CacheKey × CachedValue)
      → is_some (lookup k stored) ≡ false
      → Missed digest stored table entry
      → Missed digest (insert k v stored) table entry
  unfolding Missed
  insert-Missed k v stored table entry new (inr lacks) = inr lacks
  insert-Missed k v stored table entry new (inl held) =
      let apart : k ≢ row_key digest entry.0 =
        λ e. true_is_false (sym held ∙ ap (λ x. is_some (lookup x stored)) (sym e) ∙ new) in
      inl (ap is_some (lookup-insert_ne k (row_key digest entry.0) v stored apart) ∙ held)

  insert-Missed_all :
      (k : ℕ) (v : CachedValue) (stored : Stored) (table : Table)
      (entries : List (CacheKey × CachedValue))
      → is_some (lookup k stored) ≡ false
      → All (Missed digest stored table) entries
      → All (Missed digest (insert k v stored) table) entries
  insert-Missed_all k v stored table [] new missed = tt
  insert-Missed_all k v stored table (entry ∷ entries) new missed = (
    insert-Missed k v stored table entry new missed.0,
    insert-Missed_all k v stored table entries new missed.1,
  )

  -- The file to come lacks a key that a put admits.
  file-lacks :
      (entry : CacheKey × CachedValue) (stored : Stored) (final table : Table)
      → Missed digest stored table entry
      → is_some (lookup (row_key digest entry.0) stored) ≡ false
      → Agrees stored final table
      → lookup (row_key digest entry.0) final ≡ none
  unfolding Missed Agrees AgreesAt
  file-lacks entry stored final table (inl held) new agrees =
      absurd (true_is_false (sym held ∙ new))
  file-lacks entry stored final table (inr lacks) new agrees =
      (agrees (row_key digest entry.0)).1
        (is_some-none (lookup (row_key digest entry.0) stored) new)
      ∙ lacks

  admit-Agrees :
      (entries : List (CacheKey × CachedValue)) (stored : Stored) (final table : Table)
      → All (Missed digest stored table) entries
      → Agrees stored final table
      → Agrees
          (admit digest entries stored).0
          (write_batch (admit digest entries stored).1 final).0
          table
  unfolding admit write_batch
  admit-Agrees [] stored final table missed agrees = agrees
  admit-Agrees ((key, v) ∷ entries) stored final table missed agrees =
      elim (Bool-cases (is_some (lookup (row_key digest key) stored))) [
        | inl e ↦ rw e (admit-Agrees entries stored final table missed.1 agrees)
        | inr e ↦
            let k = row_key digest key in
            let row = verdict-row_of digest key v in
            rw e (
              admit-Agrees entries (insert k v stored)
                (insert_or_ignore (row_of digest key v) final) table
                (insert-Missed_all k v stored table entries e missed.1)
                (insert-Agrees k v (row_of digest key v) stored final table row.0 row.1
                  (file-lacks (key, v) stored final table missed.0 e agrees) agrees))
      ]

  -- What one process does with its cache when no other writes the file: a put follows a miss, and
  -- reads and transactions succeed.
  pub data Run (table : Table) : SqliteCache → Type 0 where
    start : Run table (opened table)
    puts :
        {cache : SqliteCache} (entries : List (CacheKey × CachedValue))
        → All (Missed digest cache.stored cache.table) entries
        → Run table cache
        → Run table (put_many digest entries cache)
    gets :
        {cache : SqliteCache} (key : CacheKey)
        → Run table cache
        → Run table (get digest true key cache).0
    turns : {cache : SqliteCache} → Run table cache → Run table (writer_turn true cache)
    flushes :
        {cache : SqliteCache} (done : ℕ) → Run table cache → Run table (flush_request done cache)

  unfoldable pub CacheAgrees : SqliteCache → Type 0
  unfolding Agrees final_table
  CacheAgrees cache = Agrees cache.stored (final_table cache) cache.table

  opened-Agrees : (table : Table) → CacheAgrees (opened table)
  unfolding CacheAgrees opened final_table rows_sent write_batch lookup Agrees AgreesAt
  opened-Agrees table k = (λ v held. absurd (some_is_none (sym held)), λ held. refl)

  -- What a message adds to the file to come.
  final-send :
      (stored : Stored) (batch : List Row) (cache : SqliteCache)
      → final_table (record cache { stored = stored; channel = cache.channel ++ rows batch ∷ [] })
        ≡ (write_batch batch (final_table cache)).0
  unfolding final_table rows_sent
  final-send stored batch cache =
      ap (λ r. (write_batch r cache.table).0)
        (sent-append cache.channel (rows batch ∷ [])
          ∙ ap (λ r. rows_sent cache.channel ++ r) (append_nil batch))
      ∙ write_batch-append (rows_sent cache.channel) batch cache.table

  store-Agrees :
      (entries : List (CacheKey × CachedValue)) (cache : SqliteCache)
      → All (Missed digest cache.stored cache.table) entries
      → CacheAgrees cache
      → CacheAgrees (put_many digest entries cache)
  unfolding CacheAgrees put_many store final_table write_batch
  store-Agrees entries cache missed agrees =
      let admitted =
        admit-Agrees entries cache.stored (final_table cache) cache.table missed agrees in
      elim (Bool-cases (is_empty (admit digest entries cache.stored).1)) [
        | inl e ↦ rw e (
            subst
              (λ b.
                Agrees (admit digest entries cache.stored).0 (write_batch b (final_table cache)).0
                  cache.table)
              (is_empty_nil (admit digest entries cache.stored).1 e) admitted)
        | inr e ↦ rw e (
            subst (λ f. Agrees (admit digest entries cache.stored).0 f cache.table)
              (sym (
                final-send (admit digest entries cache.stored).0
                  (admit digest entries cache.stored).1 cache))
              admitted)
      ]

  remember-CacheAgrees :
      (k : ℕ) (r : Row) (cache : SqliteCache)
      → lookup k cache.table ≡ some r
      → lookup k cache.stored ≡ none
      → CacheAgrees cache
      → CacheAgrees (remember k (verdict_of_row r) cache).0
  unfolding CacheAgrees final_table remember
  remember-CacheAgrees k r cache file lacks agrees =
      rw (lacks, remember)
        (takes_over-Agrees k r cache.stored (final_table cache) cache.table file lacks agrees)

  get-CacheAgrees :
      (key : CacheKey) (cache : SqliteCache)
      → CacheAgrees cache
      → CacheAgrees (get digest true key cache).0
  unfolding CacheAgrees get get_amid committed
  get-CacheAgrees key cache agrees =
      elim (Option-cases (lookup (row_key digest key) cache.stored)) [
        | inr (u, e) ↦ rw (e, get_amid) agrees
        | inl e ↦ elim (Option-cases (lookup (row_key digest key) cache.table)) [
          | inl f ↦ rw (e, f, get_amid, committed) agrees
          | inr (r, f) ↦
              rw (e, f, get_amid, committed)
                (remember-CacheAgrees (row_key digest key) r cache f e agrees)
        ]
      ]

  turn-CacheAgrees :
      (cache : SqliteCache) → CacheAgrees cache → CacheAgrees (writer_turn true cache)
  unfolding CacheAgrees writer_turn
  turn-CacheAgrees cache agrees =
      let next = (writer_turn true cache).table in
      let same = turn-final_table cache in
      subst (λ f. Agrees cache.stored f next) (sym same)
        (between-Agrees cache.stored (final_table cache) cache.table next (turn-kept cache)
          (λ k r held. ap (lookup k) (sym same) ∙ turn-lasting cache k r held) agrees)

  flush-CacheAgrees :
      (done : ℕ) (cache : SqliteCache) → CacheAgrees cache → CacheAgrees (flush_request done cache)
  unfolding CacheAgrees flush_request final_table rows_sent
  flush-CacheAgrees done cache agrees =
      let same : rows_sent cache.channel ≡ rows_sent (cache.channel ++ flush done ∷ []) =
        sym (sent-append cache.channel (flush done ∷ []) ∙ append_nil (rows_sent cache.channel)) in
      subst (λ rs. Agrees cache.stored (write_batch rs cache.table).0 cache.table) same agrees

  run-CacheAgrees : {table : Table} {cache : SqliteCache} → Run table cache → CacheAgrees cache
  run-CacheAgrees {table} start = opened-Agrees table
  run-CacheAgrees (puts {cache} entries missed run) =
      store-Agrees entries cache missed (run-CacheAgrees run)
  run-CacheAgrees (gets {cache} key run) = get-CacheAgrees key cache (run-CacheAgrees run)
  run-CacheAgrees (turns {cache} run) = turn-CacheAgrees cache (run-CacheAgrees run)
  run-CacheAgrees (flushes {cache} done run) = flush-CacheAgrees done cache (run-CacheAgrees run)

  -- A key that the map lacks is answered from the file.
  file_answer :
      (key : CacheKey) (cache : SqliteCache) (o : Option Row)
      → lookup (row_key digest key) cache.stored ≡ none
      → lookup (row_key digest key) cache.table ≡ o
      → (get digest true key cache).1 ≡ of_row o
  unfolding get get_amid committed
  file_answer key cache none lacks file = rw (lacks, file, get_amid, committed) refl
  file_answer key cache (some r) lacks file =
      rw (lacks, file, get_amid, committed)
        (ap some (remember_new (row_key digest key) (verdict_of_row r) cache lacks))

  opened_answer :
      (key : CacheKey) (table : Table) (o : Option Row)
      → lookup (row_key digest key) table ≡ o
      → (get digest true key (opened table)).1 ≡ of_row o
  unfolding opened lookup
  opened_answer key table o file = file_answer key (opened table) o refl file

  map_answer :
      (key : CacheKey) (cache : SqliteCache) (v : CachedValue)
      → lookup (row_key digest key) cache.stored ≡ some v
      → (get digest true key cache).1 ≡ some v
  unfolding get get_amid
  map_answer key cache v held = rw (held, get_amid) refl

  same_answer :
      (key : CacheKey) (cache : SqliteCache)
      → CacheAgrees cache
      → (get digest true key (opened (final_table cache))).1 ≡ (get digest true key cache).1
  unfolding CacheAgrees Agrees AgreesAt
  same_answer key cache agrees =
      let k = row_key digest key in
      let final = final_table cache in
      elim (Option-cases (lookup k cache.stored)) [
        | inl e ↦
            opened_answer key final (lookup k cache.table) ((agrees k).1 e)
            ∙ sym (file_answer key cache (lookup k cache.table) e refl)
        | inr (v, e) ↦
            let (r, file, same) = (agrees k).0 v e in
            opened_answer key final (some r) file ∙ ap some same ∙ sym (map_answer key cache v e)
      ]

  -- A process that opens a file, puts what it has missed, gets, flushes and lets the writer take
  -- turns, all of them successful and no other process writing, and that then drops its cache, leaves
  -- a file from which the next process answers every key as this one did: with the same verdict, or
  -- with a miss.
  pub drop-get :
      (table : Table) (cache : SqliteCache) (oks : ℕ → Bool) (key : CacheKey)
      → Run table cache
      → ((n : ℕ) → oks n ≡ true)
      → (get digest true key (opened (drop oks cache).table)).1 ≡ (get digest true key cache).1
  unfolding final_table
  drop-get table cache oks key run good =
      ap (λ t. (get digest true key (opened t)).1) (drop-table oks cache good)
      ∙ same_answer key cache (run-CacheAgrees run)

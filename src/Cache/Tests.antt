-- ===== src/Cache/Tests.antt =====
-- Concrete runs of the caches.
use semcast.Base.{ℕ, ◌≡◌, refl, Bool, true, List, [], ◌∷◌, ◌++◌, inr, ◌+◌, ◌*◌}
use semcast.Base.Assoc.{lookup}
use semcast.Cache.{CacheKey, CachedValue, value, error}
use semcast.Cache.Sqlite.{
  SqliteCache, Row, Table, rows, flush, opened, put_many, get, row_key, drop, writer_turn,
  flush_request, write_batch, row_of, store, admit, insert_or_ignore,
}
use semcast.Cache.Sqlite.Answers.{Event, puts, turn, flushes, other}
use semcast.Cache.Sqlite.Batches.{rows_sent, asked, TakesWhole, collect-TakesWhole}
use semcast.Cache.Sqlite.Durable.{drop-table, drop-answers}
use semcast.Cache.Sqlite.Durable.Reopened.{Run, Missed, drop-get}

-- A digest that tells the keys of these tests apart.
abbrev last_of : List ℕ → ℕ
last_of [] = 0
last_of (x ∷ []) = x
last_of (x ∷ y ∷ xs) = x + last_of (y ∷ xs)

abbrev digest : List (List ℕ) → ℕ
digest [] = 0
digest (p ∷ parts) = last_of p + 3 * digest parts

abbrev key_of : ℕ → CacheKey
key_of n = record {
  type_version = 7 ∷ [];
  field = 5 ∷ [];
  input_digest = n;
  model_id = 1 ∷ [];
  prompt_version = [];
}

abbrev yes : CachedValue
yes = value (1 ∷ [])

abbrev failed : CachedValue
failed = error (2 ∷ [])

abbrev other_row : Row
other_row = row_of digest (key_of 4) failed

abbrev file : Table
file = (row_key digest (key_of 4), row_of digest (key_of 4) failed) ∷ []

-- A put of one key twice and another, a get of the file's key, and a flush.
abbrev ran : SqliteCache
ran =
    flush_request 9
      (get digest true (key_of 4)
        (put_many digest ((key_of 3, yes) ∷ (key_of 3, failed) ∷ []) (opened file))).0

ran_Run : Run digest file ran
unfolding Missed lookup row_key opened
ran_Run = Run.flushes 9 (
    Run.gets (key_of 4)
      (Run.puts ((key_of 3, yes) ∷ (key_of 3, failed) ∷ []) (inr refl, (inr refl, tt)) (Run.start)))

always : ℕ → Bool
always n = true

drop-get_example :
    (get digest true (key_of 3) (opened (drop always ran).table)).1
    ≡ (get digest true (key_of 3) ran).1
unfolding always
drop-get_example = drop-get digest file ran always (key_of 3) ran_Run (λ n. refl)

drop-table_example : (drop always ran).table ≡ (write_batch (rows_sent ran.channel) ran.table).0
unfolding always
drop-table_example = drop-table always ran (λ n. refl)

drop-answers_example :
    ((drop always ran).channel ≡ [])
    × ((drop always ran).answered ≡ ran.answered ++ asked ran.channel)
drop-answers_example = drop-answers always ran

collect-TakesWhole_example : TakesWhole ran.channel [] (semcast.Cache.Sqlite.collect ran.channel [])
collect-TakesWhole_example = collect-TakesWhole ran.channel

abbrev later : List (Event digest)
later = puts ((key_of 4, yes) ∷ []) ∷ turn true ∷ other other_row ∷ flushes 3 ∷ []

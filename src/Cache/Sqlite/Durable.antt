-- ===== src/Cache/Sqlite/Durable.antt =====
-- src/cache/sqlite.rs: what a cache leaves in its file for the next process.
pub mod Agreement
pub mod Reopened
use semcast.Base.{
  ℕ, ◌≡◌, refl, ap, sym, inl, inr, ◌⊎◌, Bool, true, false, Option, none, some, List, [], ◌∷◌, ◌++◌,
  arith, zero, suc, if◌then◌else◌, is_some, Option-cases, Bool-cases, is_empty, ◌∙◌, length, ◌≤◌,
  ◌-◌, All, some_is_none, true_is_false, ◌≢◌, subst,
}
use semcast.Base.Text.{Chars}
use semcast.Base.Assoc.{nat_key, lookup, insert, lookup-insert_self, lookup-insert_ne, ◌=?◌, =?_iff}
use semcast.Cache.{CacheKey, CachedValue, value, error}
use semcast.Cache.Sqlite.{
  SqliteCache, Row, Stored, Table, Message, rows, flush, insert_or_ignore, remember, committed,
  writer_turn, flush_request, row_key, row_of, admit, store, put_many, get, collect, write_batch,
  commit, verdict_of_row, opened, drop, drain, reply,
}
use semcast.Cache.Sqlite.Answers.{insert-held}
use semcast.Cache.Sqlite.Batches.{
  rows_sent, asked, sent-append, asked-append, to_list, append_nil, collect-TakesWhole, TakesWhole,
  collect-progress, write_batch-kept, write_batch-append,
}

-- What the file holds once all that was sent to the writer is committed.
unfoldable pub final_table : SqliteCache → Table
unfolding rows_sent write_batch
final_table cache = (write_batch (rows_sent cache.channel) cache.table).0

-- The flushes that are answered once the writer is done.
unfoldable pub final_answers : SqliteCache → List ℕ
unfolding asked
final_answers cache = cache.answered ++ asked cache.channel

-- A transaction without rows is skipped, and would change nothing.
pub skip_empty :
    (table : Table) (ok : Bool) (batch : List Row)
    → (if is_empty batch then table else commit ok batch table) ≡ commit ok batch table
unfolding commit write_batch
skip_empty table true [] = refl
skip_empty table false [] = refl
skip_empty table ok (r ∷ batch) = refl

append_assoc : (a b c : List ℕ) → (a ++ b) ++ c ≡ a ++ (b ++ c)
append_assoc [] b c = refl
append_assoc (x ∷ a) b c = ap (λ r. x ∷ r) (append_assoc a b c)

reply-to_list :
    (done : Option ℕ) (answered : List ℕ) → reply done answered ≡ answered ++ to_list done
reply-to_list none [] = refl
reply-to_list none (x ∷ xs) = ap (λ r. x ∷ r) (reply-to_list none xs)
reply-to_list (some d) answered = refl

pub turn-final_table :
    (cache : SqliteCache) → final_table (writer_turn true cache) ≡ final_table cache
unfolding final_table writer_turn commit TakesWhole
turn-final_table cache =
    let (taken, split, all, done) = collect-TakesWhole cache.channel in
    let out = collect cache.channel [] in
    let apart : rows_sent cache.channel ≡ out.0 ++ rows_sent out.2 =
      ap rows_sent split ∙ sent-append taken out.2 ∙ ap (λ r. r ++ rows_sent out.2) (sym all) in
    ap (λ t. (write_batch (rows_sent out.2) t).0) (skip_empty cache.table true out.0)
    ∙ sym (write_batch-append out.0 (rows_sent out.2) cache.table)
    ∙ ap (λ r. (write_batch r cache.table).0) (sym apart)

turn-final_answers :
    (ok : Bool) (cache : SqliteCache) → final_answers (writer_turn ok cache) ≡ final_answers cache
unfolding final_answers writer_turn TakesWhole
turn-final_answers ok cache =
    let (taken, split, all, done) = collect-TakesWhole cache.channel in
    let out = collect cache.channel [] in
    let apart : asked cache.channel ≡ to_list out.1 ++ asked out.2 =
      ap asked split ∙ asked-append taken out.2 ∙ ap (λ r. r ++ asked out.2) done in
    ap (λ r. r ++ asked out.2) (reply-to_list out.1 cache.answered)
    ∙ append_assoc cache.answered (to_list out.1) (asked out.2)
    ∙ ap (λ r. cache.answered ++ r) (sym apart)

turn-shorter :
    (ok : Bool) (cache : SqliteCache)
    → length (writer_turn ok cache).channel ≤ length cache.channel - 1
unfolding writer_turn
turn-shorter ok cache = collect-progress cache.channel []

length_zero : (messages : List Message) → length messages ≤ 0 → messages ≡ []
length_zero [] few = refl
length_zero (m ∷ messages) few = absurd (omega arith)

nil_append : (xs : List ℕ) → xs ++ [] ≡ xs
nil_append [] = refl
nil_append (x ∷ xs) = ap (λ r. x ∷ r) (nil_append xs)

drain-answers :
    (oks : ℕ → Bool) (turns : ℕ) (cache : SqliteCache)
    → length cache.channel ≤ turns
    → ((drain oks turns cache).channel ≡ [])
      × ((drain oks turns cache).answered ≡ final_answers cache)
unfolding drain final_answers asked
drain-answers oks zero cache few =
    let none_left = length_zero cache.channel few in
    (none_left, sym (ap (λ c. cache.answered ++ asked c) none_left ∙ nil_append cache.answered))
drain-answers oks (suc turns) cache few =
    let next = writer_turn (oks turns) cache in
    let rest = drain-answers oks turns next (omega (arith, turn-shorter (oks turns) cache)) in
    (rest.0, rest.1 ∙ turn-final_answers (oks turns) cache)

-- When a cache is dropped, the writer empties the channel in as many turns as there are messages, and
-- answers every flush that was asked for, in the order of the requests. A transaction that
-- fails is not tried again, and the flush after it is answered all the same.
pub drop-answers :
    (oks : ℕ → Bool) (cache : SqliteCache)
    → ((drop oks cache).channel ≡ [])
      × ((drop oks cache).answered ≡ cache.answered ++ asked cache.channel)
unfolding drop final_answers
drop-answers oks cache = drain-answers oks (length cache.channel) cache (omega arith)

drain-final_table :
    (oks : ℕ → Bool) (turns : ℕ) (cache : SqliteCache)
    → ((n : ℕ) → oks n ≡ true)
    → length cache.channel ≤ turns
    → (drain oks turns cache).table ≡ final_table cache
unfolding drain final_table rows_sent write_batch
drain-final_table oks zero cache good few =
    let none_left = length_zero cache.channel few in
    sym (ap (λ c. (write_batch (rows_sent c) cache.table).0) none_left)
drain-final_table oks (suc turns) cache good few =
    let next = writer_turn (oks turns) cache in
    let rest =
      drain-final_table oks turns next good (omega (arith, turn-shorter (oks turns) cache)) in
    rest ∙ ap (λ b. final_table (writer_turn b cache)) (good turns) ∙ turn-final_table cache

-- When a cache is dropped and every transaction succeeds, the file holds what the insertion one by
-- one of all the rows sent leaves, however the writer split them into transactions.
pub drop-table :
    (oks : ℕ → Bool) (cache : SqliteCache)
    → ((n : ℕ) → oks n ≡ true)
    → (drop oks cache).table ≡ (write_batch (rows_sent cache.channel) cache.table).0
unfolding drop final_table
drop-table oks cache good = drain-final_table oks (length cache.channel) cache good (omega arith)

-- ===== src/Cache/Sqlite/Answers.antt =====
-- src/cache/sqlite.rs: what one cache answers, whatever is done to it or to its file.
use semcast.Base.{
  ℕ, ◌≡◌, ap, sym, inl, inr, Bool, false, some, List, [], ◌∷◌, is_some, Bool-cases, ◌≢◌, ◌∙◌,
  true_is_false,
}
use semcast.Base.Assoc.{nat_key, lookup, insert, lookup-insert_ne}
use semcast.Cache.{CacheKey, CachedValue}
use semcast.Cache.Sqlite.{
  SqliteCache, Row, Stored, insert_or_ignore, remember, writer_turn, flush_request, row_key, admit,
  put_many,
}

-- A key that the map lacks is added beside those it has.
pub insert-held :
    (k j : ℕ) (v w : CachedValue) (m : Stored)
    → lookup k m ≡ some v
    → is_some (lookup j m) ≡ false
    → lookup k (insert j w m) ≡ some v
insert-held k j v w m held lacks =
    let apart : j ≢ k =
      λ e. true_is_false (sym (ap is_some held) ∙ ap (λ x. is_some (lookup x m)) (sym e) ∙ lacks) in
    lookup-insert_ne j k w m apart ∙ held

module _ (digest : List (List ℕ) → ℕ) where
  pub admit-stored :
      (k : ℕ) (v : CachedValue) (entries : List (CacheKey × CachedValue)) (m : Stored)
      → lookup k m ≡ some v
      → lookup k (admit digest entries m).0 ≡ some v
  unfolding admit
  admit-stored k v [] m held = held
  admit-stored k v ((key, w) ∷ entries) m held =
      elim (Bool-cases (is_some (lookup (row_key digest key) m))) [
        | inl e ↦ rw e (admit-stored k v entries m held)
        | inr e ↦ rw e (
            admit-stored k v entries (insert (row_key digest key) w m)
              (insert-held k (row_key digest key) v w m held e))
      ]

  -- What other threads and processes do to a cache and to its file: puts, the last step of a get, which
  -- remembers what it read, turns of the writer, flushes, and a row that another process writes first.
  -- The other steps of a get change nothing.
  pub data Event : Type 0 where
    puts : List (CacheKey × CachedValue) → Event
    remembers : ℕ → CachedValue → Event
    turn : Bool → Event
    flushes : ℕ → Event
    other : Row → Event

  unfoldable pub step : Event → SqliteCache → SqliteCache
  unfolding put_many remember
  step (puts entries) cache = put_many digest entries cache
  step (remembers k v) cache = (remember k v cache).0
  step (turn ok) cache = writer_turn ok cache
  step (flushes done) cache = flush_request done cache
  step (other r) cache = record cache { table = insert_or_ignore r cache.table }

  unfoldable pub steps : List Event → SqliteCache → SqliteCache
  unfolding step
  steps [] cache = cache
  steps (e ∷ events) cache = steps events (step e cache)

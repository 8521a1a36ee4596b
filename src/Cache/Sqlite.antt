-- ===== src/Cache/Sqlite.antt =====
-- src/cache/sqlite.rs: the cache that survives the process. The state is the map of what this
-- instance has stored, the channel to the writer thread, the table of the file and the flush requests
-- that were answered. Each lock, each message and each transaction is one step. The BLAKE3 digest is
-- a parameter, over the parts' bytes. Whether a read or a transaction succeeds is an argument.
pub mod Answers
pub mod Batches
pub mod Durable
use semcast.Base.{
  ℕ, zero, suc, ◌/◌, ◌%◌, Bool, true, false, not, ◌&&◌, Option, none, some, List, [], ◌∷◌, ◌++◌,
  length, leb, if◌then◌else◌, is_some, is_empty,
}
use semcast.Base.Text.{Chars}
use semcast.Base.Assoc.{nat_key, chars_beq, lookup, insert}
use semcast.Cache.{CacheKey, CachedValue, value, error}

abbrev pub max_batch : ℕ
max_batch = 1024

pub record Row : Type 0 where
  pub key : ℕ
  pub type_version : Chars
  pub field : Chars
  pub model_id : Chars
  pub prompt_version : Chars
  pub is_error : Bool
  pub text : Chars

-- What the writer thread is asked: rows to commit together, or a reply to the flush of a number.
pub data Message : Type 0 where
  rows : List Row → Message
  flush : ℕ → Message

abbrev pub Stored : Type 0
Stored = List (ℕ × CachedValue)

abbrev pub Table : Type 0
Table = List (ℕ × Row)

pub record SqliteCache : Type 0 where
  pub stored : Stored
  pub channel : List Message
  pub table : Table
  pub answered : List ℕ

-- `SqliteCache::open`, over the table that the file holds.
unfoldable pub opened : Table → SqliteCache
opened table = record { stored = []; channel = []; table = table; answered = [] }

-- `u128::to_le_bytes`.
abbrev pub le_bytes : ℕ → ℕ → List ℕ
le_bytes zero n = []
le_bytes (suc k) n = n % 256 ∷ le_bytes k (n / 256)

-- The verdict of a row.
unfoldable pub verdict_of_row : Row → CachedValue
verdict_of_row r = if r.is_error then error r.text else value r.text

-- `INSERT OR IGNORE`.
unfoldable pub insert_or_ignore : Row → Table → Table
insert_or_ignore r table = if is_some (lookup r.key table) then table else insert r.key r table

abbrev pub same_flag : Bool → Bool → Bool
same_flag true b = b
same_flag false b = not b

abbrev pub clashes : Row → Option Row → Bool
clashes r none = false
clashes r (some s) = not (same_flag s.is_error r.is_error && chars_beq s.text r.text)

-- The rows of a transaction one by one: the table, and the rows whose key held another verdict.
unfoldable pub write_batch : List Row → Table → Table × List Row
unfolding insert_or_ignore
write_batch [] table = (table, [])
write_batch (r ∷ rs) table =
    let (written, conflicts) = write_batch rs (insert_or_ignore r table) in
    (written, if clashes r (lookup r.key table) then r ∷ conflicts else conflicts)

-- A transaction that fails leaves the file as it was.
unfoldable pub commit : Bool → List Row → Table → Table
unfolding write_batch
commit ok batch table = if ok then (write_batch batch table).0 else table

-- The messages that one transaction takes: the rows, the flush that ends them, and what is left.
unfoldable pub collect : List Message → List Row → List Row × Option ℕ × List Message
collect [] batch = (batch, none, [])
collect (rows rs ∷ messages) batch =
    let more = collect messages (batch ++ rs) in
    if leb max_batch (length (batch ++ rs)) then (batch ++ rs, none, messages) else more
collect (flush done ∷ messages) batch = (batch, some done, messages)

abbrev pub reply : Option ℕ → List ℕ → List ℕ
reply none answered = answered
reply (some done) answered = answered ++ done ∷ []

-- One turn of `write_loop`.
unfoldable pub writer_turn : Bool → SqliteCache → SqliteCache
unfolding commit collect
writer_turn ok cache =
    let (batch, done, rest) = collect cache.channel [] in
    record cache {
      channel = rest;
      table = if is_empty batch then cache.table else commit ok batch cache.table;
      answered = reply done cache.answered;
    }

unfoldable pub flush_request : ℕ → SqliteCache → SqliteCache
flush_request done cache = record cache { channel = cache.channel ++ flush done ∷ [] }

-- The turns that are left when the channel closes, of which the one numbered `n` succeeds if
-- `oks n`.
unfoldable pub drain : (ℕ → Bool) → ℕ → SqliteCache → SqliteCache
unfolding writer_turn
drain oks zero cache = cache
drain oks (suc turns) cache = drain oks turns (writer_turn (oks turns) cache)

-- `Drop`: a turn takes a message at least, so as many turns as messages empty the channel.
unfoldable pub drop : (ℕ → Bool) → SqliteCache → SqliteCache
unfolding drain
drop oks cache = drain oks (length cache.channel) cache

-- `entry(..).or_insert(..)`: the map, and the verdict that it holds.
unfoldable pub remember : ℕ → CachedValue → SqliteCache → SqliteCache × CachedValue
remember k v cache = elim (lookup k cache.stored) [
  | some w ↦ (cache, w)
  | none ↦ (record cache { stored = insert k v cache.stored }, v)
]

-- A read of the file; a read that fails is a miss.
unfoldable pub committed : Bool → ℕ → SqliteCache → Option CachedValue
unfolding verdict_of_row
committed ok k cache = elim (lookup k cache.table) [
  | none ↦ none
  | some r ↦ if ok then some (verdict_of_row r) else none
]

module _ (digest : List (List ℕ) → ℕ) where
  unfoldable pub row_key : CacheKey → ℕ
  row_key key = digest (
      key.type_version
      ∷ key.field
      ∷ le_bytes 16 key.input_digest
      ∷ key.model_id
      ∷ key.prompt_version
      ∷ [])

  abbrev pub row_of : CacheKey → CachedValue → Row
  row_of key (value text) = record {
    key = row_key key;
    type_version = key.type_version;
    field = key.field;
    model_id = key.model_id;
    prompt_version = key.prompt_version;
    is_error = false;
    text = text;
  }
  row_of key (error text) = record {
    key = row_key key;
    type_version = key.type_version;
    field = key.field;
    model_id = key.model_id;
    prompt_version = key.prompt_version;
    is_error = true;
    text = text;
  }

  -- The loop of `store` under the lock: the map, and the rows to send.
  unfoldable pub admit : List (CacheKey × CachedValue) → Stored → Stored × List Row
  unfolding row_key
  admit [] stored = (stored, [])
  admit ((key, v) ∷ entries) stored =
      let skipped = admit entries stored in
      let (next, rows_sent) = admit entries (insert (row_key key) v stored) in
      if is_some (lookup (row_key key) stored) then skipped else (next, row_of key v ∷ rows_sent)

  unfoldable pub store : List (CacheKey × CachedValue) → SqliteCache → SqliteCache
  unfolding admit
  store entries cache =
      let (stored, rows_sent) = admit entries cache.stored in
      if is_empty rows_sent
      then record cache { stored = stored }
      else record cache { stored = stored; channel = cache.channel ++ rows rows_sent ∷ [] }

  unfoldable pub put : CacheKey → CachedValue → SqliteCache → SqliteCache
  unfolding store
  put key v cache = store ((key, v) ∷ []) cache

  unfoldable pub put_many : List (CacheKey × CachedValue) → SqliteCache → SqliteCache
  unfolding store
  put_many entries cache = store entries cache

  -- A get looks at the map, reads the file and looks at the map again, each under its own lock. What
  -- the other threads do before the read and before the second look is given as two functions.
  unfoldable pub get_amid :
      Bool
      → CacheKey
      → (SqliteCache → SqliteCache)
      → (SqliteCache → SqliteCache)
      → SqliteCache
      → SqliteCache × Option CachedValue
  unfolding row_key remember committed
  get_amid ok key before_read before_look cache = elim (lookup (row_key key) cache.stored) [
    | some v ↦ (cache, some v)
    | none ↦ elim (committed ok (row_key key) (before_read cache)) [
      | none ↦ (before_read cache, none)
      | some v ↦
          let (next, w) = remember (row_key key) v (before_look (before_read cache)) in
          (next, some w)
    ]
  ]

  -- A get that no other thread interrupts.
  unfoldable pub get : Bool → CacheKey → SqliteCache → SqliteCache × Option CachedValue
  unfolding get_amid
  get ok key cache = get_amid ok key (λ c. c) (λ c. c) cache

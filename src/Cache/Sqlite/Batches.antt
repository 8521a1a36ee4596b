-- ===== src/Cache/Sqlite/Batches.antt =====
-- src/cache/sqlite.rs: what one transaction of the writer takes from the channel.
use semcast.Base.{
  ℕ, ◌≡◌, refl, ap, sym, inl, inr, Option, none, some, List, [], ◌∷◌, ◌++◌, arith, Option-cases,
  Bool-cases, ◌∙◌, length, ◌≤◌, ◌-◌, leb, some_is_none,
}
use semcast.Base.Assoc.{nat_key, lookup, lookup-insert_ne}
use semcast.Cache.Sqlite.{
  Row, Message, rows, flush, collect, max_batch, Table, write_batch, insert_or_ignore,
}

-- The rows of a list of messages, in the order in which they were sent.
unfoldable pub rows_sent : List Message → List Row
rows_sent [] = []
rows_sent (rows rs ∷ messages) = rs ++ rows_sent messages
rows_sent (flush done ∷ messages) = rows_sent messages

-- The flush requests of a list of messages.
unfoldable pub asked : List Message → List ℕ
asked [] = []
asked (rows rs ∷ messages) = asked messages
asked (flush done ∷ messages) = done ∷ asked messages

abbrev pub to_list : Option ℕ → List ℕ
to_list none = []
to_list (some done) = done ∷ []

append_assoc : (a b c : List Row) → (a ++ b) ++ c ≡ a ++ (b ++ c)
append_assoc [] b c = refl
append_assoc (x ∷ a) b c = ap (λ r. x ∷ r) (append_assoc a b c)

pub append_nil : (a : List Row) → a ++ [] ≡ a
append_nil [] = refl
append_nil (x ∷ a) = ap (λ r. x ∷ r) (append_nil a)

pub sent-append : (a b : List Message) → rows_sent (a ++ b) ≡ rows_sent a ++ rows_sent b
unfolding rows_sent
sent-append [] b = refl
sent-append (rows rs ∷ a) b =
    ap (λ r. rs ++ r) (sent-append a b) ∙ sym (append_assoc rs (rows_sent a) (rows_sent b))
sent-append (flush done ∷ a) b = sent-append a b

pub asked-append : (a b : List Message) → asked (a ++ b) ≡ asked a ++ asked b
unfolding asked
asked-append [] b = refl
asked-append (rows rs ∷ a) b = asked-append a b
asked-append (flush done ∷ a) b = ap (λ r. done ∷ r) (asked-append a b)

-- What a transaction takes: whole messages from the front, of which it commits all the rows after
-- those it had; it answers the flush among them.
unfoldable pub TakesWhole : List Message → List Row → List Row × Option ℕ × List Message → Type 0
unfolding rows_sent asked
TakesWhole messages batch out =
    (taken : List Message) × (messages ≡ taken ++ out.2)
    × (out.0 ≡ batch ++ rows_sent taken)
    × (asked taken ≡ to_list out.1)

collect_whole :
    (messages : List Message) (batch : List Row)
    → TakesWhole messages batch (collect messages batch)
unfolding collect TakesWhole rows_sent asked
collect_whole [] batch = ([], refl, sym (append_nil batch), refl)
collect_whole (flush done ∷ messages) batch = (flush done ∷ [], refl, sym (append_nil batch), refl)
collect_whole (rows rs ∷ messages) batch =
    elim (Bool-cases (leb max_batch (length (batch ++ rs)))) [
      | inl e ↦ rw e (rows rs ∷ [], refl, ap (λ r. batch ++ r) (sym (append_nil rs)), refl)
      | inr e ↦ rw e (
          let (taken, split, all, done) = collect_whole messages (batch ++ rs) in
          (
            rows rs ∷ taken,
            ap (λ r. rows rs ∷ r) split,
            all ∙ append_assoc batch rs (rows_sent taken),
            done,
          ))
    ]

-- A transaction takes whole messages from the front of the channel: its rows are all the rows of
-- the messages it takes, in order, so that no group is split, and it answers exactly the flush among
-- them; the rest of the channel stays as it was.
pub collect-TakesWhole : (messages : List Message) → TakesWhole messages [] (collect messages [])
collect-TakesWhole messages = collect_whole messages []

-- A turn with something to take takes something.
pub collect-progress :
    (messages : List Message) (batch : List Row)
    → length (collect messages batch).2 ≤ length messages - 1
unfolding collect
collect-progress [] batch = omega arith
collect-progress (flush done ∷ messages) batch = omega arith
collect-progress (rows rs ∷ messages) batch =
    elim (Bool-cases (leb max_batch (length (batch ++ rs)))) [
      | inl e ↦ rw e (omega arith)
      | inr e ↦ rw e (omega (arith, collect-progress messages (batch ++ rs)))
    ]

-- The file keeps the row of a key that it has.
pub ignore-kept :
    (k : ℕ) (r s : Row) (table : Table)
    → lookup k table ≡ some r
    → lookup k (insert_or_ignore s table) ≡ some r
unfolding insert_or_ignore
ignore-kept k r s table held = elim (Option-cases (lookup s.key table)) [
  | inl e ↦ rw e (
      lookup-insert_ne s.key k s table
        (λ q. some_is_none (sym held ∙ ap (λ x. lookup x table) (sym q) ∙ e))
      ∙ held)
  | inr (u, e) ↦ rw e held
]

-- The file keeps the rows that it has.
pub write_batch-kept :
    (k : ℕ) (r : Row) (batch : List Row) (table : Table)
    → lookup k table ≡ some r
    → lookup k (write_batch batch table).0 ≡ some r
unfolding write_batch
write_batch-kept k r [] table held = held
write_batch-kept k r (s ∷ batch) table held =
    write_batch-kept k r batch (insert_or_ignore s table) (ignore-kept k r s table held)

pub write_batch-append :
    (a b : List Row) (table : Table)
    → (write_batch (a ++ b) table).0 ≡ (write_batch b (write_batch a table).0).0
unfolding write_batch
write_batch-append [] b table = refl
write_batch-append (r ∷ a) b table = write_batch-append a b (insert_or_ignore r table)

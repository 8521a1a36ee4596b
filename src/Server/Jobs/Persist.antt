-- ===== src/Server/Jobs/Persist.antt =====
-- The records on disk: src/server/jobs/mod.rs flushes every change before the lock is released.
use semcast.Base.{
  ℕ, ◌+◌, ◌≡◌, ◌≢◌, refl, sym, ap, subst, ◌∙◌, inl, inr, Bool, true, false, none, some, List, [],
  ◌∷◌, Bool-cases, Option-cases, All, usize,
}
use mathlib.Core.Option.{some-injective}
use semcast.Base.Text.{Chars}
use semcast.Base.Assoc.{
  lookup, insert, chars_eq, ◌=?◌, chars_beq_iff, lookup-insert_self, lookup-insert_ne,
}
use semcast.Server.Jobs.{
  is_terminal, JobRecord, JobEntry, Registry, Serde, get, create, store, put_entry, new_registry,
  new_record, job_id, write_record,
}
use semcast.Server.Jobs.Lifecycle.{
  Op, attaches, starts, drains, ends, cancels, target, apply, after, apply-after, apply-missing,
  get-store, get-store_ne, get-put_ne, get-found,
}

-- A call on the registry from its clients and from the tasks of its jobs.
pub data Call : Type 0 where
  creates : Bool → Bool → ℕ → Chars → Call
  does : Op → Call

-- The file operations of the call succeed.
abbrev pub flushes : Op → Bool
flushes (attaches id handle) = true
flushes (starts ok now id) = ok
flushes (drains ok id event) = ok
flushes (ends ok now id outcome) = ok
flushes (cancels ok now id) = ok

abbrev pub Flushed : Call → Type 0
Flushed (creates dir_ok write_ok now sql) = Unit
Flushed (does op) = flushes op ≡ true

true_is_false : true ≡ false → ⊥
true_is_false h = cc

module _ (serde : Serde) where
  unfoldable pub step : Call → Registry → Registry
  step (creates dir_ok write_ok now sql) reg = (create serde dir_ok write_ok now sql reg).0
  step (does op) reg = apply serde op reg

  unfoldable pub run_calls : List Call → Registry → Registry
  run_calls [] reg = reg
  run_calls (c ∷ cs) reg = run_calls cs (step c reg)

  -- The file of every listed job holds the job's record.
  unfoldable pub Persisted : Registry → Type 0
  Persisted reg =
      (j : Chars) (r : JobRecord) → get j reg ≡ some r → lookup j reg.disk ≡ some (serde.to_text r)

  disk-store :
      (id : Chars) (entry : JobEntry) (reg : Registry)
      → (store serde true id entry reg).disk ≡ insert id (serde.to_text entry.job) reg.disk
  unfolding store write_record
  disk-store id entry reg = refl

  store-at :
      (id : Chars) (entry : JobEntry) (reg : Registry) (r : JobRecord)
      → get id (store serde true id entry reg) ≡ some r
      → lookup id (store serde true id entry reg).disk ≡ some (serde.to_text r)
  store-at id entry reg r h =
      let e = some-injective entry.job r (sym (get-store serde true id entry reg) ∙ h) in
      ap (lookup id) (disk-store id entry reg)
      ∙ lookup-insert_self id (serde.to_text entry.job) reg.disk
      ∙ ap (λ x. some (serde.to_text x)) e

  store-Persisted :
      (id : Chars) (entry : JobEntry) (reg : Registry)
      → Persisted reg
      → Persisted (store serde true id entry reg)
  unfolding Persisted
  store-Persisted id entry reg p j r h = elim (Bool-cases (id =? j)) [
    | inl e ↦
        subst
          (λ k.
            get k (store serde true id entry reg) ≡ some r
            → lookup k (store serde true id entry reg).disk ≡ some (serde.to_text r))
          ((chars_beq_iff id j).0 e) (store-at id entry reg r) h
    | inr e ↦
        let ne : id ≢ j = λ q. true_is_false (sym ((chars_beq_iff id j).1 q) ∙ e) in
        ap (lookup j) (disk-store id entry reg)
        ∙ lookup-insert_ne id j (serde.to_text entry.job) reg.disk ne
        ∙ p j r (sym (get-store_ne serde true id j entry reg ne) ∙ h)
  ]

  -- The new handle of a job leaves its record as it is.
  attach-Persisted :
      (id : Chars) (entry : JobEntry) (handle : ℕ) (reg : Registry)
      → lookup id reg.jobs ≡ some entry
      → Persisted reg
      → Persisted (put_entry id (record entry { abort = some handle }) reg)
  unfolding Persisted
  attach-Persisted id entry handle reg found p j r h = elim (Bool-cases (id =? j)) [
    | inl e ↦
        subst
          (λ k.
            get k (put_entry id (record entry { abort = some handle }) reg) ≡ some r
            → lookup k reg.disk ≡ some (serde.to_text r))
          ((chars_beq_iff id j).0 e)
          (λ q. p id r (
            get-found serde id reg entry found
            ∙ sym (get-found serde id _ _ (lookup-insert_self id _ reg.jobs))
            ∙ q))
          h
    | inr e ↦
        let ne : id ≢ j = λ q. true_is_false (sym ((chars_beq_iff id j).1 q) ∙ e) in
        p j r (sym (get-put_ne serde id j _ reg ne) ∙ h)
  ]

  after-Persisted :
      (op : Op) (entry : JobEntry) (reg : Registry)
      → lookup (target op) reg.jobs ≡ some entry
      → flushes op ≡ true
      → Persisted reg
      → Persisted (after serde op entry reg)
  unfolding after
  after-Persisted (attaches id handle) entry reg h ok p = attach-Persisted id entry handle reg h p
  after-Persisted (drains ok id event) entry reg h e p =
      let at : ok ≡ true = e in rw (at, after) (store-Persisted id _ reg p)
  after-Persisted (ends ok now id outcome) entry reg h e p =
      let at : ok ≡ true = e in rw (at, after) (store-Persisted id _ reg p)
  after-Persisted (starts ok now id) entry reg h e p =
      let at : ok ≡ true = e in
      elim (Bool-cases (is_terminal entry.job.status)) [
        | inl t ↦ rw (t, after) p
        | inr t ↦ rw (t, at, after) (store-Persisted id _ reg p)
      ]
  after-Persisted (cancels ok now id) entry reg h e p =
      let at : ok ≡ true = e in
      elim (Bool-cases (is_terminal entry.job.status)) [
        | inl t ↦ rw (t, after) p
        | inr t ↦ rw (t, at, after) (store-Persisted id _ reg p)
      ]

  apply-Persisted :
      (op : Op) (reg : Registry)
      → flushes op ≡ true
      → Persisted reg
      → Persisted (apply serde op reg)
  apply-Persisted op reg ok p = elim (Option-cases (lookup (target op) reg.jobs)) [
    | inl e ↦ subst Persisted (sym (apply-missing serde op reg e)) p
    | inr (entry, e) ↦
        subst Persisted (sym (apply-after serde op reg entry e))
          (after-Persisted op entry reg e ok p)
  ]

  counted-Persisted :
      (n : ℕ) (reg : Registry) → Persisted reg → Persisted (record reg { counter = n })
  unfolding Persisted get
  counted-Persisted n reg p = p

  -- A failed creation lists nothing.
  create-Persisted :
      (dir_ok write_ok : Bool) (now : ℕ) (sql : Chars) (reg : Registry)
      → Persisted reg
      → Persisted (create serde dir_ok write_ok now sql reg).0
  unfolding create store
  create-Persisted false write_ok now sql reg p = counted-Persisted _ reg p
  create-Persisted true false now sql reg p = counted-Persisted _ reg p
  create-Persisted true true now sql reg p =
      store-Persisted (job_id now reg.counter)
        (record { job = new_record (job_id now reg.counter) sql now; abort = none })
        (record reg { counter = usize (reg.counter + 1) }) (counted-Persisted _ reg p)

  run_calls-Persisted :
      (calls : List Call) (reg : Registry)
      → All Flushed calls
      → Persisted reg
      → Persisted (run_calls calls reg)
  unfolding run_calls step
  run_calls-Persisted [] reg h p = p
  run_calls-Persisted (creates dir_ok write_ok now sql ∷ cs) reg h p =
      run_calls-Persisted cs _ h.1 (create-Persisted dir_ok write_ok now sql reg p)
  run_calls-Persisted (does op ∷ cs) reg h p =
      run_calls-Persisted cs _ h.1 (apply-Persisted op reg h.0 p)

  -- From a new registry, after any calls of which creations may fail and every other write
  -- succeeds, the job.json of each listed job reads back as the record that is listed.
  pub listed_jobs_are_on_disk :
      (calls : List Call) (max_concurrent : ℕ) (disk : List (Chars × Chars)) (j : Chars)
      (r : JobRecord)
      → All Flushed calls
      → get j (run_calls calls (new_registry max_concurrent disk)) ≡ some r
      → (text : Chars) × (lookup j (run_calls calls (new_registry max_concurrent disk)).disk
          ≡ some text)
        × (serde.from_text text ≡ some r)
  unfolding Persisted new_registry get lookup
  listed_jobs_are_on_disk calls max_concurrent disk j r h q = (
    serde.to_text r,
    run_calls-Persisted calls (new_registry max_concurrent disk) h (λ k s e. absurd (cc)) j r q,
    serde.round_trip r,
  )

-- ===== src/Server/Jobs/Lifecycle.antt =====
-- What the operations of src/server/jobs/mod.rs and runner.rs do to a job's record, in any order:
-- a terminal record is final, and an operation on one job leaves the others alone.
use semcast.Base.{
  ℕ, ◌≡◌, ◌≢◌, refl, sym, ap, subst, ◌∙◌, inl, inr, Bool, true, false, none, some, if◌then◌else◌,
  Bool-cases, Option-cases,
}
use mathlib.Core.Option.{some-injective}
use semcast.Base.Text.{Chars}
use semcast.Base.Assoc.{lookup, lookup-insert_self, lookup-insert_ne, chars_eq, ◌=?◌, chars_beq_iff}
use semcast.Server.Jobs.{
  running, is_terminal, JobRecord, JobEntry, Registry, Serde, put_entry, store, spawn_attached,
  start, update, get, cancel, cancel_record,
}
use semcast.Server.Jobs.Runner.{
  Outcome, Event, conclude, finish_record, mirror, finish, drain_progress, run_end,
}

-- The calls that run while a job exists.
pub data Op : Type 0 where
  attaches : Chars → ℕ → Op
  starts : Bool → ℕ → Chars → Op
  drains : Bool → Chars → Event → Op
  ends : Bool → ℕ → Chars → Outcome → Op
  cancels : Bool → ℕ → Chars → Op

-- What an operation makes of the record of the job that it names.
abbrev pub effect : Op → JobRecord → JobRecord
effect (attaches id handle) r = r
effect (starts ok now id) r =
    if is_terminal r.status then r else record r { status = running; started_at_ms = some now }
effect (drains ok id event) r = mirror event r
effect (ends ok now id outcome) r = finish_record now (conclude outcome) r
effect (cancels ok now id) r = if is_terminal r.status then r else cancel_record now r

abbrev pub target : Op → Chars
target (attaches id handle) = id
target (starts ok now id) = id
target (drains ok id event) = id
target (ends ok now id outcome) = id
target (cancels ok now id) = id

none_is_some {ℓ} : {A : Type ℓ} {a : A} → none ≡ some a → ⊥
none_is_some h = cc

true_is_false : true ≡ false → ⊥
true_is_false h = cc

get-none : (id : Chars) (reg : Registry) → lookup id reg.jobs ≡ none → get id reg ≡ none
unfolding get
get-none id reg h = rw (h, get) refl

module _ (serde : Serde) where
  unfoldable pub apply : Op → Registry → Registry
  unfolding spawn_attached start drain_progress run_end cancel
  apply (attaches id handle) reg = spawn_attached serde id handle reg
  apply (starts ok now id) reg = (start serde ok now id reg).0
  apply (drains ok id event) reg = drain_progress serde ok id event reg
  apply (ends ok now id outcome) reg = run_end serde ok now id outcome reg
  apply (cancels ok now id) reg = (cancel serde ok now id reg).0

  pub get-store :
      (ok : Bool) (id : Chars) (entry : JobEntry) (reg : Registry)
      → get id (store serde ok id entry reg) ≡ some entry.job
  unfolding get store
  get-store true id entry reg = rw (lookup-insert_self id entry reg.jobs, get) refl
  get-store false id entry reg = rw (lookup-insert_self id entry reg.jobs, get) refl

  pub get-store_ne :
      (ok : Bool) (id j : Chars) (entry : JobEntry) (reg : Registry)
      → id ≢ j
      → get j (store serde ok id entry reg) ≡ get j reg
  unfolding get store
  get-store_ne true id j entry reg h = rw (lookup-insert_ne id j entry reg.jobs h, get) refl
  get-store_ne false id j entry reg h = rw (lookup-insert_ne id j entry reg.jobs h, get) refl

  pub get-found :
      (id : Chars) (reg : Registry) (entry : JobEntry)
      → lookup id reg.jobs ≡ some entry
      → get id reg ≡ some entry.job
  unfolding get
  get-found id reg entry found = rw (found, get) refl

  pub get-some :
      (id : Chars) (reg : Registry) (r : JobRecord)
      → get id reg ≡ some r
      → (entry : JobEntry) × (lookup id reg.jobs ≡ some entry) × (entry.job ≡ r)
  unfolding get
  get-some id reg r h = elim (Option-cases (lookup id reg.jobs)) [
    | inl e ↦ absurd (none_is_some (sym (get-none id reg e) ∙ h))
    | inr (entry, e) ↦ (entry, e, some-injective entry.job r (sym (get-found id reg entry e) ∙ h))
  ]

  -- An operation on a job that is listed, by the entry.
  unfoldable pub after : Op → JobEntry → Registry → Registry
  after (attaches id handle) entry reg = put_entry id (record entry { abort = some handle }) reg
  after (starts ok now id) entry reg =
      if is_terminal entry.job.status
      then reg
      else store serde ok id
          (record entry { job = record (entry.job) { status = running; started_at_ms = some now } })
          reg
  after (drains ok id event) entry reg =
      store serde ok id (record entry { job = mirror event entry.job }) reg
  after (ends ok now id outcome) entry reg =
      store serde ok id (record entry { job = finish_record now (conclude outcome) entry.job }) reg
  after (cancels ok now id) entry reg =
      if is_terminal entry.job.status
      then reg
      else store serde ok id (record { job = cancel_record now entry.job; abort = none }) reg

  pub apply-after :
      (op : Op) (reg : Registry) (entry : JobEntry)
      → lookup (target op) reg.jobs ≡ some entry
      → apply op reg ≡ after op entry reg
  unfolding apply after spawn_attached start update finish drain_progress run_end cancel
  apply-after (attaches id handle) reg entry h =
      let at : lookup id reg.jobs ≡ some entry = h in rw (at, apply, spawn_attached) refl
  apply-after (starts ok now id) reg entry h =
      let at : lookup id reg.jobs ≡ some entry = h in
      elim (Bool-cases (is_terminal entry.job.status)) [
        | inl e ↦ rw (at, apply, start, e) refl
        | inr e ↦ rw (at, apply, start, e) refl
      ]
  apply-after (drains ok id event) reg entry h =
      let at : lookup id reg.jobs ≡ some entry = h in rw (at, apply, drain_progress, update) refl
  apply-after (ends ok now id outcome) reg entry h =
      let at : lookup id reg.jobs ≡ some entry = h in rw (at, apply, run_end, finish, update) refl
  apply-after (cancels ok now id) reg entry h =
      let at : lookup id reg.jobs ≡ some entry = h in
      elim (Bool-cases (is_terminal entry.job.status)) [
        | inl e ↦ rw (at, apply, cancel, e) refl
        | inr e ↦ rw (at, apply, cancel, e) refl
      ]

  pub apply-missing :
      (op : Op) (reg : Registry) → lookup (target op) reg.jobs ≡ none → apply op reg ≡ reg
  unfolding apply spawn_attached start update finish drain_progress run_end cancel
  apply-missing (attaches id handle) reg h =
      let at : lookup id reg.jobs ≡ none = h in rw (at, apply, spawn_attached) refl
  apply-missing (starts ok now id) reg h =
      let at : lookup id reg.jobs ≡ none = h in rw (at, apply, start) refl
  apply-missing (drains ok id event) reg h =
      let at : lookup id reg.jobs ≡ none = h in rw (at, apply, drain_progress, update) refl
  apply-missing (ends ok now id outcome) reg h =
      let at : lookup id reg.jobs ≡ none = h in rw (at, apply, run_end, finish, update) refl
  apply-missing (cancels ok now id) reg h =
      let at : lookup id reg.jobs ≡ none = h in rw (at, apply, cancel) refl

  get-after :
      (op : Op) (reg : Registry) (entry : JobEntry)
      → lookup (target op) reg.jobs ≡ some entry
      → get (target op) (after op entry reg) ≡ some (effect op entry.job)
  unfolding after
  get-after (attaches id handle) reg entry h = get-found id _ _ (lookup-insert_self id _ reg.jobs)
  get-after (drains ok id event) reg entry h = get-store ok id _ reg
  get-after (ends ok now id outcome) reg entry h = get-store ok id _ reg
  get-after (starts ok now id) reg entry h = elim (Bool-cases (is_terminal entry.job.status)) [
    | inl e ↦ rw (e, after) (get-found id reg entry h)
    | inr e ↦ rw (e, after) (get-store ok id _ reg)
  ]
  get-after (cancels ok now id) reg entry h = elim (Bool-cases (is_terminal entry.job.status)) [
    | inl e ↦ rw (e, after) (get-found id reg entry h)
    | inr e ↦ rw (e, after) (get-store ok id _ reg)
  ]

  -- An operation changes its own job's record by its effect, and no other record.
  apply-effect :
      (op : Op) (reg : Registry) (r : JobRecord)
      → get (target op) reg ≡ some r
      → get (target op) (apply op reg) ≡ some (effect op r)
  apply-effect op reg r h =
      let (entry, found, e) = get-some (target op) reg r h in
      subst (λ x. get (target op) (apply op reg) ≡ some (effect op x)) e
        (ap (get (target op)) (apply-after op reg entry found) ∙ get-after op reg entry found)

  pub get-put_ne :
      (id j : Chars) (entry : JobEntry) (reg : Registry)
      → id ≢ j
      → get j (put_entry id entry reg) ≡ get j reg
  unfolding get
  get-put_ne id j entry reg h = rw (lookup-insert_ne id j entry reg.jobs h, get) refl

  get-after_ne :
      (op : Op) (reg : Registry) (j : Chars) (entry : JobEntry)
      → target op ≢ j
      → get j (after op entry reg) ≡ get j reg
  unfolding after
  get-after_ne (attaches id handle) reg j entry h = get-put_ne id j _ reg h
  get-after_ne (drains ok id event) reg j entry h = get-store_ne ok id j _ reg h
  get-after_ne (ends ok now id outcome) reg j entry h = get-store_ne ok id j _ reg h
  get-after_ne (starts ok now id) reg j entry h = elim (Bool-cases (is_terminal entry.job.status)) [
    | inl t ↦ rw (t, after) refl
    | inr t ↦ rw (t, after) (get-store_ne ok id j _ reg h)
  ]
  get-after_ne (cancels ok now id) reg j entry h =
      elim (Bool-cases (is_terminal entry.job.status)) [
        | inl t ↦ rw (t, after) refl
        | inr t ↦ rw (t, after) (get-store_ne ok id j _ reg h)
      ]

  apply-other :
      (op : Op) (reg : Registry) (j : Chars) → target op ≢ j → get j (apply op reg) ≡ get j reg
  apply-other op reg j h = elim (Option-cases (lookup (target op) reg.jobs)) [
    | inl e ↦ ap (get j) (apply-missing op reg e)
    | inr (entry, e) ↦ ap (get j) (apply-after op reg entry e) ∙ get-after_ne op reg j entry h
  ]

  get-apply_own :
      (op : Op) (reg : Registry) (j : Chars) (r : JobRecord)
      → target op ≡ j
      → get j reg ≡ some r
      → get j (apply op reg) ≡ some (effect op r)
  get-apply_own op reg j r q h =
      subst (λ k. get k reg ≡ some r → get k (apply op reg) ≡ some (effect op r)) q
        (apply-effect op reg r) h

  target-is : (op : Op) (j : Chars) → target op ≡ j → (target op =? j) ≡ true
  target-is op j q = (chars_beq_iff (target op) j).1 q

  -- One call on the whole registry: the record of the job that it names changes by the call's
  -- effect, any other record stays as it is.
  pub get-apply :
      (op : Op) (reg : Registry) (j : Chars) (r : JobRecord)
      → get j reg ≡ some r
      → get j (apply op reg) ≡ some (if target op =? j then effect op r else r)
  get-apply op reg j r h = elim (Bool-cases (target op =? j)) [
    | inl e ↦ rw e (get-apply_own op reg j r ((chars_beq_iff (target op) j).0 e) h)
    | inr e ↦ rw e (apply-other op reg j (λ q. true_is_false (sym (target-is op j q) ∙ e)) ∙ h)
  ]

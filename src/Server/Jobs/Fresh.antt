-- ===== src/Server/Jobs/Fresh.antt =====
-- The creations of src/server/jobs/mod.rs that leave a listed job alone: those that mint another id.
use semcast.Base.{
  ℕ, suc, ◌+◌, ◌≡◌, ◌≢◌, ◌<◌, ◌^◌, refl, ap, ◌∙◌, inl, inr, Bool, true, false, none, List, [], ◌∷◌,
  length, arith, usize, Bool-cases, Option-cases,
}
use semcast.Base.Text.{Chars}
use semcast.Base.Assoc.{lookup, chars_eq}
use semcast.Server.Jobs.{
  is_terminal, JobEntry, Registry, Serde, get, create, store, new_record, job_id, write_record,
}
use semcast.Server.Jobs.Ids.{job_id_injective}
use semcast.Server.Jobs.Lifecycle.{
  Op, attaches, starts, drains, ends, cancels, target, apply, after, apply-after, apply-missing,
  get-store_ne,
}
use semcast.Server.Jobs.Persist.{Call, creates, does, step}

module _ (serde : Serde) where
  -- No creation among the calls mints the id.
  unfoldable pub Spares : Chars → List Call → Registry → Type 0
  unfolding step
  Spares j [] reg = Unit
  Spares j (creates dir_ok write_ok now sql ∷ calls) reg =
      (job_id now reg.counter ≢ j)
      × Spares j calls (step serde (creates dir_ok write_ok now sql) reg)
  Spares j (does op ∷ calls) reg = Spares j calls (apply serde op reg)

  counted-get :
      (j : Chars) (n : ℕ) (reg : Registry) → get j (record reg { counter = n }) ≡ get j reg
  unfolding get
  counted-get j n reg = refl

  pub create-other :
      (dir_ok write_ok : Bool) (now : ℕ) (sql j : Chars) (reg : Registry)
      → job_id now reg.counter ≢ j
      → get j (create serde dir_ok write_ok now sql reg).0 ≡ get j reg
  unfolding create store
  create-other false write_ok now sql j reg ne = counted-get j _ reg
  create-other true false now sql j reg ne = counted-get j _ reg
  create-other true true now sql j reg ne =
      let id = job_id now reg.counter in
      get-store_ne serde true id j (record { job = new_record id sql now; abort = none })
        (record reg { counter = usize (reg.counter + 1) }) ne
      ∙ counted-get j _ reg

  create-counter :
      (dir_ok write_ok : Bool) (now : ℕ) (sql : Chars) (reg : Registry)
      → (create serde dir_ok write_ok now sql reg).0.counter ≡ usize (reg.counter + 1)
  unfolding create write_record
  create-counter false write_ok now sql reg = refl
  create-counter true false now sql reg = refl
  create-counter true true now sql reg = refl

  store-counter :
      (ok : Bool) (id : Chars) (entry : JobEntry) (reg : Registry)
      → (store serde ok id entry reg).counter ≡ reg.counter
  unfolding store write_record
  store-counter true id entry reg = refl
  store-counter false id entry reg = refl

  after-counter :
      (op : Op) (entry : JobEntry) (reg : Registry)
      → (after serde op entry reg).counter ≡ reg.counter
  unfolding after
  after-counter (attaches id handle) entry reg = refl
  after-counter (drains ok id event) entry reg = store-counter ok id _ reg
  after-counter (ends ok now id outcome) entry reg = store-counter ok id _ reg
  after-counter (starts ok now id) entry reg = elim (Bool-cases (is_terminal entry.job.status)) [
    | inl t ↦ rw (t, after) refl
    | inr t ↦ rw (t, after) (store-counter ok id _ reg)
  ]
  after-counter (cancels ok now id) entry reg = elim (Bool-cases (is_terminal entry.job.status)) [
    | inl t ↦ rw (t, after) refl
    | inr t ↦ rw (t, after) (store-counter ok id _ reg)
  ]

  apply-counter : (op : Op) (reg : Registry) → (apply serde op reg).counter ≡ reg.counter
  apply-counter op reg = elim (Option-cases (lookup (target op) reg.jobs)) [
    | inl e ↦ ap (λ (r : Registry). r.counter) (apply-missing serde op reg e)
    | inr (entry, e) ↦
        ap (λ (r : Registry). r.counter) (apply-after serde op reg entry e)
        ∙ after-counter op entry reg
  ]

  -- A registry never mints an id again: an id with a sequence number that is spent is not minted by
  -- any calls, whatever the clock says at each creation, as long as the 64-bit counter does not wrap.
  pub minted_ids_are_spared :
      (t n : ℕ) (calls : List Call) (reg : Registry)
      → n < reg.counter
      → reg.counter + length calls < 2 ^ 64
      → Spares (job_id t n) calls reg
  unfolding Spares step
  minted_ids_are_spared t n [] reg spent few = tt
  minted_ids_are_spared t n (creates dir_ok write_ok now sql ∷ calls) reg spent few =
      let next : (create serde dir_ok write_ok now sql reg).0.counter ≡ suc reg.counter =
        create-counter dir_ok write_ok now sql reg ∙ omega arith in
      (
        λ same. let (clock, seq) = job_id_injective now reg.counter t n same in omega arith,
        minted_ids_are_spared t n calls _ (omega arith) (omega arith),
      )
  minted_ids_are_spared t n (does op ∷ calls) reg spent few =
      let next = apply-counter op reg in
      minted_ids_are_spared t n calls _ (omega arith) (omega arith)

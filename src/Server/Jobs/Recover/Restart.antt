-- ===== src/Server/Jobs/Recover/Restart.antt =====
-- What `recover` of src/server/jobs/mod.rs leaves of the jobs of the previous process.
use semcast.Base.{
  ℕ, ◌+◌, ◌≡◌, ◌≢◌, refl, sym, ap, subst, ◌∙◌, inl, inr, Bool, true, false, none, some, List, [],
  ◌∷◌, usize, Bool-cases, Option-cases,
}
use mathlib.Core.Option.{some-injective}
use semcast.Base.Text.{Chars}
use semcast.Base.Assoc.{lookup, chars_eq, ◌=?◌, chars_beq_iff, lookup-insert_self}
use semcast.Server.Jobs.{
  is_terminal, JobRecord, JobEntry, Registry, Serde, get, put_entry, new_registry, write_record,
}
use semcast.Server.Jobs.Lifecycle.{get-found, get-put_ne}
use semcast.Server.Jobs.Recover.{
  Item, broken, file, dir, interrupt, recover_record, recover_from, recover,
}

true_is_false : true ≡ false → ⊥
true_is_false h = cc

module _ (serde : Serde) (now : ℕ) where
  Settled : Registry → Type 0
  Settled reg = (j : Chars) (r : JobRecord) → get j reg ≡ some r → is_terminal r.status ≡ true

  put-Settled :
      (id : Chars) (entry : JobEntry) (reg : Registry)
      → is_terminal entry.job.status ≡ true
      → Settled reg
      → Settled (put_entry id entry reg)
  unfolding Settled
  put-Settled id entry reg t p j r h = elim (Bool-cases (id =? j)) [
    | inl e ↦
        subst (λ k. get k (put_entry id entry reg) ≡ some r → is_terminal r.status ≡ true)
          ((chars_beq_iff id j).0 e)
          (λ q.
            let found = get-found serde id _ _ (lookup-insert_self id entry reg.jobs) in
            ap (λ (x : JobRecord). is_terminal x.status)
              (sym (some-injective entry.job r (sym found ∙ q)))
            ∙ t)
          h
    | inr e ↦
        let ne : id ≢ j = λ q. true_is_false (sym ((chars_beq_iff id j).1 q) ∙ e) in
        p j r (sym (get-put_ne serde id j entry reg ne) ∙ h)
  ]

  write-Settled :
      (ok : Bool) (name : Chars) (r : JobRecord) (reg : Registry)
      → Settled reg
      → Settled (write_record serde ok name r reg)
  unfolding Settled write_record get
  write-Settled true name r reg p = p
  write-Settled false name r reg p = p

  recover_record-Settled :
      (name : Chars) (ok : Bool) (r : JobRecord) (reg : Registry)
      → Settled reg
      → Settled (recover_record serde now name ok r reg)
  unfolding recover_record
  recover_record-Settled name ok r reg p = elim (Bool-cases (is_terminal r.status)) [
    | inl e ↦ rw (e, recover_record) (put-Settled r.id _ reg e p)
    | inr e ↦
        rw (e, recover_record)
          (put-Settled r.id _ _ refl (write-Settled ok name (interrupt now r) reg p))
  ]

  recover_from-Settled :
      (items : List Item) (n : ℕ) (reg : Registry)
      → Settled reg
      → Settled (recover_from serde now items n reg).0
  unfolding recover_from
  recover_from-Settled [] n reg p = p
  recover_from-Settled (broken ∷ items) n reg p = p
  recover_from-Settled (file ∷ items) n reg p = recover_from-Settled items n reg p
  recover_from-Settled (dir name none ok ∷ items) n reg p = recover_from-Settled items n reg p
  recover_from-Settled (dir name (some text) ok ∷ items) n reg p =
      elim (Option-cases (serde.from_text text)) [
        | inl e ↦ rw (e, recover_from) (recover_from-Settled items n reg p)
        | inr (r, e) ↦
            rw (e, recover_from)
              (recover_from-Settled items (usize (n + 1)) (recover_record serde now name ok r reg)
                (recover_record-Settled name ok r reg p))
      ]

  -- After recovery from any directory, into a new registry, every job that is listed has a terminal
  -- status: none of the previous process's jobs is left queued or running, also where the listing
  -- breaks, a record does not parse, or the mark cannot be written.
  pub recovered_jobs_are_terminal :
      (items : List Item) (max_concurrent : ℕ) (disk : List (Chars × Chars)) (j : Chars)
      (r : JobRecord)
      → get j (recover serde now items (new_registry max_concurrent disk)).0 ≡ some r
      → is_terminal r.status ≡ true
  unfolding Settled recover new_registry get lookup
  recovered_jobs_are_terminal items max_concurrent disk j r h =
      recover_from-Settled items 0 (new_registry max_concurrent disk) (λ k s e. absurd (cc)) j r h

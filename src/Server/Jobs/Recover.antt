-- ===== src/Server/Jobs/Recover.antt =====
-- `JobRegistry::recover` of src/server/jobs/mod.rs, and what a restart makes of the jobs on disk.
pub mod Restart
use semcast.Base.{
  ℕ, ◌+◌, ◌≡◌, Bool, true, false, Option, none, some, List, [], ◌∷◌, usize, if◌then◌else◌,
}
use semcast.Base.Text.{Chars, codes}
use semcast.Server.Jobs.{
  JobStatus, interrupted, is_terminal, JobRecord, JobEntry, Registry, Serde, put_entry,
  write_record,
}

-- One item of the directory listing: an i/o error, a plain file, or a directory with what reading
-- its job.json gave and whether a write to it would succeed.
pub data Item : Type 0 where
  broken : Item
  file : Item
  dir : Chars → Option Chars → Bool → Item

abbrev pub interrupt : ℕ → JobRecord → JobRecord
interrupt now r = record r {
  status = interrupted;
  finished_at_ms = some now;
  error = some (codes "the server restarted while this job was running");
  result_path = none;
}

module _ (serde : Serde) (now : ℕ) where
  -- One record that was read: a job in flight is marked and flushed, then the job is listed.
  unfoldable pub recover_record : Chars → Bool → JobRecord → Registry → Registry
  unfolding write_record
  recover_record name ok r reg =
      if is_terminal r.status
      then put_entry r.id (record { job = r; abort = none }) reg
      else put_entry r.id (record { job = interrupt now r; abort = none })
          (write_record serde ok name (interrupt now r) reg)

  -- The loop: the registry, and the number of recovered jobs unless the listing broke.
  unfoldable pub recover_from : List Item → ℕ → Registry → Registry × Option ℕ
  unfolding recover_record
  recover_from [] recovered reg = (reg, some recovered)
  recover_from (broken ∷ items) recovered reg = (reg, none)
  recover_from (file ∷ items) recovered reg = recover_from items recovered reg
  recover_from (dir name none ok ∷ items) recovered reg = recover_from items recovered reg
  recover_from (dir name (some text) ok ∷ items) recovered reg = elim (serde.from_text text) [
    | none ↦ recover_from items recovered reg
    | some r ↦ recover_from items (usize (recovered + 1)) (recover_record name ok r reg)
  ]

  unfoldable pub recover : List Item → Registry → Registry × Option ℕ
  unfolding recover_from
  recover items reg = recover_from items 0 reg

-- ===== src/Server/Jobs.antt =====
-- src/server/jobs/mod.rs: the registry of batch jobs. The hash map is an association list, the jobs
-- directory a list of job directories with the text of their job.json, and an operation that runs
-- under the registry's lock is one function from the registry to the registry. The clock's
-- reading and the success of each file operation are arguments. Milliseconds since 1970 and row
-- counts fit their 64 bits and are plain numbers.
pub mod Runner
pub mod Recover
pub mod Ids
pub mod Lifecycle
pub mod Fresh
pub mod Final
pub mod Persist
use semcast.Base.{
  ℕ, ◌+◌, ◌≡◌, Bool, true, false, not, ◌&&◌, Option, none, some, List, [], ◌∷◌, ◌++◌, arith, usize,
  if◌then◌else◌, max, compare, Ordering,
}
use Prim.Native.Nat.{lt, eq, gt}
use semcast.Base.Text.{Chars, codes}
use semcast.Base.Decimal.{show_nat, show_padded}
use semcast.Base.Assoc.{lookup, insert, chars_eq}
use semcast.Server.Progress.Counts.{FunnelCounts, no_counts}

pub data JobStatus : Type 0 where
  queued running succeeded failed cancelled interrupted : JobStatus

pub as_str : JobStatus → Chars
as_str queued = codes "queued"
as_str running = codes "running"
as_str succeeded = codes "succeeded"
as_str failed = codes "failed"
as_str cancelled = codes "cancelled"
as_str interrupted = codes "interrupted"

abbrev pub is_terminal : JobStatus → Bool
is_terminal queued = false
is_terminal running = false
is_terminal _ = true

pub record JobRecord : Type 0 where
  pub id : Chars
  pub sql : Chars
  pub status : JobStatus
  pub submitted_at_ms : ℕ
  pub started_at_ms : Option ℕ
  pub finished_at_ms : Option ℕ
  pub rows : Option ℕ
  pub command_tag : Option Chars
  pub error : Option Chars
  pub progress : Option Chars
  pub funnel : FunnelCounts
  pub result_path : Option Chars

abbrev pub new_record : Chars → Chars → ℕ → JobRecord
new_record id sql submitted_at_ms = record {
  id = id;
  sql = sql;
  status = queued;
  submitted_at_ms = submitted_at_ms;
  started_at_ms = none;
  finished_at_ms = none;
  rows = none;
  command_tag = none;
  error = none;
  progress = none;
  funnel = no_counts;
  result_path = none;
}

-- An abort handle is the number of the task that it stops.
pub record JobEntry : Type 0 where
  pub job : JobRecord
  pub abort : Option ℕ

pub record Registry : Type 0 where
  pub permits : ℕ
  pub jobs : List (Chars × JobEntry)
  pub counter : ℕ
  pub disk : List (Chars × Chars)

-- serde_json: writing a record and reading the text back gives the record.
pub record Serde : Type 0 where
  pub to_text : JobRecord → Chars
  pub from_text : Chars → Option JobRecord
  pub round_trip : (r : JobRecord) → from_text (to_text r) ≡ some r

-- `JobRegistry::new`, over the directory as it is found.
unfoldable pub new_registry : ℕ → List (Chars × Chars) → Registry
new_registry max_concurrent disk = record {
  permits = max max_concurrent 1;
  jobs = [];
  counter = 0;
  disk = disk;
}

-- `job_{submitted_at_ms}_{seq:04}`.
unfoldable pub job_id : ℕ → ℕ → Chars
job_id now seq = codes "job_" ++ (show_nat now ++ b'_' ∷ show_padded 4 seq)

-- What `cancel` answers: an error, or the task to abort, if there is one.
pub data Cancellation : Type 0 where
  no_such_job : Cancellation
  already_finished : JobStatus → Cancellation
  aborts : Option ℕ → Cancellation

abbrev pub put_entry : Chars → JobEntry → Registry → Registry
put_entry id entry reg = record reg { jobs = insert id entry reg.jobs }

unfoldable pub get : Chars → Registry → Option JobRecord
get id reg = elim (lookup id reg.jobs) [ none ↦ none | some entry ↦ some entry.job ]

abbrev pub cancel_record : ℕ → JobRecord → JobRecord
cancel_record now r = record r { status = cancelled; finished_at_ms = some now; result_path = none }

module _ (serde : Serde) where
  -- Write-then-rename: the file changes as a whole, or not at all.
  unfoldable pub write_record : Bool → Chars → JobRecord → Registry → Registry
  write_record ok dir r reg =
      if ok then record reg { disk = insert dir (serde.to_text r) reg.disk } else reg

  -- The id, or nothing on an i/o error. The sequence number is spent either way.
  unfoldable pub create : Bool → Bool → ℕ → Chars → Registry → Registry × Option Chars
  unfolding write_record job_id
  create dir_ok write_ok now sql reg =
      let id = job_id now reg.counter in
      let r = new_record id sql now in
      let counted = record reg { counter = usize (reg.counter + 1) } in
      if dir_ok && write_ok
      then (
        put_entry id (record { job = r; abort = none }) (write_record true id r counted),
        some id,
      )
      else (counted, none)

  -- The task that `spawn` starts, its handle stored under the same lock.
  unfoldable pub spawn_attached : Chars → ℕ → Registry → Registry
  spawn_attached id handle reg = elim (lookup id reg.jobs) [
    | none ↦ reg
    | some entry ↦ put_entry id (record entry { abort = some handle }) reg
  ]

  -- Mutate a record and flush it.
  unfoldable pub store : Bool → Chars → JobEntry → Registry → Registry
  unfolding write_record
  store ok id entry reg = write_record ok id entry.job (put_entry id entry reg)

  unfoldable pub start : Bool → ℕ → Chars → Registry → Registry × Bool
  unfolding store
  start ok now id reg = elim (lookup id reg.jobs) [
    | none ↦ (reg, false)
    | some entry ↦ if is_terminal entry.job.status then (reg, false) else (
      store ok id
          (record entry { job = record (entry.job) { status = running; started_at_ms = some now } })
          reg,
      true,
    )
  ]

  unfoldable pub update : Bool → Chars → (JobRecord → JobRecord) → Registry → Registry
  unfolding store
  update ok id mutate reg = elim (lookup id reg.jobs) [
    | none ↦ reg
    | some entry ↦ store ok id (record entry { job = mutate entry.job }) reg
  ]

  unfoldable pub cancel : Bool → ℕ → Chars → Registry → Registry × Cancellation
  unfolding store
  cancel ok now id reg = elim (lookup id reg.jobs) [
    | none ↦ (reg, no_such_job)
    | some entry ↦
        if is_terminal entry.job.status then (reg, already_finished entry.job.status) else (
          store ok id (record { job = cancel_record now entry.job; abort = none }) reg,
          aborts entry.abort,
        )
  ]

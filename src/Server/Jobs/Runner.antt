-- ===== src/Server/Jobs/Runner.antt =====
-- src/server/jobs/runner.rs: the stages of a job's task between which other threads may run.
use semcast.Base.{ℕ, Bool, Option, none, some, if◌then◌else◌}
use semcast.Base.Text.{Chars, codes}
use semcast.Server.Progress.Counts.{FunnelCounts}
use semcast.Server.Jobs.{succeeded, failed, is_terminal, JobRecord, Registry, Serde, update}

-- What `execute_into` returned.
pub data Outcome : Type 0 where
  written : Chars → ℕ → Outcome
  command : Chars → Outcome
  buffered_rows : Outcome
  error_message : Chars → Outcome

-- A progress event with its rendered line, and the counts unless it is a line of the plan.
pub record Event : Type 0 where
  pub line : Chars
  pub counts : Option FunnelCounts

-- The closure that `run` hands to `finish`.
unfoldable pub conclude : Outcome → JobRecord → JobRecord
conclude (written path rows) r = record r {
  status = succeeded;
  rows = some rows;
  result_path = some path;
}
conclude (command tag) r = record r { status = succeeded; command_tag = some tag }
conclude buffered_rows r = record r {
  status = failed;
  error = some (codes "internal: job produced buffered rows");
}
conclude (error_message m) r = record r { status = failed; error = some m; result_path = none }

-- The closure of `finish`: a terminal record stays as it is.
abbrev pub finish_record : ℕ → (JobRecord → JobRecord) → JobRecord → JobRecord
finish_record now mutate r =
    if is_terminal r.status then r else mutate (record r { finished_at_ms = some now })

-- The closure of `drain_progress`.
abbrev pub mirror : Event → JobRecord → JobRecord
mirror event r = elim event.counts [
  | none ↦ record r { progress = some event.line }
  | some counts ↦ record r { progress = some event.line; funnel = counts }
]

module _ (serde : Serde) where
  unfoldable pub finish : Bool → ℕ → Chars → (JobRecord → JobRecord) → Registry → Registry
  unfolding update
  finish ok now id mutate reg = update serde ok id (finish_record now mutate) reg

  unfoldable pub drain_progress : Bool → Chars → Event → Registry → Registry
  unfolding update
  drain_progress ok id event reg = update serde ok id (mirror event) reg

  -- The end of `run`, once the statement returned.
  unfoldable pub run_end : Bool → ℕ → Chars → Outcome → Registry → Registry
  unfolding finish conclude
  run_end ok now id outcome reg = finish ok now id (conclude outcome) reg

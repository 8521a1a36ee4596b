-- ===== src/Server/Jobs/Final.antt =====
-- What no order of calls, once the server has run `recover` and takes calls, can do to a job of src/server/jobs/mod.rs: leave a terminal status, go
-- back in its life, or start after its cancellation.
use semcast.Base.{
  ℕ, ◌≤◌, ◌≡◌, refl, ap, ◌∙◌, inl, inr, Bool, true, false, some, List, [], ◌∷◌, arith,
  if◌then◌else◌, Bool-cases, Option-cases,
}
use semcast.Base.Text.{Chars}
use semcast.Base.Assoc.{◌=?◌, chars_eq}
use semcast.Server.Jobs.{
  JobStatus, queued, running, is_terminal, JobRecord, Registry, Serde, start, get,
}
use semcast.Server.Jobs.Fresh.{Spares, create-other}
use semcast.Server.Jobs.Persist.{Call, creates, does, step, run_calls}
use semcast.Server.Jobs.Runner.{Outcome, conclude, written, command, buffered_rows, error_message}
use semcast.Server.Jobs.Lifecycle.{
  Op, attaches, starts, drains, ends, cancels, effect, target, apply, get-apply, get-some,
}

-- The stage of a job's life.
unfoldable pub stage : JobStatus → ℕ
stage queued = 0
stage running = 1
stage _ = 2

-- The records that agree on all but the mirrored progress.
abbrev pub Agree : JobRecord → JobRecord → Type 0
Agree r s = s ≡ record r { progress = s.progress; funnel = s.funnel }

effect-Agree : (op : Op) (r : JobRecord) → is_terminal r.status ≡ true → Agree r (effect op r)
effect-Agree (attaches id handle) r h = refl
effect-Agree (starts ok now id) r h = rw h refl
effect-Agree (drains ok id event) r h = elim (Option-cases event.counts) [
  | inl e ↦ rw e refl
  | inr (c, e) ↦ rw e refl
]
effect-Agree (ends ok now id outcome) r h = rw h refl
effect-Agree (cancels ok now id) r h = rw h refl

stage-conclude : (outcome : Outcome) (r : JobRecord) → stage (conclude outcome r).status ≡ 2
unfolding conclude stage
stage-conclude (written path rows) r = refl
stage-conclude (command tag) r = refl
stage-conclude buffered_rows r = refl
stage-conclude (error_message m) r = refl

stage-le_two : (s : JobStatus) → stage s ≤ 2
unfolding stage
stage-le_two s = ground arith

stage-effect : (op : Op) (r : JobRecord) → stage r.status ≤ stage (effect op r).status
unfolding stage
stage-effect (attaches id handle) r = omega arith
stage-effect (starts ok now id) r = ground arith
stage-effect (drains ok id event) r = elim (Option-cases event.counts) [
  | inl e ↦ rw e (omega arith)
  | inr (c, e) ↦ rw e (omega arith)
]
stage-effect (ends ok now id outcome) r = elim (Bool-cases (is_terminal r.status)) [
  | inl e ↦ rw e (omega arith)
  | inr e ↦ rw e (
      omega (
        arith,
        stage-conclude outcome (record r { finished_at_ms = some now }),
        stage-le_two r.status,
      ))
]
stage-effect (cancels ok now id) r = ground arith

module _ (serde : Serde) where
  step-Agree :
      (b : Bool) (op : Op) (r : JobRecord)
      → is_terminal r.status ≡ true
      → Agree r (if b then effect op r else r)
  step-Agree true op r h = effect-Agree op r h
  step-Agree false op r h = refl

  Agree-trans : (r s t : JobRecord) → Agree r s → Agree s t → Agree r t
  Agree-trans r s t h k =
      k ∙ ap (λ (x : JobRecord). record x { progress = t.progress; funnel = t.funnel }) h

  Agree-terminal :
      (r s : JobRecord) → Agree r s → is_terminal r.status ≡ true → is_terminal s.status ≡ true
  Agree-terminal r s h t = ap (λ (x : JobRecord). is_terminal x.status) h ∙ t

  -- Once a job's record is terminal, no sequence of creations of other jobs, starts, progress, ends,
  -- cancellations and new handles, of which any may fail to write to disk, changes anything of it but
  -- the mirrored progress line and counts.
  pub terminal_is_final :
      (calls : List Call) (reg : Registry) (j : Chars) (r : JobRecord)
      → Spares serde j calls reg
      → get j reg ≡ some r
      → is_terminal r.status ≡ true
      → (s : JobRecord) × (get j (run_calls serde calls reg) ≡ some s) × Agree r s
  unfolding run_calls step Spares
  terminal_is_final [] reg j r spared h t = (r, h, refl)
  terminal_is_final (creates dir_ok write_ok now sql ∷ calls) reg j r spared h t =
      terminal_is_final calls _ j r spared.1
        (create-other serde dir_ok write_ok now sql j reg spared.0 ∙ h) t
  terminal_is_final (does op ∷ calls) reg j r spared h t =
      let s = if target op =? j then effect op r else r in
      let a = step-Agree (target op =? j) op r t in
      let (u, found, b) =
        terminal_is_final calls (apply serde op reg) j s spared (get-apply serde op reg j r h)
          (Agree-terminal r s a t) in
      (u, found, Agree-trans r s u a b)

  step_stage :
      (b : Bool) (op : Op) (r : JobRecord)
      → stage r.status ≤ stage (if b then effect op r else r).status
  step_stage true op r = stage-effect op r
  step_stage false op r = omega arith

  -- Under any sequence of creations of other jobs, starts, progress, ends, cancellations and new
  -- handles a job stays listed and its stage (queued, running, terminal) never goes back.
  pub never_goes_back :
      (calls : List Call) (reg : Registry) (j : Chars) (r : JobRecord)
      → Spares serde j calls reg
      → get j reg ≡ some r
      → (s : JobRecord) × (get j (run_calls serde calls reg) ≡ some s)
        × (stage r.status ≤ stage s.status)
  unfolding run_calls step Spares
  never_goes_back [] reg j r spared h = (r, h, omega arith)
  never_goes_back (creates dir_ok write_ok now sql ∷ calls) reg j r spared h =
      never_goes_back calls _ j r spared.1
        (create-other serde dir_ok write_ok now sql j reg spared.0 ∙ h)
  never_goes_back (does op ∷ calls) reg j r spared h =
      let s = if target op =? j then effect op r else r in
      let (u, found, b) =
        never_goes_back calls (apply serde op reg) j s spared (get-apply serde op reg j r h) in
      let a : stage r.status ≤ stage s.status = step_stage (target op =? j) op r in
      (u, found, omega arith)

  start-refused :
      (ok : Bool) (now : ℕ) (j : Chars) (reg : Registry) (r : JobRecord)
      → get j reg ≡ some r
      → is_terminal r.status ≡ true
      → start serde ok now j reg ≡ (reg, false)
  unfolding start
  start-refused ok now j reg r h t =
      let (entry, found, e) = get-some serde j reg r h in
      let k : is_terminal entry.job.status ≡ true =
        ap (λ (x : JobRecord). is_terminal x.status) e ∙ t in
      rw (found, start, k) refl

  -- A job whose record is terminal, such as one cancelled while queued, is refused by start after
  -- any creations of other jobs and any calls on existing ones, and the refusal changes nothing.
  pub terminal_never_starts :
      (calls : List Call) (reg : Registry) (j : Chars) (r : JobRecord) (ok : Bool) (now : ℕ)
      → Spares serde j calls reg
      → get j reg ≡ some r
      → is_terminal r.status ≡ true
      → start serde ok now j (run_calls serde calls reg) ≡ (run_calls serde calls reg, false)
  terminal_never_starts calls reg j r ok now spared h t =
      let (s, found, a) = terminal_is_final calls reg j r spared h t in
      start-refused ok now j (run_calls serde calls reg) s found (Agree-terminal r s a t)

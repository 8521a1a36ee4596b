-- ===== src/Server/Tests.antt =====
-- Runs of the job registry and of the progress counts at concrete inputs.
mod Words
use semcast.Base.{
  arith, ℕ, zero, suc, ◌≤◌, ◌≡◌, refl, ap, ◌∙◌, Bool, true, false, Option, none, some, List, [],
  ◌∷◌, get_or,
}
use semcast.Base.Text.{Chars, codes}
use semcast.Base.Assoc.{lookup, insert, chars_eq}
use semcast.Base.Decimal.{show_nat, show_padded, digits_from}
use semcast.Server.Progress.Counts.{FunnelCounts, no_counts}
use semcast.Server.Progress.Counts.{is_semantic}
use semcast.Server.Progress.{
  ExecutionPlan, node, cons, nil, verify, other, snapshot, semcast_nodes, collect, add_counts,
  add_all, counter_total, ProgressEvent, snapshot_if_changed,
}
use semcast.Server.Progress.Totals.{IsTotal, snapshot-IsTotal}
use semcast.Server.Progress.Ticks.{Ticked, snapshot_if_changed-Ticked}
use semcast.Server.Jobs.{
  JobStatus, queued, running, succeeded, failed, cancelled, interrupted, is_terminal, JobRecord,
  Registry, Serde, new_registry, new_record, get, start, create, store, write_record, job_id,
}
use semcast.Server.Jobs.Runner.{written}
use semcast.Server.Jobs.Lifecycle.{Op, starts, drains, ends, apply}
use semcast.Server.Jobs.Fresh.{Spares, minted_ids_are_spared}
use semcast.Server.Jobs.Final.{
  stage, Agree, terminal_is_final, never_goes_back, terminal_never_starts,
}
use semcast.Server.Jobs.Persist.{Call, creates, does, step, run_calls, listed_jobs_are_on_disk}
use semcast.Server.Jobs.Ids.{job_id_injective}
use semcast.Server.Jobs.Recover.{Item, dir, interrupt, recover_record, recover_from, recover}
use semcast.Server.Jobs.Recover.Restart.{recovered_jobs_are_terminal}
use Words.{word_serde}

abbrev the_id : Chars
the_id = codes "job_7_0000"

abbrev fresh : JobRecord
fresh = new_record the_id (codes "SELECT 1") 7

abbrev gone : JobRecord
gone = record fresh { status = cancelled; finished_at_ms = some 8 }

abbrev one_job : JobRecord → Registry
one_job r = record {
  permits = 1;
  jobs = (the_id, record { job = r; abort = none }) ∷ [];
  counter = 1;
  disk = [];
}

-- The task of a cancelled job goes on, beside the creation of another job at the same time: it
-- starts, reports and ends.
abbrev late_calls : List Call
late_calls =
    does (starts true 9 the_id)
    ∷ creates true true 7 (codes "SELECT 2")
    ∷ does (drains true the_id (record { line = codes "verify"; counts = some no_counts }))
    ∷ does (ends true 10 the_id (written (codes "result.parquet") 3))
    ∷ []

minted_ids_are_spared_example : Spares word_serde (job_id 7 0) late_calls (one_job gone)
minted_ids_are_spared_example =
    minted_ids_are_spared word_serde 7 0 late_calls (one_job gone) (omega arith) (omega arith)

late-Spares : (r : JobRecord) → Spares word_serde the_id late_calls (one_job r)
unfolding job_id show_nat show_padded digits_from
late-Spares r =
    minted_ids_are_spared word_serde 7 0 late_calls (one_job r) (omega arith) (omega arith)

gone_listed : get the_id (one_job gone) ≡ some gone
unfolding get lookup
gone_listed = refl

fresh_listed : get the_id (one_job fresh) ≡ some fresh
unfolding get lookup
fresh_listed = refl

terminal_is_final_example :
    (s : JobRecord) × (get the_id (run_calls word_serde late_calls (one_job gone)) ≡ some s)
    × Agree gone s
terminal_is_final_example =
    terminal_is_final word_serde late_calls (one_job gone) the_id gone (late-Spares gone)
      gone_listed refl

never_goes_back_example :
    (s : JobRecord) × (get the_id (run_calls word_serde late_calls (one_job fresh)) ≡ some s)
    × (stage queued ≤ stage s.status)
never_goes_back_example =
    never_goes_back word_serde late_calls (one_job fresh) the_id fresh (late-Spares fresh)
      fresh_listed

terminal_never_starts_example :
    start word_serde true 11 the_id (run_calls word_serde late_calls (one_job gone))
    ≡ (run_calls word_serde late_calls (one_job gone), false)
terminal_never_starts_example =
    terminal_never_starts word_serde late_calls (one_job gone) the_id gone true 11
      (late-Spares gone) gone_listed refl

abbrev a_life : List Call
a_life = creates true true 7 (codes "SELECT 1") ∷ does (starts true 8 the_id) ∷ []

abbrev started : JobRecord
started = record fresh { status = running; started_at_ms = some 8 }

a_life_listed : get the_id (run_calls word_serde a_life (new_registry 2 [])) ≡ some started
unfolding get lookup insert run_calls step new_registry create start store write_record apply job_id
    show_nat show_padded digits_from
a_life_listed = refl

listed_jobs_are_on_disk_example :
    (text : Chars) × (lookup the_id (run_calls word_serde a_life (new_registry 2 [])).disk
      ≡ some text)
    × (word_serde.from_text text ≡ some started)
listed_jobs_are_on_disk_example =
    listed_jobs_are_on_disk word_serde a_life 2 [] the_id started (tt, (refl, tt)) a_life_listed

abbrev orphans : List Item
orphans = dir the_id (some (word_serde.to_text started)) true ∷ []

orphan_listed :
    get the_id (recover word_serde 20 orphans (new_registry 2 [])).0 ≡ some (interrupt 20 started)
unfolding get lookup insert recover recover_from recover_record write_record new_registry
orphan_listed = rw (word_serde.round_trip started, recover, recover_from) refl

recovered_jobs_are_terminal_example : is_terminal interrupted ≡ true
recovered_jobs_are_terminal_example =
    recovered_jobs_are_terminal word_serde 20 orphans 2 [] the_id (interrupt 20 started)
      orphan_listed

abbrev plan : ExecutionPlan
plan =
    node (other "ProjectionExec") none
      (cons (node verify (some (record { name = "model_calls"; value = 3 } ∷ [])) nil) nil)

abbrev seen : FunnelCounts
seen = record no_counts { has_verify = true; model_calls = 3 }

plan-snapshot : snapshot plan ≡ some seen
unfolding snapshot semcast_nodes collect add_counts add_all counter_total is_semantic
plan-snapshot = refl

snapshot-IsTotal_example : (c : FunnelCounts) × (snapshot plan ≡ some c) × IsTotal plan c
snapshot-IsTotal_example = snapshot-IsTotal plan

snapshot_if_changed-Ticked_example :
    (r : Option ProgressEvent × FunnelCounts) × (snapshot_if_changed plan no_counts ≡ some r)
    × Ticked seen no_counts r
    × (snapshot_if_changed plan r.1 ≡ some (none, r.1))
snapshot_if_changed-Ticked_example = snapshot_if_changed-Ticked plan seen no_counts plan-snapshot

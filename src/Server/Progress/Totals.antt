-- ===== src/Server/Progress/Totals.antt =====
-- The counts of a snapshot are the sums over the plan's operators.
pub mod Sums
mod Stages
mod Groupings
use Prim.Native.String.{String}
use semcast.Base.{
  All, ℕ, ◌+◌, ◌%◌, ◌^◌, ◌<◌, ◌≡◌, refl, sym, ap, ◌∙◌, Bool, true, false, ◌||◌, Option, none, some,
  List, [], ◌∷◌, ◌++◌, arith, ◌==◌, if◌then◌else◌, Bool-cases, Option-cases, inl, inr,
}
use mathlib.Core.Option.{some-injective}
use mathlib.Core.List.{append_assoc, append-nil}
use semcast.Server.Progress.Counts.{FunnelCounts, no_counts, is_semantic}
use semcast.Server.Progress.{
  Metric, NodeName, index_scan, verify, extract, distinct, cluster, classify, rank, other,
  ExecutionPlan, node, Children, nil, cons, Node, counter_total, is_semcast, collect, collect_all,
  semcast_nodes, add_counts, add_all, snapshot,
}
use semcast.Server.Progress.Totals.Sums.{
  nodes_of, semcast_of, collect-append, total, has, add_all-total, step_eq, total-semcast_of,
  Counter, Summed, counters, stage_counters, grouping_counters, index_scan_counters,
  verify_counters, extract_counters, distinct_counters, cluster_counters, classify_counters,
  rank_counters,
}
use semcast.Server.Progress.Totals.Stages.{
  index_scan_Summed, verify_Summed, extract_Summed, rank_Summed,
}
use semcast.Server.Progress.Totals.Groupings.{distinct_Summed, cluster_Summed, classify_Summed}

-- No operator makes the loop panic, and each sets a flag.
add_counts-some :
    (name : NodeName) (metrics : Option (List Metric)) (c : FunnelCounts)
    → is_semcast name ≡ true
    → (d : FunnelCounts) × (add_counts name metrics c ≡ some d) × (is_semantic d ≡ true)
unfolding add_counts is_semantic
add_counts-some (other s) metrics c h = cc
add_counts-some _ none c h = (_, refl, ground arith)
add_counts-some _ (some m) c h = (_, refl, ground arith)

or_false : (a : Bool) → a ≡ a || false
or_false true = refl
or_false false = refl

flags_on : (a b n h : Bool) → b ≡ true → n ≡ true → b || h ≡ a || (n || h)
flags_on a b n h p q = ground arith

abbrev pub has_semcast : List Node → Bool
has_semcast [] = false
has_semcast (n ∷ ns) = is_semcast n.0 || has_semcast ns

add_all-some :
    (ns : List Node) (c : FunnelCounts)
    → (d : FunnelCounts) × (add_all (semcast_of ns) c ≡ some d)
      × (is_semantic d ≡ is_semantic c || has_semcast ns)
unfolding add_all
add_all-some [] c = (c, refl, or_false (is_semantic c))
add_all-some ((name, metrics) ∷ ns) c = elim (Bool-cases (is_semcast name)) [
  | inl h ↦
      let (b, now, flag) = add_counts-some name metrics c h in
      let (d, run, flags) = add_all-some ns b in
      (
        d,
        rw h (step_eq name metrics (semcast_of ns) c (some b) now ∙ run),
        flags ∙ flags_on (is_semantic c) (is_semantic b) (is_semcast name) (has_semcast ns) flag h,
      )
  | inr h ↦ rw h (add_all-some ns c)
]

-- The totals that a snapshot of the plan must show.
pub record IsTotal (plan : ExecutionPlan) (c : FunnelCounts) : Type 0 where
  pub semantic : is_semantic c ≡ has_semcast (nodes_of plan)
  pub sums : All (λ k. k.field c ≡ total k.op k.counter (nodes_of plan) % 2 ^ 64) counters

sum_of :
    (ns : List Node) (c : FunnelCounts) (k : Counter)
    → add_all (semcast_of ns) no_counts ≡ some c
    → Summed k
    → k.field c ≡ total k.op k.counter ns % 2 ^ 64
sum_of ns c k run (step, semcast, zero) =
    let sum =
      add_all-total k.field k.op k.counter step (semcast_of ns) no_counts c (omega arith) run in
    sum ∙ ap (λ n. n % 2 ^ 64) (omega (arith, total-semcast_of k.op k.counter ns semcast))

sums_of :
    (ns : List Node) (c : FunnelCounts) (ks : List Counter)
    → add_all (semcast_of ns) no_counts ≡ some c
    → All Summed ks
    → All (λ k. k.field c ≡ total k.op k.counter ns % 2 ^ 64) ks
sums_of ns c [] run h = tt
sums_of ns c (k ∷ ks) run h = (sum_of ns c k run h.0, sums_of ns c ks run h.1)

All-append : {A : Type 0} (P : A → Type 0) (xs ys : List A) → All P xs → All P ys → All P (xs ++ ys)
All-append P [] ys h k = k
All-append P (x ∷ xs) ys h k = (h.0, All-append P xs ys h.1 k)

stage_counters-Summed : All Summed stage_counters
stage_counters-Summed =
    All-append Summed index_scan_counters (verify_counters ++ (extract_counters ++ rank_counters))
      index_scan_Summed
      (All-append Summed verify_counters (extract_counters ++ rank_counters) verify_Summed
        (All-append Summed extract_counters rank_counters extract_Summed rank_Summed))

grouping_counters-Summed : All Summed grouping_counters
grouping_counters-Summed =
    All-append Summed distinct_counters (cluster_counters ++ classify_counters) distinct_Summed
      (All-append Summed cluster_counters classify_counters cluster_Summed classify_Summed)

counters-Summed : All Summed counters
counters-Summed =
    All-append Summed stage_counters grouping_counters stage_counters-Summed
      grouping_counters-Summed

-- A snapshot never reaches its `unreachable!`. It is semantic exactly when the plan has a semcast
-- operator, and each of its 31 numbers is the sum, over the whole plan, of the counter of its name
-- of the operators of its kind, modulo 2^64.
pub snapshot-IsTotal :
    (plan : ExecutionPlan) → (c : FunnelCounts) × (snapshot plan ≡ some c) × IsTotal plan c
unfolding snapshot semcast_nodes is_semantic
snapshot-IsTotal plan =
    let (c, run, flags) = add_all-some (nodes_of plan) no_counts in
    (
      c,
      rw (collect-append plan []) run,
      record { semantic = flags; sums = sums_of (nodes_of plan) c counters run counters-Summed },
    )

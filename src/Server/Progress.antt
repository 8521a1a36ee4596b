-- ===== src/Server/Progress.antt =====
-- src/server/progress.rs: what a running statement reports. A physical plan is DataFusion's; all
-- that is read of a node is its name, its metrics and its children.
pub mod Counts
pub mod Ticks
pub mod Totals
use Prim.Native.String.{String}
use text.Mathlib.Text.{◌==◌ as str_eq}
use semcast.Base.{
  ℕ, ◌+◌, Bool, true, false, not, ◌||◌, Option, none, some, List, [], ◌∷◌, ◌++◌, usize,
  if◌then◌else◌,
}
use Counts.{FunnelCounts, same, no_counts, is_semantic}

-- One counter of an operator: its name and its value.
pub record Metric : Type 0 where
  pub name : String
  pub value : ℕ

-- The operators whose metrics are read, and every other one.
pub data NodeName : Type 0 where
  index_scan verify extract distinct cluster classify rank : NodeName
  other : String → NodeName

mutual
  pub data ExecutionPlan : Type 0 where
    node : NodeName → Option (List Metric) → Children → ExecutionPlan

  pub data Children : Type 0 where
    nil : Children
    cons : ExecutionPlan → Children → Children

abbrev pub Node : Type 0
Node = NodeName × Option (List Metric)

-- The sum over the metrics of that name, in a `usize`.
unfoldable pub counter_total : List Metric → String → ℕ
counter_total [] name = 0
counter_total (m ∷ ms) name =
    let rest = counter_total ms name in if str_eq m.name name then usize (m.value + rest) else rest

abbrev pub is_semcast : NodeName → Bool
is_semcast (other s) = false
is_semcast _ = true

unfoldable mutual
  pub collect : ExecutionPlan → List Node → List Node
  collect (node name metrics children) out =
      collect_all children (if is_semcast name then out ++ (name, metrics) ∷ [] else out)

  pub collect_all : Children → List Node → List Node
  collect_all nil out = out
  collect_all (cons plan rest) out = collect_all rest (collect plan out)

unfoldable pub semcast_nodes : ExecutionPlan → List Node
unfolding collect
semcast_nodes plan = collect plan []

-- One turn of the loop of `snapshot`: the flag of the operator, and its counters added. `none` is
-- the `unreachable!` panic.
unfoldable pub add_counts : NodeName → Option (List Metric) → FunnelCounts → Option FunnelCounts
unfolding counter_total
add_counts index_scan none counts = some (record counts { has_index_scan = true })
add_counts index_scan (some m) counts = some (record counts {
  has_index_scan = true;
  index_hits = usize (counts.index_hits + counter_total m "index_hits");
  rows_pruned = usize (counts.rows_pruned + counter_total m "rows_pruned");
  calibration_sampled_rows =
      usize (counts.calibration_sampled_rows + counter_total m "calibration_sampled_rows");
  calibration_model_calls =
      usize (counts.calibration_model_calls + counter_total m "calibration_model_calls");
  calibration_label_errors =
      usize (counts.calibration_label_errors + counter_total m "calibration_label_errors");
})
add_counts verify none counts = some (record counts { has_verify = true })
add_counts verify (some m) counts = some (record counts {
  has_verify = true;
  model_calls = usize (counts.model_calls + counter_total m "model_calls");
  cache_hits = usize (counts.cache_hits + counter_total m "cache_hits");
  rows_dropped = usize (counts.rows_dropped + counter_total m "rows_dropped");
})
add_counts extract none counts = some (record counts { has_extract = true })
add_counts extract (some m) counts = some (record counts {
  has_extract = true;
  extract_model_calls = usize (counts.extract_model_calls + counter_total m "model_calls");
  extract_cache_hits = usize (counts.extract_cache_hits + counter_total m "cache_hits");
  extract_rows_failed = usize (counts.extract_rows_failed + counter_total m "rows_failed");
  extract_fields_failed = usize (counts.extract_fields_failed + counter_total m "fields_failed");
})
add_counts distinct none counts = some (record counts { has_distinct = true })
add_counts distinct (some m) counts = some (record counts {
  has_distinct = true;
  distinct_groups = usize (counts.distinct_groups + counter_total m "groups");
  distinct_duplicate_rows =
      usize (counts.distinct_duplicate_rows + counter_total m "duplicate_rows");
  distinct_unindexed_rows =
      usize (counts.distinct_unindexed_rows + counter_total m "unindexed_rows");
})
add_counts cluster none counts = some (record counts { has_cluster = true })
add_counts cluster (some m) counts = some (record counts {
  has_cluster = true;
  cluster_groups = usize (counts.cluster_groups + counter_total m "groups");
  cluster_model_calls = usize (counts.cluster_model_calls + counter_total m "model_calls");
  cluster_cache_hits = usize (counts.cluster_cache_hits + counter_total m "cache_hits");
  cluster_unindexed_rows = usize (counts.cluster_unindexed_rows + counter_total m "unindexed_rows");
  cluster_labels_failed = usize (counts.cluster_labels_failed + counter_total m "labels_failed");
})
add_counts classify none counts = some (record counts { has_classify = true })
add_counts classify (some m) counts = some (record counts {
  has_classify = true;
  classify_model_calls = usize (counts.classify_model_calls + counter_total m "model_calls");
  classify_cache_hits = usize (counts.classify_cache_hits + counter_total m "cache_hits");
  classify_rows_gated = usize (counts.classify_rows_gated + counter_total m "rows_gated");
  classify_rows_failed = usize (counts.classify_rows_failed + counter_total m "rows_failed");
  classify_branches_failed =
      usize (counts.classify_branches_failed + counter_total m "branches_failed");
})
add_counts rank none counts = some (record counts { has_rank = true })
add_counts rank (some m) counts = some (record counts {
  has_rank = true;
  rank_candidate_rows = usize (counts.rank_candidate_rows + counter_total m "candidate_rows");
  rank_rows_pruned = usize (counts.rank_rows_pruned + counter_total m "rows_pruned");
  rank_unindexed_rows = usize (counts.rank_unindexed_rows + counter_total m "unindexed_rows");
  rank_model_calls = usize (counts.rank_model_calls + counter_total m "model_calls");
  rank_cache_hits = usize (counts.rank_cache_hits + counter_total m "cache_hits");
  rank_rows_failed = usize (counts.rank_rows_failed + counter_total m "rows_failed");
})
add_counts (other s) metrics counts = none

unfoldable pub add_all : List Node → FunnelCounts → Option FunnelCounts
unfolding add_counts
add_all [] counts = some counts
add_all ((name, metrics) ∷ nodes) counts = elim (add_counts name metrics counts) [
  | none ↦ none
  | some next ↦ add_all nodes next
]

unfoldable pub snapshot : ExecutionPlan → Option FunnelCounts
unfolding add_all semcast_nodes
snapshot plan = add_all (semcast_nodes plan) no_counts

pub data ProgressEvent : Type 0 where
  plan_line : List ℕ → ProgressEvent
  funnel : FunnelCounts → ProgressEvent
  totals : FunnelCounts → ProgressEvent

-- The event, if any, and what `last` becomes.
unfoldable pub changed : FunnelCounts → FunnelCounts → Option ProgressEvent × FunnelCounts
unfolding is_semantic
changed now last =
    if same now last || not (is_semantic now) then (none, last) else (some (funnel now), now)

-- `none` is a panic.
unfoldable pub snapshot_if_changed :
    ExecutionPlan → FunnelCounts → Option (Option ProgressEvent × FunnelCounts)
unfolding snapshot changed
snapshot_if_changed plan last = elim (snapshot plan) [
  | none ↦ none
  | some now ↦ some (changed now last)
]

unfoldable pub final_totals : ExecutionPlan → Option (Option ProgressEvent)
unfolding snapshot is_semantic
final_totals plan = elim (snapshot plan) [
  | none ↦ none
  | some counts ↦ some (if is_semantic counts then some (totals counts) else none)
]

-- ===== src/Server/Progress/Totals/Groupings.antt =====
-- src/server/progress.rs: each counter of the grouping stages is raised by its operator alone.
use semcast.Base.{All, refl, none, some, arith}
use semcast.Server.Progress.{index_scan, distinct, cluster, classify, add_counts}
use semcast.Server.Progress.Totals.Sums.{
  Counts, Summed, distinct_counters, cluster_counters, classify_counters,
}

distinct_groups_Counts : Counts (λ c. c.distinct_groups) distinct "groups"
unfolding add_counts
distinct_groups_Counts index_scan none c d l e = ground arith
distinct_groups_Counts _ (some m) c d l e = ground arith
distinct_groups_Counts _ none c d l e = ground arith

distinct_duplicate_rows_Counts : Counts (λ c. c.distinct_duplicate_rows) distinct "duplicate_rows"
unfolding add_counts
distinct_duplicate_rows_Counts index_scan none c d l e = ground arith
distinct_duplicate_rows_Counts _ (some m) c d l e = ground arith
distinct_duplicate_rows_Counts _ none c d l e = ground arith

distinct_unindexed_rows_Counts : Counts (λ c. c.distinct_unindexed_rows) distinct "unindexed_rows"
unfolding add_counts
distinct_unindexed_rows_Counts index_scan none c d l e = ground arith
distinct_unindexed_rows_Counts _ (some m) c d l e = ground arith
distinct_unindexed_rows_Counts _ none c d l e = ground arith

cluster_groups_Counts : Counts (λ c. c.cluster_groups) cluster "groups"
unfolding add_counts
cluster_groups_Counts index_scan none c d l e = ground arith
cluster_groups_Counts _ (some m) c d l e = ground arith
cluster_groups_Counts _ none c d l e = ground arith

cluster_model_calls_Counts : Counts (λ c. c.cluster_model_calls) cluster "model_calls"
unfolding add_counts
cluster_model_calls_Counts index_scan none c d l e = ground arith
cluster_model_calls_Counts _ (some m) c d l e = ground arith
cluster_model_calls_Counts _ none c d l e = ground arith

cluster_cache_hits_Counts : Counts (λ c. c.cluster_cache_hits) cluster "cache_hits"
unfolding add_counts
cluster_cache_hits_Counts index_scan none c d l e = ground arith
cluster_cache_hits_Counts _ (some m) c d l e = ground arith
cluster_cache_hits_Counts _ none c d l e = ground arith

cluster_unindexed_rows_Counts : Counts (λ c. c.cluster_unindexed_rows) cluster "unindexed_rows"
unfolding add_counts
cluster_unindexed_rows_Counts index_scan none c d l e = ground arith
cluster_unindexed_rows_Counts _ (some m) c d l e = ground arith
cluster_unindexed_rows_Counts _ none c d l e = ground arith

cluster_labels_failed_Counts : Counts (λ c. c.cluster_labels_failed) cluster "labels_failed"
unfolding add_counts
cluster_labels_failed_Counts index_scan none c d l e = ground arith
cluster_labels_failed_Counts _ (some m) c d l e = ground arith
cluster_labels_failed_Counts _ none c d l e = ground arith

classify_model_calls_Counts : Counts (λ c. c.classify_model_calls) classify "model_calls"
unfolding add_counts
classify_model_calls_Counts index_scan none c d l e = ground arith
classify_model_calls_Counts _ (some m) c d l e = ground arith
classify_model_calls_Counts _ none c d l e = ground arith

classify_cache_hits_Counts : Counts (λ c. c.classify_cache_hits) classify "cache_hits"
unfolding add_counts
classify_cache_hits_Counts index_scan none c d l e = ground arith
classify_cache_hits_Counts _ (some m) c d l e = ground arith
classify_cache_hits_Counts _ none c d l e = ground arith

classify_rows_gated_Counts : Counts (λ c. c.classify_rows_gated) classify "rows_gated"
unfolding add_counts
classify_rows_gated_Counts index_scan none c d l e = ground arith
classify_rows_gated_Counts _ (some m) c d l e = ground arith
classify_rows_gated_Counts _ none c d l e = ground arith

classify_rows_failed_Counts : Counts (λ c. c.classify_rows_failed) classify "rows_failed"
unfolding add_counts
classify_rows_failed_Counts index_scan none c d l e = ground arith
classify_rows_failed_Counts _ (some m) c d l e = ground arith
classify_rows_failed_Counts _ none c d l e = ground arith

classify_branches_failed_Counts :
    Counts (λ c. c.classify_branches_failed) classify "branches_failed"
unfolding add_counts
classify_branches_failed_Counts index_scan none c d l e = ground arith
classify_branches_failed_Counts _ (some m) c d l e = ground arith
classify_branches_failed_Counts _ none c d l e = ground arith

pub distinct_Summed : All Summed distinct_counters
distinct_Summed = (
  (distinct_groups_Counts, refl, refl),
  (
    (distinct_duplicate_rows_Counts, refl, refl),
    ((distinct_unindexed_rows_Counts, refl, refl), tt),
  ),
)

pub cluster_Summed : All Summed cluster_counters
cluster_Summed = (
  (cluster_groups_Counts, refl, refl),
  (
    (cluster_model_calls_Counts, refl, refl),
    (
      (cluster_cache_hits_Counts, refl, refl),
      (
        (cluster_unindexed_rows_Counts, refl, refl),
        ((cluster_labels_failed_Counts, refl, refl), tt),
      ),
    ),
  ),
)

pub classify_Summed : All Summed classify_counters
classify_Summed = (
  (classify_model_calls_Counts, refl, refl),
  (
    (classify_cache_hits_Counts, refl, refl),
    (
      (classify_rows_gated_Counts, refl, refl),
      (
        (classify_rows_failed_Counts, refl, refl),
        ((classify_branches_failed_Counts, refl, refl), tt),
      ),
    ),
  ),
)

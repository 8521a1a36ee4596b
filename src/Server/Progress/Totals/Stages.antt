-- ===== src/Server/Progress/Totals/Stages.antt =====
-- src/server/progress.rs: each counter of the filter and extraction stages is raised by its operator alone.
use semcast.Base.{All, refl, none, some, arith}
use semcast.Server.Progress.{index_scan, verify, extract, rank, add_counts}
use semcast.Server.Progress.Totals.Sums.{
  Counts, Summed, index_scan_counters, verify_counters, extract_counters, rank_counters,
}

index_hits_Counts : Counts (λ c. c.index_hits) index_scan "index_hits"
unfolding add_counts
index_hits_Counts verify none c d l e = ground arith
index_hits_Counts _ (some m) c d l e = ground arith
index_hits_Counts _ none c d l e = ground arith

rows_pruned_Counts : Counts (λ c. c.rows_pruned) index_scan "rows_pruned"
unfolding add_counts
rows_pruned_Counts verify none c d l e = ground arith
rows_pruned_Counts _ (some m) c d l e = ground arith
rows_pruned_Counts _ none c d l e = ground arith

calibration_sampled_rows_Counts :
    Counts (λ c. c.calibration_sampled_rows) index_scan "calibration_sampled_rows"
unfolding add_counts
calibration_sampled_rows_Counts verify none c d l e = ground arith
calibration_sampled_rows_Counts _ (some m) c d l e = ground arith
calibration_sampled_rows_Counts _ none c d l e = ground arith

calibration_model_calls_Counts :
    Counts (λ c. c.calibration_model_calls) index_scan "calibration_model_calls"
unfolding add_counts
calibration_model_calls_Counts verify none c d l e = ground arith
calibration_model_calls_Counts _ (some m) c d l e = ground arith
calibration_model_calls_Counts _ none c d l e = ground arith

calibration_label_errors_Counts :
    Counts (λ c. c.calibration_label_errors) index_scan "calibration_label_errors"
unfolding add_counts
calibration_label_errors_Counts verify none c d l e = ground arith
calibration_label_errors_Counts _ (some m) c d l e = ground arith
calibration_label_errors_Counts _ none c d l e = ground arith

model_calls_Counts : Counts (λ c. c.model_calls) verify "model_calls"
unfolding add_counts
model_calls_Counts index_scan none c d l e = ground arith
model_calls_Counts _ (some m) c d l e = ground arith
model_calls_Counts _ none c d l e = ground arith

cache_hits_Counts : Counts (λ c. c.cache_hits) verify "cache_hits"
unfolding add_counts
cache_hits_Counts index_scan none c d l e = ground arith
cache_hits_Counts _ (some m) c d l e = ground arith
cache_hits_Counts _ none c d l e = ground arith

rows_dropped_Counts : Counts (λ c. c.rows_dropped) verify "rows_dropped"
unfolding add_counts
rows_dropped_Counts index_scan none c d l e = ground arith
rows_dropped_Counts _ (some m) c d l e = ground arith
rows_dropped_Counts _ none c d l e = ground arith

extract_model_calls_Counts : Counts (λ c. c.extract_model_calls) extract "model_calls"
unfolding add_counts
extract_model_calls_Counts index_scan none c d l e = ground arith
extract_model_calls_Counts _ (some m) c d l e = ground arith
extract_model_calls_Counts _ none c d l e = ground arith

extract_cache_hits_Counts : Counts (λ c. c.extract_cache_hits) extract "cache_hits"
unfolding add_counts
extract_cache_hits_Counts index_scan none c d l e = ground arith
extract_cache_hits_Counts _ (some m) c d l e = ground arith
extract_cache_hits_Counts _ none c d l e = ground arith

extract_rows_failed_Counts : Counts (λ c. c.extract_rows_failed) extract "rows_failed"
unfolding add_counts
extract_rows_failed_Counts index_scan none c d l e = ground arith
extract_rows_failed_Counts _ (some m) c d l e = ground arith
extract_rows_failed_Counts _ none c d l e = ground arith

extract_fields_failed_Counts : Counts (λ c. c.extract_fields_failed) extract "fields_failed"
unfolding add_counts
extract_fields_failed_Counts index_scan none c d l e = ground arith
extract_fields_failed_Counts _ (some m) c d l e = ground arith
extract_fields_failed_Counts _ none c d l e = ground arith

rank_candidate_rows_Counts : Counts (λ c. c.rank_candidate_rows) rank "candidate_rows"
unfolding add_counts
rank_candidate_rows_Counts index_scan none c d l e = ground arith
rank_candidate_rows_Counts _ (some m) c d l e = ground arith
rank_candidate_rows_Counts _ none c d l e = ground arith

rank_rows_pruned_Counts : Counts (λ c. c.rank_rows_pruned) rank "rows_pruned"
unfolding add_counts
rank_rows_pruned_Counts index_scan none c d l e = ground arith
rank_rows_pruned_Counts _ (some m) c d l e = ground arith
rank_rows_pruned_Counts _ none c d l e = ground arith

rank_unindexed_rows_Counts : Counts (λ c. c.rank_unindexed_rows) rank "unindexed_rows"
unfolding add_counts
rank_unindexed_rows_Counts index_scan none c d l e = ground arith
rank_unindexed_rows_Counts _ (some m) c d l e = ground arith
rank_unindexed_rows_Counts _ none c d l e = ground arith

rank_model_calls_Counts : Counts (λ c. c.rank_model_calls) rank "model_calls"
unfolding add_counts
rank_model_calls_Counts index_scan none c d l e = ground arith
rank_model_calls_Counts _ (some m) c d l e = ground arith
rank_model_calls_Counts _ none c d l e = ground arith

rank_cache_hits_Counts : Counts (λ c. c.rank_cache_hits) rank "cache_hits"
unfolding add_counts
rank_cache_hits_Counts index_scan none c d l e = ground arith
rank_cache_hits_Counts _ (some m) c d l e = ground arith
rank_cache_hits_Counts _ none c d l e = ground arith

rank_rows_failed_Counts : Counts (λ c. c.rank_rows_failed) rank "rows_failed"
unfolding add_counts
rank_rows_failed_Counts index_scan none c d l e = ground arith
rank_rows_failed_Counts _ (some m) c d l e = ground arith
rank_rows_failed_Counts _ none c d l e = ground arith

pub index_scan_Summed : All Summed index_scan_counters
index_scan_Summed = (
  (index_hits_Counts, refl, refl),
  (
    (rows_pruned_Counts, refl, refl),
    (
      (calibration_sampled_rows_Counts, refl, refl),
      (
        (calibration_model_calls_Counts, refl, refl),
        ((calibration_label_errors_Counts, refl, refl), tt),
      ),
    ),
  ),
)

pub verify_Summed : All Summed verify_counters
verify_Summed = (
  (model_calls_Counts, refl, refl),
  ((cache_hits_Counts, refl, refl), ((rows_dropped_Counts, refl, refl), tt)),
)

pub extract_Summed : All Summed extract_counters
extract_Summed = (
  (extract_model_calls_Counts, refl, refl),
  (
    (extract_cache_hits_Counts, refl, refl),
    ((extract_rows_failed_Counts, refl, refl), ((extract_fields_failed_Counts, refl, refl), tt)),
  ),
)

pub rank_Summed : All Summed rank_counters
rank_Summed = (
  (rank_candidate_rows_Counts, refl, refl),
  (
    (rank_rows_pruned_Counts, refl, refl),
    (
      (rank_unindexed_rows_Counts, refl, refl),
      (
        (rank_model_calls_Counts, refl, refl),
        ((rank_cache_hits_Counts, refl, refl), ((rank_rows_failed_Counts, refl, refl), tt)),
      ),
    ),
  ),
)

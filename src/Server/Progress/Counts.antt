-- ===== src/Server/Progress/Counts.antt =====
-- `FunnelCounts` of src/server/progress.rs: counter totals over the semcast operators of a plan.
use native.Mathlib.Decide.{ℕ_discrete}
use semcast.Base.{ℕ, ◌≡◌, refl, ◌↔◌, Bool, true, false, ◌||◌}

pub record FunnelCounts : Type 0 where
  pub has_index_scan : Bool
  pub index_hits : ℕ
  pub rows_pruned : ℕ
  pub calibration_sampled_rows : ℕ
  pub calibration_model_calls : ℕ
  pub calibration_label_errors : ℕ
  pub has_verify : Bool
  pub model_calls : ℕ
  pub cache_hits : ℕ
  pub rows_dropped : ℕ
  pub has_extract : Bool
  pub extract_model_calls : ℕ
  pub extract_cache_hits : ℕ
  pub extract_rows_failed : ℕ
  pub extract_fields_failed : ℕ
  pub has_distinct : Bool
  pub distinct_groups : ℕ
  pub distinct_duplicate_rows : ℕ
  pub distinct_unindexed_rows : ℕ
  pub has_cluster : Bool
  pub cluster_groups : ℕ
  pub cluster_model_calls : ℕ
  pub cluster_cache_hits : ℕ
  pub cluster_unindexed_rows : ℕ
  pub cluster_labels_failed : ℕ
  pub has_classify : Bool
  pub classify_model_calls : ℕ
  pub classify_cache_hits : ℕ
  pub classify_rows_gated : ℕ
  pub classify_rows_failed : ℕ
  pub classify_branches_failed : ℕ
  pub has_rank : Bool
  pub rank_candidate_rows : ℕ
  pub rank_rows_pruned : ℕ
  pub rank_unindexed_rows : ℕ
  pub rank_model_calls : ℕ
  pub rank_cache_hits : ℕ
  pub rank_rows_failed : ℕ

-- The derived `Default`.
abbrev pub no_counts : FunnelCounts
no_counts = record {
  has_index_scan = false;
  index_hits = 0;
  rows_pruned = 0;
  calibration_sampled_rows = 0;
  calibration_model_calls = 0;
  calibration_label_errors = 0;
  has_verify = false;
  model_calls = 0;
  cache_hits = 0;
  rows_dropped = 0;
  has_extract = false;
  extract_model_calls = 0;
  extract_cache_hits = 0;
  extract_rows_failed = 0;
  extract_fields_failed = 0;
  has_distinct = false;
  distinct_groups = 0;
  distinct_duplicate_rows = 0;
  distinct_unindexed_rows = 0;
  has_cluster = false;
  cluster_groups = 0;
  cluster_model_calls = 0;
  cluster_cache_hits = 0;
  cluster_unindexed_rows = 0;
  cluster_labels_failed = 0;
  has_classify = false;
  classify_model_calls = 0;
  classify_cache_hits = 0;
  classify_rows_gated = 0;
  classify_rows_failed = 0;
  classify_branches_failed = 0;
  has_rank = false;
  rank_candidate_rows = 0;
  rank_rows_pruned = 0;
  rank_unindexed_rows = 0;
  rank_model_calls = 0;
  rank_cache_hits = 0;
  rank_rows_failed = 0;
}

FunnelCounts-discrete : Discrete FunnelCounts
FunnelCounts-discrete = hlevel ℕ_discrete

-- The derived `==`.
pub same : FunnelCounts → FunnelCounts → Bool
same a b = elim (FunnelCounts-discrete a b) [ yes _ ↦ true | no _ ↦ false ]

pub same_iff : (a b : FunnelCounts) → (same a b ≡ true) ↔ (a ≡ b)
unfolding same
same_iff a b =
    elim (FunnelCounts-discrete a b)
      as (λ d. ((elim d [ yes _ ↦ true | no _ ↦ false ]) ≡ true) ↔ (a ≡ b)) [
        | yes p ↦ (λ _. p, λ _. refl)
        | no p ↦ (λ h. cc, λ q. absurd (p q))
      ]

unfoldable pub is_semantic : FunnelCounts → Bool
is_semantic c =
    c.has_index_scan || c.has_verify || c.has_extract || c.has_rank || c.has_classify
    || c.has_cluster || c.has_distinct

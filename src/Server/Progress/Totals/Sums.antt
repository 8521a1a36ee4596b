-- ===== src/Server/Progress/Totals/Sums.antt =====
-- src/server/progress.rs: the sums of the operators' counters over a plan, and what each field shows.
use Prim.Native.String.{String}
use semcast.Base.{
  ℕ, ◌+◌, ◌%◌, ◌^◌, ◌<◌, ◌≡◌, refl, sym, ap, ◌∙◌, Bool, true, false, ◌||◌, Option, none, some, List,
  [], ◌∷◌, ◌++◌, arith, ◌==◌, if◌then◌else◌, Option-cases, inl, inr,
}
use mathlib.Core.Option.{some-injective}
use mathlib.Core.List.{append_assoc, append-nil}
use semcast.Server.Progress.Counts.{FunnelCounts, no_counts}
use semcast.Server.Progress.{
  Metric, NodeName, index_scan, verify, extract, distinct, cluster, classify, rank, other,
  ExecutionPlan, node, Children, nil, cons, Node, counter_total, is_semcast, collect, collect_all,
  add_counts, add_all,
}

-- The plan's nodes, top down.
mutual
  pub nodes_of : ExecutionPlan → List Node
  nodes_of (node name metrics children) = (name, metrics) ∷ nodes_of_all children

  pub nodes_of_all : Children → List Node
  nodes_of_all nil = []
  nodes_of_all (cons plan rest) = nodes_of plan ++ nodes_of_all rest

abbrev pub semcast_of : List Node → List Node
semcast_of [] = []
semcast_of (n ∷ ns) = if is_semcast n.0 then n ∷ semcast_of ns else semcast_of ns

semcast_of-append : (xs ys : List Node) → semcast_of (xs ++ ys) ≡ semcast_of xs ++ semcast_of ys
semcast_of-append [] ys = refl
semcast_of-append (x ∷ xs) ys = ground (arith, semcast_of-append xs ys)

push_if :
    (b : Bool) (x : Node) (out rest : List Node)
    → (if b then out ++ x ∷ [] else out) ++ rest ≡ out ++ (if b then x ∷ rest else rest)
push_if true x out rest = append_assoc out (x ∷ []) rest
push_if false x out rest = refl

mutual
  unfolding collect nodes_of

  pub collect-append :
      (plan : ExecutionPlan) (out : List Node)
      → collect plan out ≡ out ++ semcast_of (nodes_of plan)
  collect-append (node name metrics children) out =
      collect_all-append children (if is_semcast name then out ++ (name, metrics) ∷ [] else out)
      ∙ push_if (is_semcast name) (name, metrics) out (semcast_of (nodes_of_all children))

  collect_all-append :
      (plans : Children) (out : List Node)
      → collect_all plans out ≡ out ++ semcast_of (nodes_of_all plans)
  collect_all-append nil out = sym (append-nil out)
  collect_all-append (cons plan rest) out =
      collect_all-append rest (collect plan out)
      ∙ (ap (λ o. o ++ semcast_of (nodes_of_all rest)) (collect-append plan out)
          ∙ (append_assoc out (semcast_of (nodes_of plan)) (semcast_of (nodes_of_all rest))
              ∙ ap (◌++◌ out) (sym (semcast_of-append (nodes_of plan) (nodes_of_all rest)))))

-- The operators by number, and what one node counts.
abbrev pub tag : NodeName → ℕ
tag index_scan = 0
tag verify = 1
tag extract = 2
tag distinct = 3
tag cluster = 4
tag classify = 5
tag rank = 6
tag (other s) = 7

abbrev pub node_count : NodeName → String → Node → ℕ
node_count op counter (name, none) = 0
node_count op counter (name, some m) = if tag name == tag op then counter_total m counter else 0

-- The sum of a counter over all nodes of a plan that are such an operator.
abbrev pub total : NodeName → String → List Node → ℕ
total op counter [] = 0
total op counter (n ∷ ns) = node_count op counter n + total op counter ns

abbrev pub has : NodeName → List Node → Bool
has op [] = false
has op (n ∷ ns) = tag n.0 == tag op || has op ns

tag_other : (op : NodeName) → is_semcast op ≡ true → (7 == tag op) ≡ false
tag_other (other s) h = cc
tag_other index_scan h = refl
tag_other _ h = refl

pub total-semcast_of :
    (op : NodeName) (counter : String) (ns : List Node)
    → is_semcast op ≡ true
    → total op counter (semcast_of ns) ≡ total op counter ns
total-semcast_of op counter [] h = refl
total-semcast_of op counter ((name, none) ∷ ns) h = ground (arith, total-semcast_of op counter ns h)
total-semcast_of op counter ((other s, some m) ∷ ns) h =
    rw (tag_other op h) (omega (arith, total-semcast_of op counter ns h))
total-semcast_of op counter ((name, some m) ∷ ns) h =
    ap (λ k. node_count op counter (name, some m) + k) (total-semcast_of op counter ns h)

-- A field that a node of kind `op` raises by its counter and no other node touches.
abbrev pub Counts : (FunnelCounts → ℕ) → NodeName → String → Type 0
Counts field op counter =
    (name : NodeName) (metrics : Option (List Metric)) (c d : FunnelCounts)
    → field c < 2 ^ 64
    → add_counts name metrics c ≡ some d
    → field d ≡ (field c + node_count op counter (name, metrics)) % 2 ^ 64

pub step_eq :
    (name : NodeName) (metrics : Option (List Metric)) (ns : List Node) (c : FunnelCounts)
    (o : Option FunnelCounts)
    → add_counts name metrics c ≡ o
    → add_all ((name, metrics) ∷ ns) c ≡ (elim o [ none ↦ none | some b ↦ add_all ns b ])
unfolding add_all
step_eq name metrics ns c o q = rw (q, add_all) refl

none_is_some : {d : FunnelCounts} → none ≡ some d → ⊥
none_is_some h = cc

pub add_all-total :
    (field : FunnelCounts → ℕ) (op : NodeName) (counter : String)
    → Counts field op counter
    → (ns : List Node) (c d : FunnelCounts) → field c < 2 ^ 64
    → add_all ns c ≡ some d
    → field d ≡ (field c + total op counter ns) % 2 ^ 64
unfolding add_all
add_all-total field op counter step [] c d l e =
    let same_state : field c ≡ field d = ap field (some-injective c d e) in omega arith
add_all-total field op counter step ((name, metrics) ∷ ns) c d l e =
    elim (Option-cases (add_counts name metrics c)) [
      | inl q ↦ absurd (none_is_some (sym (step_eq name metrics ns c none q) ∙ e))
      | inr (b, q) ↦
          let now = step name metrics c b l q in
          let then' =
            add_all-total field op counter step ns b d (omega arith)
              (sym (step_eq name metrics ns c (some b) q) ∙ e) in
          omega arith
    ]

-- A field of the counts, with the operator and the counter of which it is the sum.
pub record Counter : Type 0 where
  pub field : FunnelCounts → ℕ
  pub op : NodeName
  pub counter : String

abbrev pub Summed : Counter → Type 0
Summed k = Counts k.field k.op k.counter × (is_semcast k.op ≡ true) × (k.field no_counts ≡ 0)

abbrev pub index_scan_counters : List Counter
index_scan_counters =
    record { field = λ c. c.index_hits; op = index_scan; counter = "index_hits" }
    ∷ record { field = λ c. c.rows_pruned; op = index_scan; counter = "rows_pruned" }
    ∷ record {
      field = λ c. c.calibration_sampled_rows;
      op = index_scan;
      counter = "calibration_sampled_rows";
    }
    ∷ record {
      field = λ c. c.calibration_model_calls;
      op = index_scan;
      counter = "calibration_model_calls";
    }
    ∷ record {
      field = λ c. c.calibration_label_errors;
      op = index_scan;
      counter = "calibration_label_errors";
    }
    ∷ []

abbrev pub verify_counters : List Counter
verify_counters =
    record { field = λ c. c.model_calls; op = verify; counter = "model_calls" }
    ∷ record { field = λ c. c.cache_hits; op = verify; counter = "cache_hits" }
    ∷ record { field = λ c. c.rows_dropped; op = verify; counter = "rows_dropped" }
    ∷ []

abbrev pub extract_counters : List Counter
extract_counters =
    record { field = λ c. c.extract_model_calls; op = extract; counter = "model_calls" }
    ∷ record { field = λ c. c.extract_cache_hits; op = extract; counter = "cache_hits" }
    ∷ record { field = λ c. c.extract_rows_failed; op = extract; counter = "rows_failed" }
    ∷ record { field = λ c. c.extract_fields_failed; op = extract; counter = "fields_failed" }
    ∷ []

abbrev pub distinct_counters : List Counter
distinct_counters =
    record { field = λ c. c.distinct_groups; op = distinct; counter = "groups" }
    ∷ record { field = λ c. c.distinct_duplicate_rows; op = distinct; counter = "duplicate_rows" }
    ∷ record { field = λ c. c.distinct_unindexed_rows; op = distinct; counter = "unindexed_rows" }
    ∷ []

abbrev pub cluster_counters : List Counter
cluster_counters =
    record { field = λ c. c.cluster_groups; op = cluster; counter = "groups" }
    ∷ record { field = λ c. c.cluster_model_calls; op = cluster; counter = "model_calls" }
    ∷ record { field = λ c. c.cluster_cache_hits; op = cluster; counter = "cache_hits" }
    ∷ record { field = λ c. c.cluster_unindexed_rows; op = cluster; counter = "unindexed_rows" }
    ∷ record { field = λ c. c.cluster_labels_failed; op = cluster; counter = "labels_failed" }
    ∷ []

abbrev pub classify_counters : List Counter
classify_counters =
    record { field = λ c. c.classify_model_calls; op = classify; counter = "model_calls" }
    ∷ record { field = λ c. c.classify_cache_hits; op = classify; counter = "cache_hits" }
    ∷ record { field = λ c. c.classify_rows_gated; op = classify; counter = "rows_gated" }
    ∷ record { field = λ c. c.classify_rows_failed; op = classify; counter = "rows_failed" }
    ∷ record { field = λ c. c.classify_branches_failed; op = classify; counter = "branches_failed" }
    ∷ []

abbrev pub rank_counters : List Counter
rank_counters =
    record { field = λ c. c.rank_candidate_rows; op = rank; counter = "candidate_rows" }
    ∷ record { field = λ c. c.rank_rows_pruned; op = rank; counter = "rows_pruned" }
    ∷ record { field = λ c. c.rank_unindexed_rows; op = rank; counter = "unindexed_rows" }
    ∷ record { field = λ c. c.rank_model_calls; op = rank; counter = "model_calls" }
    ∷ record { field = λ c. c.rank_cache_hits; op = rank; counter = "cache_hits" }
    ∷ record { field = λ c. c.rank_rows_failed; op = rank; counter = "rows_failed" }
    ∷ []

abbrev pub stage_counters : List Counter
stage_counters = index_scan_counters ++ (verify_counters ++ (extract_counters ++ rank_counters))

abbrev pub grouping_counters : List Counter
grouping_counters = distinct_counters ++ (cluster_counters ++ classify_counters)

-- Every number of the counts.
abbrev pub counters : List Counter
counters = stage_counters ++ grouping_counters

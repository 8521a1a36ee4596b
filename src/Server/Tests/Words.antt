-- ===== src/Server/Tests/Words.antt =====
-- A concrete text of a job's record, in place of JSON, that reads back as the record.
use semcast.Base.{
  ℕ, zero, suc, ◌≡◌, refl, ap, ◌∙◌, Bool, true, false, Option, none, some, List, [], ◌∷◌, get_or,
}
use semcast.Base.Text.{Chars}
use semcast.Base.Assoc.{chars_eq}
use semcast.Server.Progress.Counts.{FunnelCounts}
use semcast.Server.Jobs.{
  JobStatus, queued, running, succeeded, failed, cancelled, interrupted, JobRecord, Serde,
}

-- A text that a record can be read back from: its fields as words, each character one up, a 0 behind
-- each word.
write_word : Chars → Chars → Chars
write_word [] rest = 0 ∷ rest
write_word (c ∷ cs) rest = suc c ∷ write_word cs rest

write_words : List Chars → Chars
unfolding write_word
write_words [] = []
write_words (w ∷ ws) = write_word w (write_words ws)

onto_head : ℕ → List Chars → List Chars
onto_head c [] = (c ∷ []) ∷ []
onto_head c (w ∷ ws) = (c ∷ w) ∷ ws

read_words : Chars → List Chars
unfolding onto_head
read_words [] = []
read_words (zero ∷ cs) = [] ∷ read_words cs
read_words (suc c ∷ cs) = onto_head c (read_words cs)

read-write_word : (w rest : Chars) → read_words (write_word w rest) ≡ w ∷ read_words rest
unfolding read_words write_word onto_head
read-write_word [] rest = refl
read-write_word (c ∷ cs) rest = ap (onto_head c) (read-write_word cs rest)

read-write_words : (ws : List Chars) → read_words (write_words ws) ≡ ws
unfolding read_words write_words
read-write_words [] = refl
read-write_words (w ∷ ws) = read-write_word w (write_words ws) ∙ ap (◌∷◌ w) (read-write_words ws)

status_number : JobStatus → ℕ
status_number queued = 0
status_number running = 1
status_number succeeded = 2
status_number failed = 3
status_number cancelled = 4
status_number interrupted = 5

status_of : ℕ → JobStatus
status_of zero = queued
status_of (suc zero) = running
status_of (suc (suc zero)) = succeeded
status_of (suc (suc (suc zero))) = failed
status_of (suc (suc (suc (suc zero)))) = cancelled
status_of _ = interrupted

status_trip : (s : JobStatus) → status_of (status_number s) ≡ s
unfolding status_of status_number
status_trip queued = refl
status_trip running = refl
status_trip succeeded = refl
status_trip failed = refl
status_trip cancelled = refl
status_trip interrupted = refl

flag : Bool → ℕ
flag true = 1
flag false = 0

unflag : ℕ → Bool
unflag zero = false
unflag (suc n) = true

flag_trip : (b : Bool) → unflag (flag b) ≡ b
unfolding flag unflag
flag_trip true = refl
flag_trip false = refl

counts_word : FunnelCounts → Chars
counts_word c =
    flag c.has_index_scan
    ∷ c.index_hits
    ∷ c.rows_pruned
    ∷ c.calibration_sampled_rows
    ∷ c.calibration_model_calls
    ∷ c.calibration_label_errors
    ∷ flag c.has_verify
    ∷ c.model_calls
    ∷ c.cache_hits
    ∷ c.rows_dropped
    ∷ flag c.has_extract
    ∷ c.extract_model_calls
    ∷ c.extract_cache_hits
    ∷ c.extract_rows_failed
    ∷ c.extract_fields_failed
    ∷ flag c.has_distinct
    ∷ c.distinct_groups
    ∷ c.distinct_duplicate_rows
    ∷ c.distinct_unindexed_rows
    ∷ flag c.has_cluster
    ∷ c.cluster_groups
    ∷ c.cluster_model_calls
    ∷ c.cluster_cache_hits
    ∷ c.cluster_unindexed_rows
    ∷ c.cluster_labels_failed
    ∷ flag c.has_classify
    ∷ c.classify_model_calls
    ∷ c.classify_cache_hits
    ∷ c.classify_rows_gated
    ∷ c.classify_rows_failed
    ∷ c.classify_branches_failed
    ∷ flag c.has_rank
    ∷ c.rank_candidate_rows
    ∷ c.rank_rows_pruned
    ∷ c.rank_unindexed_rows
    ∷ c.rank_model_calls
    ∷ c.rank_cache_hits
    ∷ c.rank_rows_failed
    ∷ []

counts_of : Chars → FunnelCounts
counts_of w = record {
  has_index_scan = unflag (get_or w 0 0);
  index_hits = get_or w 1 0;
  rows_pruned = get_or w 2 0;
  calibration_sampled_rows = get_or w 3 0;
  calibration_model_calls = get_or w 4 0;
  calibration_label_errors = get_or w 5 0;
  has_verify = unflag (get_or w 6 0);
  model_calls = get_or w 7 0;
  cache_hits = get_or w 8 0;
  rows_dropped = get_or w 9 0;
  has_extract = unflag (get_or w 10 0);
  extract_model_calls = get_or w 11 0;
  extract_cache_hits = get_or w 12 0;
  extract_rows_failed = get_or w 13 0;
  extract_fields_failed = get_or w 14 0;
  has_distinct = unflag (get_or w 15 0);
  distinct_groups = get_or w 16 0;
  distinct_duplicate_rows = get_or w 17 0;
  distinct_unindexed_rows = get_or w 18 0;
  has_cluster = unflag (get_or w 19 0);
  cluster_groups = get_or w 20 0;
  cluster_model_calls = get_or w 21 0;
  cluster_cache_hits = get_or w 22 0;
  cluster_unindexed_rows = get_or w 23 0;
  cluster_labels_failed = get_or w 24 0;
  has_classify = unflag (get_or w 25 0);
  classify_model_calls = get_or w 26 0;
  classify_cache_hits = get_or w 27 0;
  classify_rows_gated = get_or w 28 0;
  classify_rows_failed = get_or w 29 0;
  classify_branches_failed = get_or w 30 0;
  has_rank = unflag (get_or w 31 0);
  rank_candidate_rows = get_or w 32 0;
  rank_rows_pruned = get_or w 33 0;
  rank_unindexed_rows = get_or w 34 0;
  rank_model_calls = get_or w 35 0;
  rank_cache_hits = get_or w 36 0;
  rank_rows_failed = get_or w 37 0;
}

counts_trip : (c : FunnelCounts) → counts_of (counts_word c) ≡ c
unfolding counts_of counts_word
counts_trip c =
    rw
      (
        flag_trip c.has_index_scan,
        flag_trip c.has_verify,
        flag_trip c.has_extract,
        flag_trip c.has_distinct,
        flag_trip c.has_cluster,
        flag_trip c.has_classify,
        flag_trip c.has_rank,
      )
      refl

number_word : Option ℕ → Chars
number_word none = []
number_word (some n) = n ∷ []

number_of : Chars → Option ℕ
number_of [] = none
number_of (n ∷ w) = some n

number_trip : (o : Option ℕ) → number_of (number_word o) ≡ o
unfolding number_of number_word
number_trip none = refl
number_trip (some n) = refl

text_word : Option Chars → Chars
text_word none = []
text_word (some t) = 1 ∷ t

text_of : Chars → Option Chars
text_of [] = none
text_of (n ∷ w) = some w

text_trip : (o : Option Chars) → text_of (text_word o) ≡ o
unfolding text_of text_word
text_trip none = refl
text_trip (some t) = refl

record_words : JobRecord → List Chars
record_words r =
    r.id
    ∷ r.sql
    ∷ (status_number r.status ∷ [])
    ∷ (r.submitted_at_ms ∷ [])
    ∷ number_word r.started_at_ms
    ∷ number_word r.finished_at_ms
    ∷ number_word r.rows
    ∷ text_word r.command_tag
    ∷ text_word r.error
    ∷ text_word r.progress
    ∷ counts_word r.funnel
    ∷ text_word r.result_path
    ∷ []

record_of : List Chars → JobRecord
record_of ws = record {
  id = get_or ws 0 [];
  sql = get_or ws 1 [];
  status = status_of (get_or (get_or ws 2 []) 0 0);
  submitted_at_ms = get_or (get_or ws 3 []) 0 0;
  started_at_ms = number_of (get_or ws 4 []);
  finished_at_ms = number_of (get_or ws 5 []);
  rows = number_of (get_or ws 6 []);
  command_tag = text_of (get_or ws 7 []);
  error = text_of (get_or ws 8 []);
  progress = text_of (get_or ws 9 []);
  funnel = counts_of (get_or ws 10 []);
  result_path = text_of (get_or ws 11 []);
}

record_trip : (r : JobRecord) → record_of (record_words r) ≡ r
unfolding record_of record_words
record_trip r =
    rw
      (
        status_trip r.status,
        number_trip r.started_at_ms,
        number_trip r.finished_at_ms,
        number_trip r.rows,
        text_trip r.command_tag,
        text_trip r.error,
        text_trip r.progress,
        counts_trip r.funnel,
        text_trip r.result_path,
      )
      refl

pub word_serde : Serde
word_serde = record {
  to_text = λ r. write_words (record_words r);
  from_text = λ t. some (record_of (read_words t));
  round_trip = λ r. ap some (ap record_of (read-write_words (record_words r)) ∙ record_trip r);
}

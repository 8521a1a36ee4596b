-- ===== src/Physical/IndexScan/Labels.antt =====
-- src/physical/index_scan.rs: the labels of a sample, from the cache and from the model.
use semcast.Base.{
  ℕ, suc, Bool, Option, none, some, List, [], ◌∷◌, ◌++◌, map, length, max, if◌then◌else◌,
}
use semcast.Base.Text.{Chars, codes}
use semcast.Base.Assoc.{nat_key, chars_beq}
use semcast.Model.{Result, ok, err, CompletionRequest, Completion}
use semcast.Cache.{CachedValue, value, Entries, get, put}
use semcast.Physical.Verify.{
  means_cache_key, means_prompt_version, synthesize_means_prompt, parse_verdict,
}
use semcast.Physical.IndexScan.{calibration_label_budget, Label}

pub record CalibrationConfig (R : Type 0) : Type 0 where
  pub target_recall : R
  pub confidence : Option R
  pub sample_size : ℕ
  pub model_id : Chars
  pub complete : List CompletionRequest → List (Result Completion)

unfoldable pub label_budget : {R : Type 0} → CalibrationConfig R → ℕ
label_budget config = elim config.confidence [
  | some c ↦ max calibration_label_budget config.sample_size
  | none ↦ config.sample_size
]

-- What labelling a tranche gives: its labels, the cache, and the counters' increases.
pub record Labelled : Type 0 where
  pub labels : List Label
  pub cache : Entries
  pub model_calls : ℕ
  pub label_errors : ℕ

-- The first pass: the labels that the cache has, and the texts to ask about.
abbrev pub sort_out : Option CachedValue → Chars → List Label × List Chars → List Label × List Chars
sort_out (some (value verdict)) text rest =
    ((text, some (chars_beq verdict (codes "yes"))) ∷ rest.0, rest.1)
sort_out _ text rest = (rest.0, text ∷ rest.1)

abbrev pub verdict_of : Result Completion → Option Bool
verdict_of (ok completion) = parse_verdict completion.text
verdict_of (err e) = none

module _ (digest : Chars → ℕ) (condition : Chars) where
  unfoldable pub from_cache : Chars → Entries → List Chars → List Label × List Chars
  unfolding means_cache_key get
  from_cache model_id cache [] = ([], [])
  from_cache model_id cache (text ∷ sample) =
      let rest = from_cache model_id cache sample in
      let key = means_cache_key digest condition text model_id means_prompt_version in
      sort_out (get key cache) text rest

  abbrev pub label_request : Chars → CompletionRequest
  label_request text = record {
    system = synthesize_means_prompt condition;
    input = text;
    max_tokens = 8;
    schema = none;
  }

  abbrev pub add_answer : Chars → Chars → Option Bool → Labelled → Labelled
  add_answer model_id text none st = record st {
    labels = st.labels ++ (text, none) ∷ [];
    label_errors = suc st.label_errors;
  }
  add_answer model_id text (some matched) st = record st {
    labels = st.labels ++ (text, some matched) ∷ [];
    cache =
        put (means_cache_key digest condition text model_id means_prompt_version)
          (value (if matched then codes "yes" else codes "no")) st.cache;
  }

  -- The second pass, over the texts and the answers side by side.
  unfoldable pub answers : Chars → List Chars → List (Result Completion) → Labelled → Labelled
  unfolding means_cache_key put parse_verdict
  answers model_id [] completions st = st
  answers model_id (text ∷ misses) [] st = st
  answers model_id (text ∷ misses) (completion ∷ completions) st =
      answers model_id misses completions (add_answer model_id text (verdict_of completion) st)

  unfoldable pub label_sample : {R : Type 0} → CalibrationConfig R → List Chars → Entries → Labelled
  unfolding from_cache answers
  label_sample config sample cache =
      let (cached, misses) = from_cache config.model_id cache sample in
      let st : Labelled = record {
        labels = cached;
        cache = cache;
        model_calls = length misses;
        label_errors = 0;
      } in
      answers config.model_id misses (config.complete (map label_request misses)) st

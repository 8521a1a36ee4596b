-- ===== src/Physical/Verify.antt =====
-- src/physical/verify.rs: the operator that asks the model about each row of a batch. A row is its
-- text, or none for NULL. What is returned is the mask that the batch is filtered by, and the
-- counters' increases. The digest, the index's evidence and the model are arguments.
pub mod Account
pub mod Verdicts
use semcast.Base.{
  ℕ, zero, suc, ◌+◌, ◌≡◌, Bool, true, false, ◌&&◌, Option, none, some, List, [], ◌∷◌, ◌++◌, length,
  set, if◌then◌else◌, is_empty,
}
use semcast.Base.Text.{Chars, codes, trim, trim_matches, is_ascii_punctuation, to_lowercase, join}
use semcast.Base.Assoc.{chars_beq}
use semcast.Model.{Result, ok, err, CompletionRequest, Completion}
use semcast.Cache.{CacheKey, CachedValue, value, error, Entries, get, put}

abbrev pub means_prompt_version : Chars
means_prompt_version = codes "means-v2"

abbrev pub means_chunked_prompt_version : Chars
means_chunked_prompt_version = codes "means-v2-chunked"

abbrev pub chunk_separator : Chars
chunk_separator = 10 ∷ codes "---" ++ 10 ∷ []

unfoldable pub synthesize_means_prompt : Chars → Chars
synthesize_means_prompt condition =
    codes "You are evaluating a predicate over a document. Answer with exactly one word: yes or no."
    ++ (10 ∷ 10 ∷ codes "Predicate: "
        ++ (condition ++ 10 ∷ 10 ∷ codes "Does the document satisfy the predicate?"))

unfoldable pub synthesize_means_prompt_chunked : Chars → Chars
synthesize_means_prompt_chunked condition =
    codes
      "You are evaluating a predicate over excerpts from a document, separated by `---`. The excerpts may be partial. Answer with exactly one word: yes or no."
    ++ (10 ∷ 10 ∷ codes "Predicate: "
        ++ (condition
            ++ 10 ∷ 10 ∷ codes "Do the excerpts show the document satisfies the predicate?"))

-- Whether the model gave a usable yes or no, and which.
unfoldable pub parse_verdict : Chars → Option Bool
unfolding trim
parse_verdict text =
    let normalized = to_lowercase (trim_matches is_ascii_punctuation (trim text)) in
    if chars_beq normalized (codes "yes")
    then some true
    else if chars_beq normalized (codes "no")
    then some false
    else none

unfoldable pub means_cache_key : (Chars → ℕ) → Chars → Chars → Chars → Chars → CacheKey
means_cache_key digest condition input model_id prompt_version = record {
  type_version = condition;
  field = codes "means";
  input_digest = digest input;
  model_id = model_id;
  prompt_version = prompt_version;
}

-- `Verifier`, with what it reads of its surroundings: `stable_digest`, `chunks_for` of `doc_hash`
-- where there is evidence, and `complete` of the model.
pub record Verifier : Type 0 where
  pub condition : Chars
  pub model_id : Chars
  pub digest : Chars → ℕ
  pub chunks_for : Chars → Option (List Chars)
  pub complete : List CompletionRequest → List (Result Completion)

-- The outcome of a batch.
pub record Verified : Type 0 where
  pub keep : List Bool
  pub cache : Entries
  pub model_calls : ℕ
  pub cache_hits : ℕ
  pub rows_dropped : ℕ

-- What the first pass collects.
pub record Scan : Type 0 where
  pub keep : List Bool
  pub requests : List CompletionRequest
  pub pending : List (ℕ × Chars × Bool)
  pub hits : ℕ

module _ (v : Verifier) where
  unfoldable pub cache_key : Chars → Bool → CacheKey
  unfolding means_cache_key
  cache_key input chunked =
      means_cache_key v.digest v.condition input v.model_id
        (if chunked then means_chunked_prompt_version else means_prompt_version)

  -- The text that is sent, and whether it is made of chunks.
  unfoldable pub sent : Chars → Chars × Bool
  sent text = elim (v.chunks_for text) [
    | some chunks ↦ (join chunk_separator chunks, true)
    | none ↦ (text, false)
  ]

  unfoldable pub request_of : Chars × Bool → CompletionRequest
  unfolding synthesize_means_prompt synthesize_means_prompt_chunked
  request_of s = record {
    system =
        if s.1
        then synthesize_means_prompt_chunked v.condition
        else synthesize_means_prompt v.condition;
    input = s.0;
    max_tokens = 8;
    schema = none;
  }

  -- A row that is not answered from the cache is asked.
  abbrev pub scan_row : Option CachedValue → ℕ → Chars × Bool → Scan → Scan
  scan_row (some (value verdict)) row s rest = record rest {
    keep = chars_beq verdict (codes "yes") ∷ rest.keep;
    hits = suc rest.hits;
  }
  scan_row _ row s rest = record rest {
    keep = false ∷ rest.keep;
    requests = request_of s ∷ rest.requests;
    pending = (row, s.0, s.1) ∷ rest.pending;
  }

  unfoldable pub scan : Entries → ℕ → List (Option Chars) → Scan
  unfolding sent cache_key get request_of
  scan cache row [] = record { keep = []; requests = []; pending = []; hits = 0 }
  scan cache row (none ∷ texts) =
      let rest = scan cache (suc row) texts in record rest { keep = false ∷ rest.keep }
  scan cache row (some text ∷ texts) =
      let rest = scan cache (suc row) texts in
      let s = sent text in scan_row (get (cache_key s.0 s.1) cache) row s rest

  abbrev pub verdict_of : Result Completion → Option Bool
  verdict_of (ok completion) = parse_verdict completion.text
  verdict_of (err e) = none

  abbrev pub yes_no : Bool → Chars
  yes_no true = codes "yes"
  yes_no false = codes "no"

  abbrev pub settle_row : ℕ × Chars × Bool → Option Bool → Verified → Verified
  settle_row p none st = record st { rows_dropped = suc st.rows_dropped }
  settle_row p (some matched) st = record st {
    keep = set st.keep p.0 matched;
    cache = put (cache_key p.1 p.2) (value (yes_no matched)) st.cache;
  }

  -- The pass over the verdicts.
  unfoldable pub settle : List (ℕ × Chars × Bool) → List (Result Completion) → Verified → Verified
  unfolding cache_key put parse_verdict
  settle [] verdicts st = st
  settle (p ∷ ps) [] st = st
  settle (p ∷ ps) (verdict ∷ verdicts) st =
      settle ps verdicts (settle_row p (verdict_of verdict) st)

  unfoldable pub verify_batch : Entries → List (Option Chars) → Verified
  unfolding scan settle
  verify_batch cache rows =
      let s = scan cache 0 rows in
      let st : Verified = record {
        keep = s.keep;
        cache = cache;
        model_calls = length s.requests;
        cache_hits = s.hits;
        rows_dropped = 0;
      } in
      if is_empty rows
      then record { keep = []; cache = cache; model_calls = 0; cache_hits = 0; rows_dropped = 0 }
      else settle s.pending (v.complete s.requests) st

-- ===== src/Model/Fallback.antt =====
-- src/model/fallback.rs: a chain of models, of which the next answers what the previous could not.
pub mod Chain
pub mod FirstAnswer
use semcast.Base.{
  ℕ, zero, suc, ◌+◌, ◌≡◌, Bool, true, false, Option, none, some, List, [], ◌∷◌, ◌++◌, map, length,
  get_or, set, take, replicate, is_empty, if◌then◌else◌, ◌-◌, ◌==◌,
}
use semcast.Base.Text.{Chars, codes, join}
use semcast.Model.{Result, ok, err, CompletionRequest, Completion, ModelProvider}

abbrev pub Slots : Type 0
Slots = List (Option (Result Completion))

-- Read in range only.
abbrev pub blank : CompletionRequest
blank = record { system = []; input = []; max_tokens = 0; schema = none }

abbrev pub indices_from : ℕ → ℕ → List ℕ
indices_from i zero = []
indices_from i (suc n) = i ∷ indices_from (suc i) n

-- The pass over a model's outcomes: the filled slots, and the indices that are still pending.
unfoldable pub route : Bool → List ℕ → List (Result Completion) → Slots → Slots × List ℕ
route last [] outcomes slots = (slots, [])
route last (slot ∷ pending) [] slots = (slots, [])
route last (slot ∷ pending) (ok completion ∷ outcomes) slots =
    route last pending outcomes (set slots slot (some (ok completion)))
route true (slot ∷ pending) (err error ∷ outcomes) slots =
    route true pending outcomes (set slots slot (some (err error)))
route false (slot ∷ pending) (err error ∷ outcomes) slots =
    let (filled, still_pending) = route false pending outcomes slots in
    (filled, slot ∷ still_pending)

abbrev pub unwrap_slot : Option (Result Completion) → Result Completion
unwrap_slot none = err (codes "no model answered the request")
unwrap_slot (some r) = r

module _ {Embedding : Type 0} where
  -- `FallbackProvider`: `models` is `primary ∷ fallbacks`.
  unfoldable pub models :
      ModelProvider Embedding → List (ModelProvider Embedding) → List (ModelProvider Embedding)
  models primary fallbacks = primary ∷ fallbacks

  unfoldable pub chain_id : ModelProvider Embedding → List (ModelProvider Embedding) → Chars
  unfolding models
  chain_id primary fallbacks =
      join (codes "+") (map (λ (m : ModelProvider Embedding). m.id) (models primary fallbacks))

  -- `resize_with`, when the provider broke its promise of one result per request.
  unfoldable pub fit :
      ModelProvider Embedding → ℕ → List (Result Completion) → List (Result Completion)
  fit model sent outcomes =
      if length outcomes == sent
      then outcomes
      else take sent outcomes
        ++ replicate (sent - length outcomes)
            (err (model.id ++ codes " returned the wrong number of results"))

  -- The loop over the models.
  unfoldable pub ask_chain :
      List CompletionRequest → List (ModelProvider Embedding) → List ℕ → Slots → Slots
  unfolding route fit
  ask_chain requests [] pending slots = slots
  ask_chain requests (model ∷ rest) [] slots = slots
  ask_chain requests (model ∷ rest) (p ∷ ps) slots =
      let batch = map (λ i. get_or requests i blank) (p ∷ ps) in
      let outcomes = fit model (length batch) (model.complete batch) in
      let (filled, still_pending) = route (is_empty rest) (p ∷ ps) outcomes slots in
      ask_chain requests rest still_pending filled

  unfoldable pub complete :
      ModelProvider Embedding
      → List (ModelProvider Embedding)
      → List CompletionRequest
      → List (Result Completion)
  unfolding ask_chain models
  complete primary fallbacks requests = map unwrap_slot (
      ask_chain requests (models primary fallbacks) (indices_from 0 (length requests))
        (replicate (length requests) none))

  unfoldable pub embed_chain :
      List (ModelProvider Embedding) → Option Chars → List Chars → Result (List Embedding)
  embed_chain [] none texts = err (codes "no embedder answered the batch")
  embed_chain [] (some error) texts = err error
  embed_chain (model ∷ rest) last_error texts = elim (model.embed texts) [
    | ok embeddings ↦ ok embeddings
    | err error ↦ embed_chain rest (some error) texts
  ]

  unfoldable pub embed :
      ModelProvider Embedding
      → List (ModelProvider Embedding)
      → List Chars
      → Result (List Embedding)
  unfolding embed_chain models
  embed primary fallbacks texts = embed_chain (models primary fallbacks) none texts

  unfoldable pub embed_batch_size : ModelProvider Embedding → List (ModelProvider Embedding) → ℕ
  embed_batch_size primary fallbacks = primary.embed_batch_size

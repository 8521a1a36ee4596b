-- ===== src/Model/Tests.antt =====
-- Runs of the model layer at concrete inputs.
use semcast.Base.{ℕ, ◌≡◌, refl, none, some, List, [], ◌∷◌, map, get_elem?, if◌then◌else◌, ltb}
use semcast.Base.Text.{Chars, codes}
use semcast.Model.{ok, err, CompletionRequest, ModelProvider}
use semcast.Model.Fallback.{complete}
use semcast.Model.Fallback.Chain.{Answerer, first_answer, pointwise}
use semcast.Model.Fallback.FirstAnswer.{complete-first_answer}
use semcast.Model.Retry.{max_retries, Reply, answered, send_with_retry}
use semcast.Model.Retry.Attempts.{Ends, send_with_retry-Ends}

-- Fails on an empty input; and answers everything.
flaky : Answerer
flaky q = elim q.input [
  | [] ↦ err (codes "refused")
  | c ∷ cs ↦ ok (record { text = codes "yes"; input_tokens = 1; output_tokens = 1 })
]

steady : Answerer
steady q = ok (record { text = codes "no"; input_tokens = 1; output_tokens = 1 })

abbrev provider : Answerer → ModelProvider ℕ
provider answer = record {
  id = codes "model";
  complete = map answer;
  embed = λ texts. ok [];
  embed_batch_size = 64;
}

abbrev ask : Chars → CompletionRequest
ask input = record { system = codes "s"; input = input; max_tokens = 8; schema = none }

abbrev batch : List CompletionRequest
batch = ask (codes "fine") ∷ ask [] ∷ []

complete-first_answer_example :
    get_elem? (complete (provider flaky) (provider steady ∷ []) batch) 1
    ≡ some (first_answer flaky (steady ∷ []) (ask []))
complete-first_answer_example =
    complete-first_answer (provider flaky) (provider steady ∷ []) flaky (steady ∷ []) batch 1
      (ask []) (pointwise (λ b. refl), (pointwise (λ b. refl), tt)) refl

-- Throttled twice, then served.
abbrev replies : ℕ → Reply
replies n = if ltb n 2 then answered 429 (some (codes "1")) [] else answered 200 none (codes "{}")

send_with_retry-Ends_example :
    Ends
      (codes "test")
      (λ status. [])
      (λ attempt span. 0)
      replies
      max_retries
      0
      (send_with_retry (codes "test") (λ status. []) (λ attempt span. 0) replies)
send_with_retry-Ends_example =
    send_with_retry-Ends (codes "test") (λ status. []) (λ attempt span. 0) replies

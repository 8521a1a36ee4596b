-- ===== src/Model.antt =====
-- src/model/mod.rs: what a model is asked and what it answers. A provider is reached over the
-- network; it is a parameter, the answers that it gives in one run as a function of the batch.
pub mod Fallback
pub mod Retry
pub mod Tests
use semcast.Base.{ℕ, ◌≡◌, Option, List}
use semcast.Base.Text.{Chars}

-- `crate::Result`, the error by its message.
pub data Result {ℓ} (A : Type ℓ) : Type ℓ where
  ok : A → Result A
  err : Chars → Result A

-- `?`: go on with the value, or pass the error up.
abbrev pub and_then {ℓ κ} : {A : Type ℓ} {B : Type κ} → Result A → (A → Result B) → Result B
and_then (ok a) next = next a
and_then (err message) next = err message

pub record CompletionRequest : Type 0 where
  pub system : Chars
  pub input : Chars
  pub max_tokens : ℕ
  pub schema : Option Chars

pub record Completion : Type 0 where
  pub text : Chars
  pub input_tokens : ℕ
  pub output_tokens : ℕ

pub record ModelProvider (Embedding : Type 0) : Type 0 where
  pub id : Chars
  pub complete : List CompletionRequest → List (Result Completion)
  pub embed : List Chars → Result (List Embedding)
  pub embed_batch_size : ℕ

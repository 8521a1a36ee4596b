-- ===== src/Model/Retry.antt =====
-- src/model/mod.rs: an HTTP request with bounded retries. What the attempt of a number gives, the
-- slice of a span that the clock's nanoseconds pick and the text of a status are arguments.
-- Durations are in nanoseconds.
pub mod Attempts
use semcast.Base.{
  ℕ, zero, suc, ◌+◌, ◌*◌, ◌/◌, ◌-◌, ◌≡◌, ◌^◌, min, Bool, true, false, ◌&&◌, ◌||◌, Option, none,
  some, List, [], ◌∷◌, ◌++◌, ltb, leb, ◌==◌, if◌then◌else◌, is_empty, arith,
}
use semcast.Base.Text.{Chars, codes, trim}
use semcast.Base.Decimal.{read_from}
use semcast.Model.{Result, ok, err}

abbrev pub max_retries : ℕ
max_retries = 4

abbrev pub base_backoff : ℕ
base_backoff = 250000000

abbrev pub max_backoff : ℕ
max_backoff = 30000000000

-- What `send` gave: a response with its Retry-After header and its body, or a transport error.
pub data Reply : Type 0 where
  answered : ℕ → Option Chars → Chars → Reply
  transport_error : Chars → Reply

abbrev pub is_success : ℕ → Bool
is_success status = leb 200 status && ltb status 300

abbrev pub is_retryable : ℕ → Bool
is_retryable status =
    status == 408
    || status == 425
    || status == 429
    || status == 500
    || status == 502
    || status == 503
    || status == 504
    || status == 529

abbrev pub all_digits : Chars → Bool
all_digits [] = true
all_digits (c ∷ cs) = leb 48 c && leb c 57 && all_digits cs

abbrev pub parse_digits : Chars → Option ℕ
parse_digits [] = none
parse_digits (c ∷ cs) =
    let n = read_from 0 (c ∷ cs) in if all_digits (c ∷ cs) && ltb n (2 ^ 64) then some n else none

-- `parse::<u64>`, which takes a plus sign.
abbrev pub parse_u64 : Chars → Option ℕ
parse_u64 [] = none
parse_u64 (c ∷ cs) = if c == 43 then parse_digits cs else parse_digits (c ∷ cs)

unfoldable pub parse_retry_after : Option Chars → Option ℕ
unfolding trim read_from
parse_retry_after none = none
parse_retry_after (some value) = elim (parse_u64 (trim value)) [
  | none ↦ none
  | some secs ↦ some (secs * 1000000000)
]

module _ (jitter : ℕ → ℕ) where
  -- The product does not saturate: it is at most 250 ms times 2 ^ 16.
  unfoldable pub backoff : ℕ → ℕ
  backoff attempt =
      let exp = base_backoff * 2 ^ min attempt 16 in
      let capped = min exp max_backoff in let half = capped / 2 in half + jitter half

abbrev pub slept : ℕ → Option (Result Reply × List ℕ) → Option (Result Reply × List ℕ)
slept delay none = none
slept delay (some (result, delays)) = some (result, delay ∷ delays)

abbrev pub delay_or : Option ℕ → ℕ → ℕ
delay_or none d = d
delay_or (some n) d = n

-- `send_with_retry`, with the delays that it slept.
module _ (label : Chars) (show_status : ℕ → Chars) (jitter : ℕ → ℕ → ℕ) (send : ℕ → Reply) where
  -- One turn of the loop: `rest` is the turn of the next attempt.
  unfoldable pub turn : ℕ → Reply → Option (Result Reply × List ℕ) → Option (Result Reply × List ℕ)
  unfolding backoff parse_retry_after
  turn attempt (answered status header body) rest =
      if is_success status
      then some (ok (answered status header body), [])
      else if is_retryable status && ltb attempt max_retries
      then slept (delay_or (parse_retry_after header) (backoff (jitter attempt) attempt)) rest
      else some
          (err (label ++ (codes " returned " ++ (show_status status ++ (codes ": " ++ body)))), [])
  turn attempt (transport_error e) rest =
      if ltb attempt max_retries
      then slept (backoff (jitter attempt) attempt) rest
      else some (err (label ++ (codes " request failed: " ++ e)), [])

  unfoldable pub send_from : ℕ → ℕ → Option (Result Reply × List ℕ)
  unfolding turn
  send_from zero attempt = none
  send_from (suc fuel) attempt = turn attempt (send attempt) (send_from fuel (attempt + 1))

  unfoldable pub send_with_retry : Option (Result Reply × List ℕ)
  unfolding send_from
  send_with_retry = send_from (suc max_retries) 0

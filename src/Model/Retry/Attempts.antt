-- ===== src/Model/Retry/Attempts.antt =====
-- How often src/model/mod.rs tries a request and how long it waits.
use semcast.Base.{
  ℕ, zero, suc, ◌+◌, ◌*◌, ◌/◌, ◌≡◌, ◌≤◌, ◌^◌, min, refl, Bool, true, false, ◌&&◌, ◌||◌, not, leb,
  ◌==◌, Option, none, some, List, [], ◌∷◌, ◌++◌, ltb, if◌then◌else◌, arith, All, length, ◌⊎◌, inl,
  inr, ap, sym, subst, Bool-cases,
}
use semcast.Base.Text.{Chars, codes}
use semcast.Model.{Result, ok, err}
use semcast.Model.Fallback.{indices_from}
use semcast.Model.Retry.{
  max_retries, base_backoff, max_backoff, Reply, answered, transport_error, is_success, backoff,
  turn, slept, delay_or, parse_retry_after, send_from, send_with_retry,
}

-- With a jitter within its span, a backoff is at most 30 seconds, and at least half (rounded down)
-- of the doubled base or of the cap.
pub backoff_bounds :
    (jitter : ℕ → ℕ) (attempt : ℕ)
    → jitter (min (base_backoff * 2 ^ min attempt 16) max_backoff / 2)
      ≤ min (base_backoff * 2 ^ min attempt 16) max_backoff / 2
    → (backoff jitter attempt ≤ max_backoff)
      × (min (base_backoff * 2 ^ min attempt 16) max_backoff ≤ 2 * backoff jitter attempt + 1)
unfolding backoff
backoff_bounds jitter attempt h = ground arith

abbrev pub any_of : ℕ → List ℕ → Bool
any_of n [] = false
any_of n (m ∷ ms) = n == m || any_of n ms

-- The server errors (5xx) that are left out: not implemented, version not supported and the like.
abbrev pub lasting : ℕ → Bool
lasting status = not (any_of status (500 ∷ 502 ∷ 503 ∷ 504 ∷ 529 ∷ []))

-- The replies that another attempt may mend: the request timed out, came too early or too often, the
-- server failed in a way that may pass, or no reply came.
unfoldable pub transient : Reply → Bool
transient (answered status header body) =
    any_of status (408 ∷ 425 ∷ 429 ∷ [])
    || (leb 500 status && ltb status 600 && not (lasting status))
transient (transport_error e) = true

module _ (label : Chars) (show_status : ℕ → Chars) (jitter : ℕ → ℕ → ℕ) (send : ℕ → Reply) where
  -- What the last attempt's reply makes of the request.
  unfoldable pub verdict : Reply → Result Reply
  verdict (answered status header body) =
      if is_success status
      then ok (answered status header body)
      else err (label ++ (codes " returned " ++ (show_status status ++ (codes ": " ++ body))))
  verdict (transport_error e) = err (label ++ (codes " request failed: " ++ e))

  turn_final :
      (attempt : ℕ) (reply : Reply) (rest : Option (Result Reply × List ℕ))
      → (transient reply && ltb attempt max_retries) ≡ false
      → turn label show_status jitter send attempt reply rest ≡ some (verdict reply, [])
  unfolding turn transient verdict
  turn_final attempt (answered status header body) rest h = ground arith
  turn_final attempt (transport_error e) rest h = ground arith

  turn_again :
      (attempt : ℕ) (reply : Reply) (rest : Option (Result Reply × List ℕ))
      → (transient reply && ltb attempt max_retries) ≡ true
      → (delay : ℕ) × (turn label show_status jitter send attempt reply rest ≡ slept delay rest)
  unfolding turn transient
  turn_again attempt (answered status header body) rest h =
      (delay_or (parse_retry_after header) (backoff (jitter attempt) attempt), ground arith)
  turn_again attempt (transport_error e) rest h = (backoff (jitter attempt) attempt, ground arith)

  -- The outcome of the loop from an attempt on, with so many retries left.
  abbrev pub Ends : ℕ → ℕ → Option (Result Reply × List ℕ) → Type 0
  Ends left attempt o =
      (result : Result Reply) × (delays : List ℕ) × (o ≡ some (result, delays))
      × (length delays ≤ left)
      × All (λ i. transient (send i) ≡ true) (indices_from attempt (length delays))
      × (result ≡ verdict (send (attempt + length delays)))
      × ((length delays ≡ left) ⊎ (transient (send (attempt + length delays)) ≡ false))

  Ends-again :
      (left attempt delay : ℕ) (o : Option (Result Reply × List ℕ))
      → transient (send attempt) ≡ true
      → Ends left (suc attempt) o
      → Ends (suc left) attempt (slept delay o)
  Ends-again left attempt delay o t (result, delays, e, l, all, v, stop) =
      let k : attempt + suc (length delays) ≡ suc attempt + length delays = omega arith in
      (
        result,
        delay ∷ delays,
        ap (slept delay) e,
        omega arith,
        (t, all),
        subst (λ n. result ≡ verdict (send n)) (sym k) v,
        elim stop [
          | inl q ↦ inl (ap suc q)
          | inr q ↦ inr (subst (λ n. transient (send n) ≡ false) (sym k) q)
        ],
      )

  Ends-final :
      (left attempt : ℕ) (o : Option (Result Reply × List ℕ))
      → attempt + left ≡ max_retries
      → (transient (send attempt) && ltb attempt max_retries) ≡ false
      → o ≡ some (verdict (send attempt), [])
      → Ends left attempt o
  Ends-final left attempt o h f e =
      let k : attempt ≡ attempt + 0 = omega arith in
      (
        verdict (send attempt),
        [],
        e,
        omega arith,
        tt,
        ap (λ n. verdict (send n)) k,
        elim (Bool-cases (transient (send attempt))) [
          | inl t ↦ inl (ground arith)
          | inr t ↦ inr (subst (λ n. transient (send n) ≡ false) k t)
        ],
      )

  and_cases :
      (b : Bool) (attempt left : ℕ)
      → attempt + left ≡ max_retries
      → (b && ltb attempt max_retries) ≡ true
      → (b ≡ true) × (k : ℕ) × (left ≡ suc k)
  and_cases b attempt zero h e = absurd (ground arith)
  and_cases b attempt (suc k) h e = (ground arith, k, refl)

  send_from-Ends :
      (left attempt : ℕ)
      → attempt + left ≡ max_retries
      → Ends left attempt (send_from label show_status jitter send (suc left) attempt)
  unfolding send_from
  send_from-Ends zero attempt h =
      Ends-final zero attempt _ h (ground arith)
        (turn_final attempt (send attempt) none (ground arith))
  send_from-Ends (suc k) attempt h =
      elim (Bool-cases (transient (send attempt) && ltb attempt max_retries)) [
        | inl e ↦
            let rest = send_from label show_status jitter send (suc k) (attempt + 1) in
            let (delay, q) = turn_again attempt (send attempt) rest e in
            let s : attempt + 1 ≡ suc attempt = omega arith in
            subst (Ends (suc k) attempt) (sym q) (
              Ends-again k attempt delay rest (and_cases _ attempt (suc k) h e).0 (
                subst
                  (λ n. Ends k (suc attempt) (send_from label show_status jitter send (suc k) n))
                  (sym s) (send_from-Ends k (suc attempt) (omega arith))))
        | inr e ↦ Ends-final (suc k) attempt _ h e (turn_final attempt (send attempt) _ e)
      ]

  -- A request always ends after at most four retries: the result is the verdict on the reply to the
  -- last attempt, every earlier reply was transient, and the last one is not unless the retries are
  -- spent. A server error other than 500, 502, 503, 504 and 529 is not transient.
  pub send_with_retry-Ends : Ends max_retries 0 (send_with_retry label show_status jitter send)
  unfolding send_with_retry
  send_with_retry-Ends = send_from-Ends max_retries 0 (omega arith)

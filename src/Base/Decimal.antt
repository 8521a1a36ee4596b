-- ===== src/Base/Decimal.antt =====
-- Numbers in decimal, as `format!` prints them.
use semcast.Base.{
  ℕ, zero, suc, ◌+◌, ◌-◌, ◌*◌, ◌/◌, ◌%◌, ◌≤◌, ◌<◌, ◌≡◌, refl, ap, ◌∙◌, [], ◌∷◌, ◌++◌, arith, ltb,
  length, replicate, All, if◌then◌else◌, inl, inr, Bool-cases, All-append,
}
use semcast.Base.Text.{Chars}

-- The digits of `n` before `acc`.
unfoldable pub digits_from : ℕ → ℕ → Chars → Chars
digits_from zero n acc = acc
digits_from (suc fuel) n acc =
    let rest = digits_from fuel (n / 10) ((48 + n % 10) ∷ acc) in
    if ltb n 10 then (48 + n % 10) ∷ acc else rest

-- `{n}`.
unfoldable pub show_nat : ℕ → Chars
unfolding digits_from
show_nat n = digits_from (suc n) n []

-- `{n:0w}`.
unfoldable pub show_padded : ℕ → ℕ → Chars
unfolding show_nat
show_padded w n = replicate (w - length (show_nat n)) 48 ++ show_nat n

-- The value of a row of digits, after those read so far.
unfoldable pub read_from : ℕ → Chars → ℕ
read_from v [] = v
read_from v (c ∷ cs) = read_from (v * 10 + (c - 48)) cs

abbrev pub IsDigit : ℕ → Type 0
IsDigit c = (48 ≤ c) × (c ≤ 57)

read_digits_from :
    (fuel n : ℕ) (acc : Chars) → n < fuel → read_from 0 (digits_from fuel n acc) ≡ read_from n acc
unfolding digits_from read_from
read_digits_from zero n acc h = elim h [ ]
read_digits_from (suc fuel) n acc h = elim (Bool-cases (ltb n 10)) [
  | inl e ↦
      let v : 0 * 10 + (48 + n % 10 - 48) ≡ n = ground arith in
      rw (e, digits_from, read_from, v) refl
  | inr e ↦
      let v : n / 10 * 10 + (48 + n % 10 - 48) ≡ n = omega arith in
      rw (e, digits_from)
        (read_digits_from fuel (n / 10) ((48 + n % 10) ∷ acc) (ground arith)
          ∙ ap (λ k. read_from k acc) v)
]

digits_from-IsDigit :
    (fuel n : ℕ) (acc : Chars) → All IsDigit acc → All IsDigit (digits_from fuel n acc)
unfolding digits_from
digits_from-IsDigit zero n acc h = h
digits_from-IsDigit (suc fuel) n acc h =
    let here : All IsDigit ((48 + n % 10) ∷ acc) = (omega arith, h) in
    elim (Bool-cases (ltb n 10)) [
      | inl e ↦ rw (e, digits_from) here
      | inr e ↦ rw (e, digits_from) (digits_from-IsDigit fuel (n / 10) _ here)
    ]

-- Printing writes digits only, and reading them gives the number back.
pub show_nat-IsDigit : (n : ℕ) → All IsDigit (show_nat n)
unfolding show_nat
show_nat-IsDigit n = digits_from-IsDigit (suc n) n [] tt

pub read-show_nat : (n : ℕ) → read_from 0 (show_nat n) ≡ n
unfolding show_nat read_from
read-show_nat n = read_digits_from (suc n) n [] (omega arith)

read-zeros : (k : ℕ) (cs : Chars) → read_from 0 (replicate k 48 ++ cs) ≡ read_from 0 cs
unfolding read_from
read-zeros zero cs = refl
read-zeros (suc k) cs = read-zeros k cs

zeros-IsDigit : (k : ℕ) → All IsDigit (replicate k 48)
zeros-IsDigit zero = tt
zeros-IsDigit (suc k) = (omega arith, zeros-IsDigit k)

pub read-show_padded : (w n : ℕ) → read_from 0 (show_padded w n) ≡ n
unfolding show_padded
read-show_padded w n = read-zeros (w - length (show_nat n)) (show_nat n) ∙ read-show_nat n

pub show_padded-IsDigit : (w n : ℕ) → All IsDigit (show_padded w n)
unfolding show_padded
show_padded-IsDigit w n =
    All-append IsDigit (replicate (w - length (show_nat n)) 48) (show_nat n) (show_nat-IsDigit n)
      (zeros-IsDigit _)

-- Two texts of digits behind which a separator stands are equal piece by piece.
pub split_digits :
    (sep : ℕ) (a b c d : Chars)
    → 57 < sep
    → All IsDigit a
    → All IsDigit b
    → a ++ sep ∷ c ≡ b ++ sep ∷ d
    → (a ≡ b) × (c ≡ d)
split_digits sep [] [] c d l p q e = ground arith
split_digits sep [] (y ∷ b) c d l p q e = absurd (ground arith)
split_digits sep (x ∷ a) [] c d l p q e = absurd (ground arith)
split_digits sep (x ∷ a) (y ∷ b) c d l p q e =
    let tails : a ++ sep ∷ c ≡ b ++ sep ∷ d = ground arith in
    let (r, s) = split_digits sep a b c d l p.1 q.1 tails in ground arith

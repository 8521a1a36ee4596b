-- ===== src/Sql/Ddl/Fuel.antt =====
-- src/sql/ddl.rs: the parser takes tokens away, so its loops end.
pub mod Loops
use semcast.Base.{
  ℕ, zero, suc, ◌≤◌, ◌<◌, ◌≡◌, refl, Bool, true, false, Option, none, some, List, [], ◌∷◌, ◌++◌,
  length, arith, Bool-cases, inl, inr, if◌then◌else◌, Option-cases,
}
use semcast.Base.Text.{Chars, codes}
use semcast.Base.Assoc.{chars_beq}
use semcast.Model.{Result, ok, err, and_then}
use semcast.Types.{FieldType}
use semcast.Sql.{
  Token, Tokens, word, single_quoted, double_quoted, comma, l_paren, r_paren, l_bracket, r_bracket,
  semi_colon, eof, other, peek_word, next_token,
}
use semcast.Sql.Ddl.{
  Sqlparser, variants, rendered_range, parse_variant_list, parse_check_range, parse_base,
  parse_field_type, expect_l_paren, expect_r_bracket, with_brackets, duplicate, split_once_dots,
  bound,
}

-- A result leaves so many tokens at most.
pub Within : {A : Type 0} → ℕ → Result (A × Tokens) → Type 0
Within n (ok r) = length r.1 ≤ n
Within n (err message) = Unit

pub and_then-Within :
    {A B : Type 0} (n k : ℕ) (m : Result (A × Tokens)) (f : A × Tokens → Result (B × Tokens))
    → Within n m
    → ((r : A × Tokens) → length r.1 ≤ n → Within k (f r))
    → Within k (and_then m f)
unfolding Within
and_then-Within n k (ok r) f few next = next r few
and_then-Within n k (err message) f few next = tt

-- The same of tokens alone.
pub Left : ℕ → Result Tokens → Type 0
Left n (ok ts) = length ts ≤ n
Left n (err message) = Unit

pub and_then-Left :
    {B : Type 0} (n k : ℕ) (m : Result Tokens) (f : Tokens → Result (B × Tokens))
    → Left n m
    → ((ts : Tokens) → length ts ≤ n → Within k (f ts))
    → Within k (and_then m f)
unfolding Left Within
and_then-Left n k (ok ts) f few next = next ts few
and_then-Left n k (err message) f few next = tt

Within-mono : {A : Type 0} (n k : ℕ) (m : Result (A × Tokens)) → n ≤ k → Within n m → Within k m
unfolding Within
Within-mono n k (ok r) le few = omega (arith, le, few)
Within-mono n k (err message) le few = tt

and_then-each :
    {A B : Type 0} (k : ℕ) (m : Result A) (f : A → Result (B × Tokens))
    → ((a : A) → Within k (f a))
    → Within k (and_then m f)
unfolding Within
and_then-each k (ok a) f each = each a
and_then-each k (err message) f each = tt

module _ (p : Sqlparser) where
  expect_l_paren-Left : (ts : Tokens) → Left (length ts) (expect_l_paren p ts)
  unfolding Left
  expect_l_paren-Left (l_paren ∷ ts) = omega arith
  expect_l_paren-Left _ = tt

  expect_r_bracket-Left : (ts : Tokens) → Left (length ts) (expect_r_bracket p ts)
  unfolding Left
  expect_r_bracket-Left (r_bracket ∷ ts) = omega arith
  expect_r_bracket-Left _ = tt

  variants-Within : (ts : Tokens) → Within (length ts) (variants p ts)
  unfolding Within variants
  variants-Within (word v ∷ comma ∷ ts) =
      and_then-Within (length ts) _ (variants p ts) _ (variants-Within ts)
        (λ r few. omega (arith, few))
  variants-Within (word v ∷ r_paren ∷ ts) = omega arith
  variants-Within _ = tt

  rendered_range-Within : (ts : Tokens) → Within (length ts) (rendered_range p ts)
  unfolding Within rendered_range
  rendered_range-Within [] = tt
  rendered_range-Within (r_paren ∷ ts) = omega arith
  rendered_range-Within (t ∷ ts) =
      and_then-Within (length ts) _ (rendered_range p ts) _ (rendered_range-Within ts)
        (λ r few. omega (arith, few))

  parse_variant_list-Within : (ts : Tokens) → Within (length ts) (parse_variant_list p ts)
  unfolding parse_variant_list Within
  parse_variant_list-Within ts =
      and_then-Left (length ts) _ (expect_l_paren p ts) _ (expect_l_paren-Left ts) (λ inner fewer.
        and_then-Within (length inner) _ (variants p inner) _ (variants-Within inner) (λ r few.
          elim (Option-cases (duplicate [] r.0)) [
            | inl e ↦ rw e (omega (arith, few, fewer))
            | inr (v, e) ↦ rw e tt
          ]))

  parse_check_range-Within : (ts : Tokens) → Within (length ts) (parse_check_range p ts)
  unfolding parse_check_range Within
  parse_check_range-Within ts =
      and_then-Left (length ts) _ (expect_l_paren p ts) _ (expect_l_paren-Left ts) (λ inner fewer.
        and_then-Within (length inner) _ (rendered_range p inner) _ (rendered_range-Within inner)
          (λ r few. elim (Option-cases (split_once_dots r.0)) [
            | inl e ↦ rw e tt
            | inr (v, e) ↦ rw e (
                and_then-each (length ts) (bound p (codes "lower") v.0) _ (λ lo.
                  and_then-each (length ts) (bound p (codes "upper") v.1) _
                    (λ hi. omega (arith, few, fewer))))
          ]))

  next_token_fewer : (ts : Tokens) → length (next_token ts).1 ≤ length ts
  next_token_fewer [] = omega arith
  next_token_fewer (t ∷ ts) = omega arith

  if-Within :
      {A : Type 0} (k : ℕ) (b : Bool) (m n : Result (A × Tokens))
      → Within k m
      → Within k n
      → Within k (if b then m else n)
  if-Within k true m n h g = h
  if-Within k false m n h g = g

  parse_base-Within : (keyword : Chars) (ts : Tokens) → Within (length ts) (parse_base p keyword ts)
  unfolding parse_base Within
  parse_base-Within keyword ts =
      let here : length ts ≤ length ts = omega arith in
      let range =
        and_then-Within (length ts) _ (parse_check_range p (next_token ts).1) _
          (Within-mono _ _ _ (next_token_fewer ts) (parse_check_range-Within (next_token ts).1))
          (λ r few. few) in
      let names = parse_variant_list-Within ts in
      if-Within _ (chars_beq keyword (codes "TEXT")) _ _ here (
        if-Within _ (chars_beq keyword (codes "INT")) _ _ here (
          if-Within _ (chars_beq keyword (codes "BOOL")) _ _ here (
            if-Within _ (chars_beq keyword (codes "REAL")) _ _
              (if-Within _ (peek_word ts (codes "CHECK")) _ _ range here)
              (if-Within _ (chars_beq keyword (codes "ONEOF")) _ _
                (and_then-Within (length ts) _ (parse_variant_list p ts) _ names (λ r few. few))
                (if-Within _ (chars_beq keyword (codes "LEVEL")) _ _
                  (and_then-Within (length ts) _ (parse_variant_list p ts) _ names (λ r few. few))
                  tt)))))

  with_brackets-Within :
      (base : FieldType) (ts : Tokens) → Within (length ts) (with_brackets p base ts)
  unfolding Within
  with_brackets-Within base (l_bracket ∷ ts) =
      and_then-Left (length ts) _ (expect_r_bracket p ts) _ (expect_r_bracket-Left ts)
        (λ rest few. omega (arith, few))
  with_brackets-Within base [] = omega arith
  with_brackets-Within base (t ∷ ts) = omega arith

  parse_field_type-Within : (ts : Tokens) → Within (length ts) (parse_field_type p ts)
  unfolding parse_field_type Within
  parse_field_type-Within (word w ∷ ts) =
      and_then-Within (length ts) _ (parse_base p (p.to_uppercase w) ts) _
        (parse_base-Within (p.to_uppercase w) ts)
        (λ r few.
          Within-mono (length r.1) _ (with_brackets p r.0 r.1) (omega (arith, few))
            (with_brackets-Within r.0 r.1))
  parse_field_type-Within _ = tt

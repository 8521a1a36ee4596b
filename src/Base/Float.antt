-- ===== src/Base/Float.antt =====
-- The machine's floats, which the language provides: their operations, with what the program relies
-- on of the comparisons. `total_cmp` is IEEE 754's totalOrder.
use semcast.Base.{
  ℕ, ◌≡◌, ◌≢◌, Bool, List, [], ◌∷◌, arith, leb, ltb, compare, Ordering, ◌+◌, ◌*◌, ◌/◌,
}
use Prim.Native.Nat.{gt}

pub record Float : Type 1 where
  pub F : Type 0
  pub zero : F
  pub mul : F → F → F
  pub div : F → F → F
  pub sqrt : F → F
  -- `Iterator::sum`.
  pub sum : List F → F
  pub ge : F → F → Bool
  pub is_gt : F → F → Bool
  pub total_cmp : F → F → Ordering
  -- Of two values at least one is not greater; and "not greater" is transitive.
  pub cmp_total : (a b : F) → total_cmp a b ≡ gt → total_cmp b a ≢ gt
  pub cmp_trans : (a b c : F) → total_cmp a b ≢ gt → total_cmp b c ≢ gt → total_cmp a c ≢ gt

pub compare_total : (a b : ℕ) → compare a b ≡ gt → compare b a ≢ gt
compare_total a b h = ground arith

pub compare_trans : (a b c : ℕ) → compare a b ≢ gt → compare b c ≢ gt → compare a c ≢ gt
compare_trans a b c h k = ground arith

abbrev total_ℕ : List ℕ → ℕ
total_ℕ [] = 0
total_ℕ (x ∷ xs) = x + total_ℕ xs

-- Whole numbers meet the assumptions.
abbrev pub whole : Float
whole = record {
  F = ℕ;
  zero = 0;
  mul = ◌*◌;
  div = ◌/◌;
  sqrt = λ n. n;
  sum = total_ℕ;
  ge = λ a b. leb b a;
  is_gt = λ a b. ltb b a;
  total_cmp = compare;
  cmp_total = compare_total;
  cmp_trans = compare_trans;
}

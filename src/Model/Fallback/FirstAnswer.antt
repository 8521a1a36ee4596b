-- ===== src/Model/Fallback/FirstAnswer.antt =====
-- The chain of src/model/fallback.rs against its description: the first answer down the chain.
use semcast.Base.{
  ℕ, zero, suc, ◌+◌, ◌≤◌, ◌<◌, ◌≡◌, refl, sym, ap, subst, ◌∙◌, inl, inr, true, false, none, some,
  List, [], ◌∷◌, map, length, get_or, get_elem?, replicate, Bool-cases, arith, ◌==◌, ==_iff,
  length-map, length-replicate, All, ◌⊎◌,
}
use mathlib.Core.List.{Memᴰ}
use mathlib.Core.List.Memᴰ.{head, tail}
use semcast.Model.{Result, CompletionRequest, Completion, ModelProvider}
use semcast.Model.Fallback.{
  Slots, blank, indices_from, models, fit, route, ask_chain, unwrap_slot, complete,
}
use mathlib.Core.Option.{some-injective}
use semcast.Model.Fallback.Chain.{
  Answerer, first_answer, Answers, pointwise, AllAnswer, length-route, route-Done, route-Due,
  route_last, request, Done, Due,
}

module _ {Embedding : Type 0} (requests : List CompletionRequest)
    (due : ℕ → Result Completion) where
  fit-Answers :
      (m : ModelProvider Embedding) (a : Answerer) (batch : List CompletionRequest)
      → Answers m a
      → map a batch ≡ fit m (length batch) (m.complete batch)
  unfolding fit
  fit-Answers m a batch (pointwise h) =
      let e : (length (map a batch) == length batch) ≡ true = (==_iff _ _).1 (length-map a batch) in
      rw (h batch, fit, e) refl

  ask_chain-Done :
      (m : ModelProvider Embedding) (ms : List (ModelProvider Embedding)) (a : Answerer)
      (rest : List Answerer) (pending : List ℕ) (slots : Slots) (i : ℕ)
      → AllAnswer (m ∷ ms) (a ∷ rest)
      → All (Due requests due (length slots) a rest) pending
      → Done requests due i slots ⊎ Memᴰ i pending
      → Done requests due i (ask_chain requests (m ∷ ms) pending slots)
  unfolding ask_chain
  ask_chain-Done m ms a rest [] slots i w d (inl h) = h
  ask_chain-Done m ms a rest [] slots i w d (inr h) = elim h [ ]
  ask_chain-Done m [] a [] (p ∷ ps) slots i w d h =
      elim (route-Done requests due a [] (p ∷ ps) _ slots i d (fit-Answers m a _ w.0) h) [
        | inl q ↦ q
        | inr q ↦ elim (subst (Memᴰ i) (route_last requests due (p ∷ ps) _ slots) q) [ ]
      ]
  ask_chain-Done m [] a (b ∷ bs) (p ∷ ps) slots i w d h = absurd w.1
  ask_chain-Done m (n ∷ ms) a [] (p ∷ ps) slots i w d h = absurd w.1
  ask_chain-Done m (n ∷ ms) a (b ∷ bs) (p ∷ ps) slots i w d h =
      let os =
        fit m (length (map (request requests due) (p ∷ ps)))
          (m.complete (map (request requests due) (p ∷ ps))) in
      let e = fit-Answers m a (map (request requests due) (p ∷ ps)) w.0 in
      ask_chain-Done n ms b bs (route false (p ∷ ps) os slots).1 (route false (p ∷ ps) os slots).0 i
        w.1
        (subst (λ k. All (Due requests due k b bs) (route false (p ∷ ps) os slots).1)
          (sym (length-route false (p ∷ ps) os slots))
          (route-Due requests due (length slots) a b bs (p ∷ ps) os slots d e))
        (route-Done requests due a (b ∷ bs) (p ∷ ps) os slots i d e h)

module _ (n : ℕ) where
  indices_from-All {ℓ} :
      (P : ℕ → Type ℓ) (i k : ℕ) → ((j : ℕ) → j < n → P j) → i + k ≡ n → All P (indices_from i k)
  indices_from-All P i zero h e = tt
  indices_from-All P i (suc k) h e =
      (h i (omega arith), indices_from-All P (suc i) k h (omega arith))

  Mem-indices_from : (i k j : ℕ) → i ≤ j → j < i + k → Memᴰ j (indices_from i k)
  Mem-indices_from i zero j l h = absurd (omega arith)
  Mem-indices_from i (suc k) j l h = elim (Bool-cases (i == j)) [
    | inl e ↦ head (sym ((==_iff i j).0 e))
    | inr e ↦ tail (Mem-indices_from (suc i) k j (ground arith) (omega arith))
  ]

get_elem?-map {ℓ κ} :
    {A : Type ℓ} {B : Type κ} (f : A → B) (xs : List A) (i : ℕ) (x : A)
    → get_elem? xs i ≡ some x
    → get_elem? (map f xs) i ≡ some (f x)
get_elem?-map f [] i x h = absurd (ground arith)
get_elem?-map f (y ∷ xs) zero x h = ap (λ v. some (f v)) (some-injective y x h)
get_elem?-map f (y ∷ xs) (suc i) x h = get_elem?-map f xs i x h

get_elem?-in_range {ℓ} :
    {A : Type ℓ} (d : A) (xs : List A) (i : ℕ) (x : A)
    → get_elem? xs i ≡ some x
    → (i < length xs) × (get_or xs i d ≡ x)
get_elem?-in_range d [] i x h = absurd (ground arith)
get_elem?-in_range d (y ∷ xs) zero x h = (omega arith, some-injective y x h)
get_elem?-in_range d (y ∷ xs) (suc i) x h =
    let (p, q) = get_elem?-in_range d xs i x h in (omega arith, q)

-- When each model answers a request by itself, the chain's result for a request is the first success
-- down the chain, and the last model's error when every model fails on it.
pub complete-first_answer :
    {Embedding : Type 0} (primary : ModelProvider Embedding)
    (fallbacks : List (ModelProvider Embedding)) (answer : Answerer) (rest : List Answerer)
    (requests : List CompletionRequest) (i : ℕ) (q : CompletionRequest)
    → AllAnswer (primary ∷ fallbacks) (answer ∷ rest)
    → get_elem? requests i ≡ some q
    → get_elem? (complete primary fallbacks requests) i ≡ some (first_answer answer rest q)
unfolding complete models
complete-first_answer primary fallbacks answer rest requests i q w h =
    let n = length requests in
    let slots : Slots = replicate n none in
    let due : ℕ → Result Completion = λ j. first_answer answer rest (get_or requests j blank) in
    let (l, e) = get_elem?-in_range blank requests i q h in
    let d =
      ask_chain-Done requests due primary fallbacks answer rest (indices_from 0 n) slots i w
        (indices_from-All n (Due requests due (length slots) answer rest) 0 n
          (λ j k. (subst (λ m. j < m) (sym (length-replicate n none)) k, refl)) (omega arith))
        (inr (Mem-indices_from n 0 n i (omega arith) (omega arith))) in
    get_elem?-map unwrap_slot _ i _ d ∙ ap (λ r. some (first_answer answer rest r)) e

-- ===== src/Model/Fallback/Chain.antt =====
-- What the chain of src/model/fallback.rs answers, request by request.
use semcast.Base.{
  ℕ, ◌<◌, ◌≡◌, refl, sym, ap, subst, ◌∙◌, inl, inr, Bool, true, false, Option, some, List, [], ◌∷◌,
  map, length, get_or, get_elem?, set, is_empty, Bool-cases, arith, ◌==◌, ==_iff, length-set,
  get_elem?-set_self, get_elem?-set_ne, All, ◌⊎◌,
}
use mathlib.Core.List.{Memᴰ}
use mathlib.Core.List.Memᴰ.{head, tail}
use semcast.Base.Text.{Chars}
use semcast.Model.{Result, ok, err, CompletionRequest, Completion, ModelProvider}
use semcast.Model.Fallback.{Slots, blank, route, ask_chain}

-- A model that answers each request by itself, in the batch's order.
abbrev pub Answerer : Type 0
Answerer = CompletionRequest → Result Completion

-- The first success down the chain, or else the last model's error.
unfoldable pub first_answer : Answerer → List Answerer → CompletionRequest → Result Completion
first_answer answer [] q = answer q
first_answer answer (next ∷ rest) q = elim (answer q) [
  | ok c ↦ ok c
  | err e ↦ first_answer next rest q
]

pub data Answers {Embedding : Type 0} (m : ModelProvider Embedding) (answer : Answerer)
    : Type 0 where
  pointwise :
      ((batch : List CompletionRequest) → m.complete batch ≡ map answer batch) → Answers m answer

-- The chain's models answer as the given functions do.
abbrev pub AllAnswer :
    {Embedding : Type 0} → List (ModelProvider Embedding) → List Answerer → Type 0
AllAnswer [] [] = Unit
AllAnswer [] (a ∷ rest) = ⊥
AllAnswer (m ∷ ms) [] = ⊥
AllAnswer (m ∷ ms) (a ∷ rest) = Answers m a × AllAnswer ms rest

pub length-route :
    (last : Bool) (pending : List ℕ) (outcomes : List (Result Completion)) (slots : Slots)
    → length (route last pending outcomes slots).0 ≡ length slots
unfolding route
length-route last [] outcomes slots = refl
length-route last (p ∷ ps) [] slots = refl
length-route last (p ∷ ps) (ok c ∷ os) slots =
    length-route last ps os (set slots p (some (ok c))) ∙ length-set slots p (some (ok c))
length-route true (p ∷ ps) (err e ∷ os) slots =
    length-route true ps os (set slots p (some (err e))) ∙ length-set slots p (some (err e))
length-route false (p ∷ ps) (err e ∷ os) slots = length-route false ps os slots

module _ {Embedding : Type 0} where
  pub length-ask_chain :
      (requests : List CompletionRequest) (ms : List (ModelProvider Embedding)) (pending : List ℕ)
      (slots : Slots)
      → length (ask_chain requests ms pending slots) ≡ length slots
  unfolding ask_chain
  length-ask_chain requests [] pending slots = refl
  length-ask_chain requests (m ∷ ms) [] slots = refl
  length-ask_chain requests (m ∷ ms) (p ∷ ps) slots =
      length-ask_chain requests ms _ _ ∙ length-route (is_empty ms) (p ∷ ps) _ slots

module _ (requests : List CompletionRequest) (due : ℕ → Result Completion) where
  abbrev pub request : ℕ → CompletionRequest
  request i = get_or requests i blank

  -- The slot holds its due answer; and the index is due the rest of the chain's answer.
  abbrev pub Done : ℕ → Slots → Type 0
  Done i slots = get_elem? slots i ≡ some (some (due i))

  abbrev pub Due : ℕ → Answerer → List Answerer → ℕ → Type 0
  Due n a rest j = (j < n) × (first_answer a rest (request j) ≡ due j)

  Done-set :
      (slots : Slots) (p i : ℕ) (r : Result Completion)
      → p < length slots
      → r ≡ due p
      → Done i slots ⊎ (i ≡ p)
      → Done i (set slots p (some r))
  Done-set slots p i r l e h = elim (Bool-cases (p == i)) [
    | inl q ↦
        subst (λ k. Done k (set slots p (some r))) ((==_iff p i).0 q)
          (get_elem?-set_self slots p (some r) l ∙ ap (λ x. some (some x)) e)
    | inr q ↦ elim h [
      | inl d ↦ get_elem?-set_ne slots p i (some r) (ground arith) ∙ d
      | inr s ↦ absurd (ground arith)
    ]
  ]

  last_answer : (a : Answerer) (q : CompletionRequest) → a q ≡ first_answer a [] q
  unfolding first_answer
  last_answer a q = refl

  first_answer-ok :
      (a : Answerer) (rest : List Answerer) (q : CompletionRequest) (c : Completion)
      → a q ≡ ok c
      → first_answer a rest q ≡ ok c
  unfolding first_answer
  first_answer-ok a [] q c h = h
  first_answer-ok a (b ∷ bs) q c h = rw (h, first_answer) refl

  first_answer-err :
      (a b : Answerer) (bs : List Answerer) (q : CompletionRequest) (e : Chars)
      → a q ≡ err e
      → first_answer a (b ∷ bs) q ≡ first_answer b bs q
  unfolding first_answer
  first_answer-err a b bs q e h = rw (h, first_answer) refl

  Due-set :
      (a : Answerer) (rest : List Answerer) (slots : Slots) (p : ℕ) (v : Option (Result Completion))
      (ps : List ℕ)
      → All (Due (length slots) a rest) ps
      → All (Due (length (set slots p v)) a rest) ps
  Due-set a rest slots p v ps h = subst (λ n. All (Due n a rest) ps) (sym (length-set slots p v)) h

  -- After the write of a slot its index is done; what was done or pending still is.
  after_write :
      (slots : Slots) (p i : ℕ) (ps : List ℕ) (r : Result Completion)
      → p < length slots
      → r ≡ due p
      → Done i slots ⊎ Memᴰ i (p ∷ ps)
      → Done i (set slots p (some r)) ⊎ Memᴰ i ps
  after_write slots p i ps r l e (inl d) = inl (Done-set slots p i r l e (inl d))
  after_write slots p i ps r l e (inr (head q)) = inl (Done-set slots p i r l e (inr q))
  after_write slots p i ps r l e (inr (tail m)) = inr m

  later :
      (p : ℕ) (i : ℕ) (slots : Slots) (ps : List ℕ)
      → Done i slots ⊎ Memᴰ i ps
      → Done i slots ⊎ Memᴰ i (p ∷ ps)
  later p i slots ps (inl d) = inl d
  later p i slots ps (inr m) = inr (tail m)

  pub route-Done :
      (a : Answerer) (rest : List Answerer) (pending : List ℕ) (outcomes : List (Result Completion))
      (slots : Slots) (i : ℕ)
      → All (Due (length slots) a rest) pending
      → map a (map request pending) ≡ outcomes
      → Done i slots ⊎ Memᴰ i pending
      → Done i (route (is_empty rest) pending outcomes slots).0
        ⊎ Memᴰ i (route (is_empty rest) pending outcomes slots).1
  unfolding route
  route-Done a rest [] outcomes slots i d e (inl h) = inl h
  route-Done a rest [] outcomes slots i d e (inr m) = elim m [ ]
  route-Done a rest (p ∷ ps) [] slots i d e h = absurd (ground arith)
  route-Done a rest (p ∷ ps) (ok c ∷ os) slots i d e h =
      let here : a (request p) ≡ ok c = ground arith in
      let r : ok c ≡ due p = sym (first_answer-ok a rest (request p) c here) ∙ d.0.1 in
      route-Done a rest ps os (set slots p (some (ok c))) i (Due-set a rest slots p _ ps d.1)
        (ground arith) (after_write slots p i ps (ok c) d.0.0 r h)
  route-Done a [] (p ∷ ps) (err x ∷ os) slots i d e h =
      let here : a (request p) ≡ err x = ground arith in
      let r : err x ≡ due p = sym here ∙ last_answer a (request p) ∙ d.0.1 in
      route-Done a [] ps os (set slots p (some (err x))) i (Due-set a [] slots p _ ps d.1)
        (ground arith) (after_write slots p i ps (err x) d.0.0 r h)
  route-Done a (b ∷ bs) (p ∷ ps) (err x ∷ os) slots i d e (inl h) =
      later p i _ _ (route-Done a (b ∷ bs) ps os slots i d.1 (ground arith) (inl h))
  route-Done a (b ∷ bs) (p ∷ ps) (err x ∷ os) slots i d e (inr (head q)) = inr (head q)
  route-Done a (b ∷ bs) (p ∷ ps) (err x ∷ os) slots i d e (inr (tail m)) =
      later p i _ _ (route-Done a (b ∷ bs) ps os slots i d.1 (ground arith) (inr m))

  pub route-Due :
      (n : ℕ) (a b : Answerer) (bs : List Answerer) (pending : List ℕ)
      (outcomes : List (Result Completion)) (slots : Slots)
      → All (Due n a (b ∷ bs)) pending
      → map a (map request pending) ≡ outcomes
      → All (Due n b bs) (route false pending outcomes slots).1
  unfolding route
  route-Due n a b bs [] outcomes slots d e = tt
  route-Due n a b bs (p ∷ ps) [] slots d e = tt
  route-Due n a b bs (p ∷ ps) (ok c ∷ os) slots d e = route-Due n a b bs ps os _ d.1 (ground arith)
  route-Due n a b bs (p ∷ ps) (err x ∷ os) slots d e =
      let here : a (request p) ≡ err x = ground arith in
      (
        (d.0.0, sym (first_answer-err a b bs (request p) x here) ∙ d.0.1),
        route-Due n a b bs ps os slots d.1 (ground arith),
      )

  pub route_last :
      (pending : List ℕ) (outcomes : List (Result Completion)) (slots : Slots)
      → (route true pending outcomes slots).1 ≡ []
  unfolding route
  route_last [] outcomes slots = refl
  route_last (p ∷ ps) [] slots = refl
  route_last (p ∷ ps) (ok c ∷ os) slots = route_last ps os _
  route_last (p ∷ ps) (err x ∷ os) slots = route_last ps os _

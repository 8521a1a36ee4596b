-- ===== src/Physical/Extract/Normal.antt =====
-- src/physical/extract.rs: a normalized value is in its normal form.
use semcast.Base.{
  ◌≡◌, refl, sym, ap, ◌∙◌, subst, ◌&&◌, Option, none, some, List, [], ◌∷◌, if◌then◌else◌,
  some_is_none, Bool-cases, Option-cases, inl, inr,
}
use semcast.Base.Text.{Chars, to_lowercase}
use semcast.Base.Assoc.{chars_beq, chars_beq_iff}
use semcast.Sql.{eq_ignore_ascii_case}
use semcast.Types.{
  FieldType, OrderedF64, text, int, real, real_bounded, boolean, one_of, level, list, nested,
}
use semcast.Physical.Extract.{
  Json, JsonLaws, map_some, add_some, filter_map, find_variant, bounded, variant, validate_field,
}

some_injective {ℓ} : {A : Type ℓ} {a b : A} → some a ≡ some b → a ≡ b
some_injective e = cc

pub map_some_from :
    {A B : Type 0} (f : A → B) (o : Option A) {b : B}
    → map_some f o ≡ some b
    → (a : A) × (o ≡ some a) × (f a ≡ b)
map_some_from f none done = absurd (some_is_none (sym done))
map_some_from f (some a) done = (a, refl, some_injective done)

filter_map_twice :
    {A : Type 0} (f : A → Option A)
    → ((a b : A) → f a ≡ some b → f b ≡ some b)
    → (xs : List A) → filter_map f (filter_map f xs) ≡ filter_map f xs
filter_map_twice f again [] = refl
filter_map_twice f again (x ∷ xs) = elim (Option-cases (f x)) [
  | inl e ↦ rw e (filter_map_twice f again xs)
  | inr (b, e) ↦ rw e (
      ap (λ o. add_some o (filter_map f (filter_map f xs))) (again x b e)
      ∙ ap (λ r. b ∷ r) (filter_map_twice f again xs))
]

-- Only the text but for case decides what is found, and what is found has it.
find_variant_same :
    (a b : Chars) (variants : List Chars)
    → to_lowercase a ≡ to_lowercase b
    → find_variant a variants ≡ find_variant b variants
unfolding find_variant
find_variant_same a b [] q = refl
find_variant_same a b (v ∷ variants) q =
    ap (λ l. if chars_beq (to_lowercase v) l then some v else find_variant a variants) q
    ∙ ap (λ r. if chars_beq (to_lowercase v) (to_lowercase b) then some v else r)
        (find_variant_same a b variants q)

find_variant_lower :
    (got : Chars) (variants : List Chars) (w : Chars)
    → find_variant got variants ≡ some w
    → to_lowercase w ≡ to_lowercase got
unfolding find_variant
find_variant_lower got [] w = λ done. absurd (some_is_none (sym done))
find_variant_lower got (v ∷ variants) w = elim (Bool-cases (eq_ignore_ascii_case v got)) [
  | inl e ↦ rw e (λ done.
      ap to_lowercase (sym (some_injective done))
      ∙ (chars_beq_iff (to_lowercase v) (to_lowercase got)).0 e)
  | inr e ↦ rw e (find_variant_lower got variants w)
]

-- The variant that is found is found again by its own spelling.
find_variant_twice :
    (got w : Chars) (variants : List Chars)
    → find_variant got variants ≡ some w
    → find_variant w variants ≡ some w
find_variant_twice got w variants done =
    find_variant_same w got variants (find_variant_lower got variants w done) ∙ done

module _ (json : Json) (laws : JsonLaws json) where
  variant_twice :
      (variants : List Chars) (o : Option Chars) (n : json.Value)
      → variant json variants o ≡ some n
      → variant json variants (json.as_str n) ≡ some n
  variant_twice variants none n done = absurd (some_is_none (sym done))
  variant_twice variants (some got) n done =
      let (w, found, made) = map_some_from json.of_str (find_variant got variants) done in
      let again = find_variant_twice got w variants found in
      subst (λ x. variant json variants (json.as_str x) ≡ some x) made
        (ap (variant json variants) (laws.str_back w) ∙ ap (map_some json.of_str) again)

  bounded_twice :
      (min max : OrderedF64) (v n : json.Value) (o : Option OrderedF64)
      → json.as_f64 v ≡ o
      → bounded json min max o ≡ some n
      → bounded json min max (json.as_f64 n) ≡ some n
  bounded_twice min max v n none read = λ done. absurd (some_is_none (sym done))
  bounded_twice min max v n (some f) read = elim (Bool-cases (json.ge f min && json.ge max f)) [
    | inl e ↦ rw e (λ done.
        subst (λ x. bounded json min max (json.as_f64 x) ≡ some x) (some_injective done)
          (ap (bounded json min max) (laws.f64_back v f read)
            ∙ ap (λ b. if b then some (json.of_f64 f) else none) e))
    | inr e ↦ rw e (λ done. absurd (some_is_none (sym done)))
  ]

  -- To validate a normalized value changes nothing: enum casing is folded once, a bound that was met is
  -- met, and the items of a list that were kept are kept.
  pub validate_field_twice :
      (ty : FieldType) (v n : json.Value)
      → validate_field json ty v ≡ some n
      → validate_field json ty n ≡ some n
  unfolding validate_field
  validate_field_twice text v n done =
      let (s, read, made) = map_some_from json.of_str (json.as_str v) done in
      subst (λ x. map_some json.of_str (json.as_str x) ≡ some x) made
        (ap (map_some json.of_str) (laws.str_back s))
  validate_field_twice int v n done =
      let (i, read, made) = map_some_from json.of_i64 (json.as_i64 v) done in
      subst (λ x. map_some json.of_i64 (json.as_i64 x) ≡ some x) made
        (ap (map_some json.of_i64) (laws.i64_back i))
  validate_field_twice real v n done =
      let (f, read, made) = map_some_from json.of_f64 (json.as_f64 v) done in
      subst (λ x. map_some json.of_f64 (json.as_f64 x) ≡ some x) made
        (ap (map_some json.of_f64) (laws.f64_back v f read))
  validate_field_twice (real_bounded min max) v n done =
      bounded_twice min max v n (json.as_f64 v) refl done
  validate_field_twice boolean v n done =
      let (b, read, made) = map_some_from json.of_bool (json.as_bool v) done in
      subst (λ x. map_some json.of_bool (json.as_bool x) ≡ some x) made
        (ap (map_some json.of_bool) (laws.bool_back b))
  validate_field_twice (one_of variants) v n done = variant_twice variants (json.as_str v) n done
  validate_field_twice (level variants) v n done = variant_twice variants (json.as_str v) n done
  validate_field_twice (list inner) v n done =
      let keep : List json.Value → json.Value =
        λ items. json.of_array (filter_map (validate_field json inner) items) in
      let (items, read, made) = map_some_from keep (json.as_array v) done in
      subst (λ x. map_some keep (json.as_array x) ≡ some x) made
        (ap (map_some keep) (laws.array_back (filter_map (validate_field json inner) items))
          ∙ ap (λ vs. some (json.of_array vs))
              (filter_map_twice (validate_field json inner) (validate_field_twice inner) items))
  validate_field_twice (nested name) v n done = absurd (some_is_none (sym done))

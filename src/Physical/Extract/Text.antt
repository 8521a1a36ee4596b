-- ===== src/Physical/Extract/Text.antt =====
-- src/physical/extract.rs: the normalized values that survive as the text of a cache entry.
use semcast.Base.{
  ◌≡◌, sym, subst, Bool, true, false, inl, inr, Option, none, some, List, [], ◌∷◌, All,
  some_is_none, true_is_false, Option-cases,
}
use semcast.Base.Text.{Chars}
use semcast.Types.{
  FieldType, FieldSpec, text, int, real, real_bounded, boolean, one_of, level, list, nested,
}
use semcast.Physical.Extract.{
  Json, TextLaws, Leaf, Reads, Scalars, Extractor, filter_map, find_variant, variant,
  validate_field, validated, decode,
}
use semcast.Physical.Extract.Normal.{map_some_from}

-- The types without floats, and lists of them.
abbrev pub plain : FieldType → Bool
plain real = false
plain (real_bounded min max) = false
plain (list inner) = false
plain (nested name) = false
plain _ = true

abbrev pub exact : FieldType → Bool
exact (list inner) = plain inner
exact ty = plain ty

module _ (json : Json) where
  variant-Leaf :
      (variants : List Chars) (o : Option Chars) (w : json.Value)
      → variant json variants o ≡ some w
      → Leaf json w
  variant-Leaf variants none w done = absurd (some_is_none (sym done))
  variant-Leaf variants (some got) w done =
      let (s, found, made) = map_some_from json.of_str (find_variant got variants) done in
      inl (s, sym made)

  validate_field-Leaf :
      (ty : FieldType) (v w : json.Value)
      → plain ty ≡ true
      → validate_field json ty v ≡ some w
      → Leaf json w
  unfolding validate_field
  validate_field-Leaf text v w p done =
      let (s, found, made) = map_some_from json.of_str (json.as_str v) done in inl (s, sym made)
  validate_field-Leaf int v w p done =
      let (n, found, made) = map_some_from json.of_i64 (json.as_i64 v) done in
      inr (inl (n, sym made))
  validate_field-Leaf boolean v w p done =
      let (b, found, made) = map_some_from json.of_bool (json.as_bool v) done in
      inr (inr (b, sym made))
  validate_field-Leaf (one_of variants) v w p done = variant-Leaf variants (json.as_str v) w done
  validate_field-Leaf (level variants) v w p done = variant-Leaf variants (json.as_str v) w done
  validate_field-Leaf real v w p done = absurd (true_is_false (sym p))
  validate_field-Leaf (real_bounded min max) v w p done = absurd (true_is_false (sym p))
  validate_field-Leaf (list inner) v w p done = absurd (true_is_false (sym p))
  validate_field-Leaf (nested name) v w p done = absurd (true_is_false (sym p))

  items-Leaf :
      (inner : FieldType) (items : List json.Value)
      → plain inner ≡ true
      → All (Leaf json) (filter_map (validate_field json inner) items)
  items-Leaf inner [] p = tt
  items-Leaf inner (v ∷ items) p = elim (Option-cases (validate_field json inner v)) [
    | inl e ↦ rw e (items-Leaf inner items p)
    | inr (w, e) ↦ rw e (validate_field-Leaf inner v w p e, items-Leaf inner items p)
  ]

  module _ (laws : TextLaws json) where
    -- A valid value of an exact type is read back from its text.
    validate_field-Reads :
        (ty : FieldType) (v w : json.Value)
        → exact ty ≡ true
        → validate_field json ty v ≡ some w
        → Reads json w
    unfolding validate_field
    validate_field-Reads (list inner) v w p done =
        let (items, found, made) =
          map_some_from (λ vs. json.of_array (filter_map (validate_field json inner) vs))
            (json.as_array v) done in
        subst (Reads json) made (laws.array_text _ (items-Leaf inner items p))
    validate_field-Reads text v w p done = laws.leaf_text w (validate_field-Leaf text v w p done)
    validate_field-Reads int v w p done = laws.leaf_text w (validate_field-Leaf int v w p done)
    validate_field-Reads boolean v w p done =
        laws.leaf_text w (validate_field-Leaf boolean v w p done)
    validate_field-Reads (one_of variants) v w p done =
        laws.leaf_text w (validate_field-Leaf (one_of variants) v w p done)
    validate_field-Reads (level variants) v w p done =
        laws.leaf_text w (validate_field-Leaf (level variants) v w p done)
    validate_field-Reads real v w p done = absurd (true_is_false (sym p))
    validate_field-Reads (real_bounded min max) v w p done = absurd (true_is_false (sym p))
    validate_field-Reads (nested name) v w p done = absurd (true_is_false (sym p))

    module _ (scalars : Scalars json.I64) (e : Extractor) where
      validated-Reads :
          (ty : FieldType) (o : Option json.Value) (w : json.Value)
          → exact ty ≡ true
          → validated json scalars e ty o ≡ some w
          → Reads json w
      validated-Reads ty none w p done = absurd (some_is_none (sym done))
      validated-Reads ty (some v) w p done = validate_field-Reads ty v w p done

      pub decode-Reads :
          (object : Chars → Option json.Value) (fields : List FieldSpec)
          → All (λ (f : FieldSpec). exact f.ty ≡ true) fields
          → All
              (λ (m : FieldSpec × json.Value). Reads json m.1)
              (decode json scalars e object fields).0
      unfolding decode
      decode-Reads object [] h = tt
      decode-Reads object (f ∷ fields) h =
          let rest = decode-Reads object fields h.1 in
          elim (Option-cases (validated json scalars e f.ty (object f.name))) [
            | inl q ↦ rw q rest
            | inr (w, q) ↦ rw q (validated-Reads f.ty (object f.name) w h.0 q, rest)
          ]

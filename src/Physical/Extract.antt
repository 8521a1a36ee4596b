-- ===== src/Physical/Extract.antt =====
-- src/physical/extract.rs: the values of an extraction, from the model's JSON object and from the
-- cache. serde_json and Arrow's scalars are records of functions, with serde_json's documented
-- behaviour as a record of laws; the digests are parameters.
pub mod Normal
pub mod Text
pub mod Unit
use semcast.Base.{
  ◌⊎◌, All, ℕ, suc, ◌≡◌, Bool, true, false, ◌&&◌, Option, none, some, List, [], ◌∷◌, ◌++◌, map,
  if◌then◌else◌, ◌==◌,
}
use semcast.Base.Text.{Chars, codes}
use semcast.Model.{Result, ok, err}
use semcast.Cache.{CacheKey, CachedValue, value, error, Entries, get, put_many}
use semcast.Sql.{eq_ignore_ascii_case}
use semcast.Types.{
  FieldType, FieldSpec, OrderedF64, DataType, text, int, real, real_bounded, boolean, one_of, level,
  list, nested, utf8, decoded, unit_hash,
}

-- What the operator uses of `serde_json::Value` and of f64.
pub record Json : Type 1 where
  pub Value : Type 0
  pub I64 : Type 0
  pub as_str : Value → Option Chars
  pub as_i64 : Value → Option I64
  pub as_f64 : Value → Option OrderedF64
  pub as_bool : Value → Option Bool
  pub as_array : Value → Option (List Value)
  pub of_str : Chars → Value
  pub of_i64 : I64 → Value
  pub of_f64 : OrderedF64 → Value
  pub of_bool : Bool → Value
  pub of_array : List Value → Value
  pub ge : OrderedF64 → OrderedF64 → Bool
  pub to_string : Value → Chars
  pub from_str : Chars → Option Value

-- A value that is made of something is read back as it; a float that was read is finite.
pub record JsonLaws (json : Json) : Type 0 where
  pub str_back : (s : Chars) → json.as_str (json.of_str s) ≡ some s
  pub i64_back : (n : json.I64) → json.as_i64 (json.of_i64 n) ≡ some n
  pub f64_back :
      (v : json.Value) (f : OrderedF64)
      → json.as_f64 v ≡ some f
      → json.as_f64 (json.of_f64 f) ≡ some f
  pub bool_back : (b : Bool) → json.as_bool (json.of_bool b) ≡ some b
  pub array_back : (vs : List json.Value) → json.as_array (json.of_array vs) ≡ some vs

-- What serde_json reads back from the text that it writes: strings, integers, truth values, and arrays
-- of these. Nothing is said of floats, which it reads back exactly only with `float_roundtrip`.
abbrev pub Reads : (json : Json) → json.Value → Type 0
Reads json v = json.from_str (json.to_string v) ≡ some v

abbrev pub Leaf : (json : Json) → json.Value → Type 0
Leaf json v =
    ((s : Chars) × (v ≡ json.of_str s))
    ⊎ ((n : json.I64) × (v ≡ json.of_i64 n))
    ⊎ ((b : Bool) × (v ≡ json.of_bool b))

pub record TextLaws (json : Json) : Type 0 where
  pub leaf_text : (v : json.Value) → Leaf json v → Reads json v
  pub array_text : (vs : List json.Value) → All (Leaf json) vs → Reads json (json.of_array vs)

-- What the operator uses of Arrow's `ScalarValue`.
pub record Scalars (I64 : Type 0) : Type 1 where
  pub Scalar : Type 0
  pub utf8_of : Option Chars → Scalar
  pub int64_of : Option I64 → Scalar
  pub float64_of : Option OrderedF64 → Scalar
  pub boolean_of : Option Bool → Scalar
  pub list_of : List Scalar → DataType → Scalar
  pub null : Scalar

-- `Option::map` and `Iterator::filter_map`.
abbrev pub map_some {ℓ κ} : {A : Type ℓ} {B : Type κ} → (A → B) → Option A → Option B
map_some f none = none
map_some f (some a) = some (f a)

abbrev pub add_some {ℓ} : {A : Type ℓ} → Option A → List A → List A
add_some none xs = xs
add_some (some a) xs = a ∷ xs

abbrev pub filter_map {ℓ κ} : {A : Type ℓ} {B : Type κ} → (A → Option B) → List A → List B
filter_map f [] = []
filter_map f (x ∷ xs) = add_some (f x) (filter_map f xs)

-- The first variant that equals a text but for case.
unfoldable pub find_variant : Chars → List Chars → Option Chars
find_variant got [] = none
find_variant got (v ∷ variants) =
    if eq_ignore_ascii_case v got then some v else find_variant got variants

module _ (json : Json) where
  abbrev pub within : OrderedF64 → OrderedF64 → OrderedF64 → Option json.Value
  within min max f = if json.ge f min && json.ge max f then some (json.of_f64 f) else none

  abbrev pub variant : List Chars → Option Chars → Option json.Value
  variant variants none = none
  variant variants (some got) = map_some json.of_str (find_variant got variants)

  abbrev pub bounded : OrderedF64 → OrderedF64 → Option OrderedF64 → Option json.Value
  bounded min max none = none
  bounded min max (some f) = within min max f

  -- The normalized value, or none if it does not fit.
  unfoldable pub validate_field : FieldType → json.Value → Option json.Value
  validate_field text v = map_some json.of_str (json.as_str v)
  validate_field int v = map_some json.of_i64 (json.as_i64 v)
  validate_field real v = map_some json.of_f64 (json.as_f64 v)
  validate_field (real_bounded min max) v = bounded min max (json.as_f64 v)
  validate_field boolean v = map_some json.of_bool (json.as_bool v)
  validate_field (one_of variants) v = variant variants (json.as_str v)
  validate_field (level variants) v = variant variants (json.as_str v)
  validate_field (list inner) v =
      map_some (λ items. json.of_array (filter_map (validate_field inner) items)) (json.as_array v)
  validate_field (nested name) v = none

abbrev pub extract_prompt_version : Chars
extract_prompt_version = codes "extract-v1"

-- The operator, with what it reads of its surroundings: the type's name, the display of floats, the
-- digests of a unit and of a text, and hexadecimal digits.
pub record Extractor : Type 0 where
  pub target_name : Chars
  pub model_id : Chars
  pub show : OrderedF64 → Chars
  pub stable_digest : List Chars → ℕ
  pub hex : ℕ → Chars

unfoldable pub cache_key : Extractor → List FieldSpec → Chars → Chars → CacheKey
unfolding unit_hash
cache_key e unit field source = record {
  type_version = e.target_name ++ codes "@" ++ e.hex (unit_hash e.show e.stable_digest unit);
  field = field;
  input_digest = e.stable_digest (source ∷ []);
  model_id = e.model_id;
  prompt_version = extract_prompt_version;
}

module _ (json : Json) (scalars : Scalars json.I64) where
  abbrev pub arrow_or_utf8 : Result DataType → DataType
  arrow_or_utf8 (ok t) = t
  arrow_or_utf8 (err message) = utf8

  -- The scalar of a normalized value.
  unfoldable pub scalar_from_normalized : FieldType → json.Value → scalars.Scalar
  unfolding decoded
  scalar_from_normalized text v = scalars.utf8_of (json.as_str v)
  scalar_from_normalized (one_of variants) v = scalars.utf8_of (json.as_str v)
  scalar_from_normalized (level variants) v = scalars.utf8_of (json.as_str v)
  scalar_from_normalized int v = scalars.int64_of (json.as_i64 v)
  scalar_from_normalized real v = scalars.float64_of (json.as_f64 v)
  scalar_from_normalized (real_bounded min max) v = scalars.float64_of (json.as_f64 v)
  scalar_from_normalized boolean v = scalars.boolean_of (json.as_bool v)
  scalar_from_normalized (list inner) v =
      let item : json.Value → scalars.Scalar = scalar_from_normalized inner in
      elim (json.as_array v) [
        | some items ↦ scalars.list_of (map item items) (arrow_or_utf8 (decoded inner))
        | none ↦ scalars.null
      ]
  scalar_from_normalized (nested name) v = scalars.null

  -- A cached text, read and converted.
  abbrev pub read_raw : FieldType → Option CachedValue → Option scalars.Scalar
  read_raw ty (some (value raw)) = map_some (scalar_from_normalized ty) (json.from_str raw)
  read_raw ty _ = none

  abbrev pub hit :
      Chars
      → Option scalars.Scalar
      → Option (List (Chars × scalars.Scalar))
      → Option (List (Chars × scalars.Scalar))
  hit name (some scalar) (some hits) = some ((name, scalar) ∷ hits)
  hit name _ _ = none

  -- What a unit's call wrote, the cache after it, and the counter's increase.
  pub record Applied : Type 0 where
    pub values : List (Chars × scalars.Scalar)
    pub cache : Entries
    pub fields_failed : ℕ

  module _ (e : Extractor) where
    -- The members that are left of a unit: all of them must hit.
    unfoldable pub read_members :
        Entries → List FieldSpec → Chars → List FieldSpec → Option (List (Chars × scalars.Scalar))
    unfolding cache_key get
    read_members cache unit source [] = some []
    read_members cache unit source (spec ∷ specs) =
        hit spec.name (read_raw spec.ty (get (cache_key e unit spec.name source) cache))
          (read_members cache unit source specs)

    unfoldable pub read_unit :
        Entries → List FieldSpec → Chars → Option (List (Chars × scalars.Scalar))
    unfolding read_members
    read_unit cache unit source = read_members cache unit source unit

    -- A member that is validated, or counted as failed.
    abbrev pub add_decoded :
        FieldSpec
        → Option json.Value
        → List (FieldSpec × json.Value) × ℕ
        → List (FieldSpec × json.Value) × ℕ
    add_decoded spec (some normalized) rest = ((spec, normalized) ∷ rest.0, rest.1)
    add_decoded spec none rest = (rest.0, suc rest.1)

    abbrev pub validated : FieldType → Option json.Value → Option json.Value
    validated ty none = none
    validated ty (some v) = validate_field json ty v

    unfoldable pub decode :
        (Chars → Option json.Value) → List FieldSpec → List (FieldSpec × json.Value) × ℕ
    unfolding validate_field
    decode object [] = ([], 0)
    decode object (spec ∷ specs) =
        add_decoded spec (validated spec.ty (object spec.name)) (decode object specs)

    abbrev pub cache_entry :
        List FieldSpec → Chars → FieldSpec × json.Value → CacheKey × CachedValue
    cache_entry unit source member =
        (cache_key e unit member.0.name source, value (json.to_string member.1))

    abbrev pub written_value : FieldSpec × json.Value → Chars × scalars.Scalar
    written_value member = (member.0.name, scalar_from_normalized member.0.ty member.1)

    unfoldable pub apply_unit :
        List FieldSpec → (Chars → Option json.Value) → Chars → Entries → Applied
    unfolding decode cache_key put_many
    apply_unit unit object source cache =
        let (members, failed) = decode object unit in
        record {
          values = map written_value members;
          cache =
              if failed == 0 then put_many (map (cache_entry unit source) members) cache else cache;
          fields_failed = failed;
        }

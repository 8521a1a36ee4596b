-- ===== src/Physical/Tests/Extraction.antt =====
-- An extraction over concrete values.
use semcast.Base.{
  ℕ, ◌≡◌, ◌≢◌, ◌⊎◌, refl, ap, Bool, true, false, Option, none, some, List, [], ◌∷◌, length, leb,
  true_is_false,
}
use semcast.Base.Text.{Chars, codes}
use semcast.Types.{FieldType, FieldSpec, OrderedF64, text, one_of, list}
use semcast.Physical.Extract.{
  Json, JsonLaws, TextLaws, Scalars, Extractor, validate_field, find_variant, read_unit, apply_unit,
}
use semcast.Physical.Extract.Normal.{validate_field_twice}
use semcast.Physical.Extract.Unit.{apply_unit-read_unit}

mutual
  data J : Type 0 where
    str : Chars → J
    num : ℕ → J
    float : OrderedF64 → J
    flag : Bool → J
    arr : Js → J

  data Js : Type 0 where
    done : Js
    item : J → Js → Js

abbrev to_list : Js → List J
to_list done = []
to_list (item v vs) = v ∷ to_list vs

abbrev of_list : List J → Js
of_list [] = done
of_list (v ∷ vs) = item v (of_list vs)

abbrev str_of : J → Option Chars
str_of (str s) = some s
str_of _ = none

abbrev as_num : J → Option ℕ
as_num (num n) = some n
as_num _ = none

abbrev as_float : J → Option OrderedF64
as_float (float f) = some f
as_float _ = none

abbrev as_flag : J → Option Bool
as_flag (flag b) = some b
as_flag _ = none

abbrev as_arr : J → Option (List J)
as_arr (arr vs) = some (to_list vs)
as_arr _ = none

abbrev trees : Json
trees = record {
  Value = J;
  I64 = ℕ;
  as_str = str_of;
  as_i64 = as_num;
  as_f64 = as_float;
  as_bool = as_flag;
  as_array = as_arr;
  of_str = str;
  of_i64 = num;
  of_f64 = float;
  of_bool = flag;
  of_array = λ vs. arr (of_list vs);
  ge = λ a b. leb b.bits a.bits;
  to_string = λ v. [];
  from_str = λ s. none;
}

to_list-of_list : (vs : List J) → to_list (of_list vs) ≡ vs
to_list-of_list [] = refl
to_list-of_list (v ∷ vs) = ap (λ r. v ∷ r) (to_list-of_list vs)

abbrev trees_laws : JsonLaws trees
trees_laws = record {
  str_back = λ s. refl;
  i64_back = λ n. refl;
  f64_back = λ v f read. refl;
  bool_back = λ b. refl;
  array_back = λ vs. ap some (to_list-of_list vs);
}

abbrev stages : FieldType
stages = list (one_of (codes "idea" ∷ codes "shipped" ∷ []))

abbrev raw : J
raw = arr (item (str (codes "Shipped")) (item (num 3) done))

abbrev folded : J
folded = arr (item (str (codes "shipped")) done)

raw-folded : validate_field trees stages raw ≡ some folded
unfolding validate_field find_variant
raw-folded = refl

validate_field_twice_example : validate_field trees stages folded ≡ some folded
validate_field_twice_example = validate_field_twice trees trees_laws stages raw folded raw-folded

-- Values that are their own text.
abbrev texts : Json
texts = record {
  Value = Chars;
  I64 = ℕ;
  as_str = some;
  as_i64 = λ v. none;
  as_f64 = λ v. none;
  as_bool = λ v. none;
  as_array = λ v. none;
  of_str = λ s. s;
  of_i64 = λ n. [];
  of_f64 = λ f. [];
  of_bool = λ b. [];
  of_array = λ vs. [];
  ge = λ a b. true;
  to_string = λ v. v;
  from_str = some;
}

abbrev texts_laws : TextLaws texts
texts_laws = record { leaf_text = λ v h. refl; array_text = λ vs h. refl }

abbrev columns : Scalars ℕ
columns = record {
  Scalar = Option Chars;
  utf8_of = λ s. s;
  int64_of = λ n. none;
  float64_of = λ f. none;
  boolean_of = λ b. none;
  list_of = λ vs t. none;
  null = none;
}

abbrev extractor : Extractor
extractor = record {
  target_name = codes "Facts";
  model_id = codes "model";
  show = λ x. [];
  stable_digest = length;
  hex = λ n. n ∷ [];
}

abbrev field_of : Chars → FieldSpec
field_of name = record { name = name; ty = text; doc = codes "a fact" }

abbrev unit : List FieldSpec
unit = field_of (codes "a") ∷ field_of (codes "b") ∷ []

abbrev object : Chars → Option Chars
object name = some (codes "found")

abbrev starts_with_a : Chars → Bool
starts_with_a [] = false
starts_with_a (c ∷ cs) = leb c 97

a_is_b : codes "a" ≢ codes "b"
a_is_b same = true_is_false (ap starts_with_a same)

apply_unit-read_unit_example :
    ((apply_unit texts columns extractor unit object (codes "doc") []).fields_failed ≢ 0)
      × ((apply_unit texts columns extractor unit object (codes "doc") []).cache ≡ [])
    ⊎ (((apply_unit texts columns extractor unit object (codes "doc") []).fields_failed ≡ 0)
        × (read_unit texts columns extractor
              (apply_unit texts columns extractor unit object (codes "doc") []).cache
              unit
              (codes "doc")
            ≡ some (apply_unit texts columns extractor unit object (codes "doc") []).values))
apply_unit-read_unit_example =
    apply_unit-read_unit texts texts_laws columns extractor unit (codes "doc") object []
      ((a_is_b, tt), (tt, tt)) (refl, (refl, tt))

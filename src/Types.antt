-- ===== src/Types.antt =====
-- src/types/mod.rs: the semantic types, what is asked of the model for one, and which of its fields
-- are generated together. Floats are their bits; how one is displayed, and the digest, are parameters.
pub mod Pruned
pub mod Registry
pub mod Sets
pub mod Units
mod Tests
use semcast.Base.{
  ℕ, Bool, true, false, not, ◌||◌, Option, none, some, List, [], ◌∷◌, ◌++◌, map, keep_if,
  if◌then◌else◌,
}
use semcast.Base.Text.{Chars, codes, join}
use semcast.Base.Assoc.{chars_beq}
use semcast.Model.{Result, ok, err, and_then}

pub record OrderedF64 : Type 0 where
  pub bits : ℕ

pub data FieldType : Type 0 where
  text : FieldType
  int : FieldType
  real : FieldType
  real_bounded : OrderedF64 → OrderedF64 → FieldType
  boolean : FieldType
  one_of : List Chars → FieldType
  level : List Chars → FieldType
  list : FieldType → FieldType
  nested : Chars → FieldType

pub record FieldSpec : Type 0 where
  pub name : Chars
  pub ty : FieldType
  pub doc : Chars

pub record SemanticType : Type 0 where
  pub name : Chars
  pub version : Chars
  pub fields : List FieldSpec
  pub together : List (List Chars)

-- What of Arrow's types the fields decode into.
pub data DataType : Type 0 where
  utf8 : DataType
  int64 : DataType
  float64 : DataType
  boolean : DataType
  list : DataType → DataType

-- A set of names; only whether it holds a name is read.
unfoldable pub contains : Chars → List Chars → Bool
contains name [] = false
contains name (n ∷ names) = chars_beq n name || contains name names

unfoldable pub any : (Chars → Bool) → List Chars → Bool
any p [] = false
any p (n ∷ names) = p n || any p names

unfoldable pub find_field : Chars → List FieldSpec → Option FieldSpec
find_field name [] = none
find_field name (f ∷ fields) = if chars_beq f.name name then some f else find_field name fields

unfoldable pub field : Chars → SemanticType → Result FieldSpec
unfolding find_field
field name ty = elim (find_field name ty.fields) [
  | some f ↦ ok f
  | none ↦ err (codes "semantic type " ++ ty.name ++ codes " has no field " ++ name)
]

-- The loop over the names that are asked for: each is a field.
unfoldable pub check_fields : List Chars → SemanticType → Result {0} Unit
unfolding field
check_fields [] ty = ok tt
check_fields (name ∷ names) ty = and_then (field name ty) (λ f. check_fields names ty)

unfoldable pub select : List Chars → SemanticType → Result (List FieldSpec)
unfolding check_fields contains
select names ty =
    and_then (check_fields names ty) (λ u. ok (keep_if (λ f. contains f.name names) ty.fields))

unfoldable pub find_group : Chars → List (List Chars) → Option (List Chars)
unfolding contains
find_group name [] = none
find_group name (g ∷ groups) = if contains name g then some g else find_group name groups

unfoldable pub group_of : Chars → SemanticType → Option (List Chars)
unfolding find_group
group_of name ty = find_group name ty.together

abbrev pub names_of : List FieldSpec → List Chars
names_of fields = map (λ (f : FieldSpec). f.name) fields

-- The fields of a group, in the order in which they are declared.
unfoldable pub group_members : List Chars → List FieldSpec → List FieldSpec
unfolding contains
group_members group fields = keep_if (λ f. contains f.name group) fields

-- The loop over the fields that are left, with the names that are in a unit.
unfoldable pub units_from : SemanticType → List FieldSpec → List Chars → List (List FieldSpec)
unfolding group_of group_members
units_from ty [] seen = []
units_from ty (spec ∷ specs) seen =
    let skipped = units_from ty specs seen in
    let alone = units_from ty specs (spec.name ∷ seen) in
    if contains spec.name seen then skipped else elim (group_of spec.name ty) [
      | some group ↦
          let unit = group_members group ty.fields in
          unit ∷ units_from ty specs (names_of unit ++ seen)
      | none ↦ (spec ∷ []) ∷ alone
    ]

unfoldable pub generation_units : SemanticType → List (List FieldSpec)
unfolding units_from
generation_units ty = units_from ty ty.fields []

-- The names to keep after the loop over the groups.
unfoldable pub close_over : List (List Chars) → List Chars → List Chars
unfolding contains any
close_over [] keep = keep
close_over (group ∷ groups) keep =
    let pulled = close_over groups (group ++ keep) in
    let passed = close_over groups keep in
    if any (λ m. contains m keep) group then pulled else passed

-- The fields and the groups with a name to keep.
unfoldable pub restrict : List Chars → SemanticType → SemanticType
unfolding contains any
restrict keep ty = record ty {
  fields = keep_if (λ f. contains f.name keep) ty.fields;
  together = keep_if (λ g. any (λ m. contains m keep) g) ty.together;
}

unfoldable pub pruned : List Chars → SemanticType → Result SemanticType
unfolding check_fields close_over restrict
pruned names ty =
    and_then (check_fields names ty) (λ u. ok (restrict (close_over ty.together names) ty))

abbrev pub nested_error : Chars → Chars
nested_error name = codes "nested semantic type " ++ name ++ codes " is not implemented yet"

-- `FieldType::arrow_type`.
unfoldable pub decoded : FieldType → Result DataType
decoded text = ok utf8
decoded (one_of variants) = ok utf8
decoded (level variants) = ok utf8
decoded int = ok int64
decoded real = ok float64
decoded (real_bounded min max) = ok float64
decoded boolean = ok boolean
decoded (list inner) = and_then (decoded inner) (λ t. ok (list t))
decoded (nested name) = err (nested_error name)

unfoldable pub arrow_type : Chars → SemanticType → Result DataType
unfolding field decoded
arrow_type name ty = and_then (field name ty) (λ f. decoded f.ty)

module _ (show : OrderedF64 → Chars) where
  unfoldable pub describe : FieldType → Chars
  unfolding join
  describe text = codes "free-form text"
  describe int = codes "an integer"
  describe real = codes "a number"
  describe (real_bounded min max) =
      codes "a number between " ++ show min ++ codes " and " ++ show max
  describe boolean = codes "true or false"
  describe (one_of variants) = codes "one of: " ++ join (codes ", ") variants
  describe (level variants) =
      codes "one of these levels, ordered low to high: " ++ join (codes ", ") variants
  describe (list inner) = codes "a list where each item is " ++ describe inner
  describe (nested name) = codes "a nested " ++ name ++ codes " object"

  -- `Display`.
  unfoldable pub fmt : FieldType → Chars
  unfolding join
  fmt text = codes "TEXT"
  fmt int = codes "INT"
  fmt real = codes "REAL"
  fmt (real_bounded min max) =
      codes "REAL CHECK (" ++ show min ++ codes ".." ++ show max ++ codes ")"
  fmt boolean = codes "BOOL"
  fmt (one_of variants) = codes "ONEOF(" ++ join (codes ",") variants ++ codes ")"
  fmt (level variants) = codes "LEVEL(" ++ join (codes ",") variants ++ codes ")"
  fmt (list inner) = fmt inner ++ codes "[]"
  fmt (nested name) = name

  unfoldable pub prompt_lines : List FieldSpec → Chars
  unfolding describe
  prompt_lines [] = []
  prompt_lines (f ∷ specs) =
      10 ∷ codes "- "
      ++ f.name
      ++ codes " ("
      ++ describe f.ty
      ++ codes "): "
      ++ f.doc
      ++ prompt_lines specs

  unfoldable pub synthesize_prompt : List Chars → SemanticType → Result Chars
  unfolding select prompt_lines
  synthesize_prompt names ty = and_then (select names ty) (λ specs. ok (
      codes "You extract structured facts from a document. Return a single JSON "
      ++ codes "object with exactly these keys, and nothing else. Base every value "
      ++ codes "only on the document; if a fact is not present, use null."
      ++ (10 ∷ [])
      ++ prompt_lines specs))

  unfoldable pub rendered : List FieldSpec → List Chars
  unfolding fmt
  rendered [] = []
  rendered (f ∷ specs) = f.name ∷ fmt f.ty ∷ f.doc ∷ rendered specs

  unfoldable pub unit_hash : (List Chars → ℕ) → List FieldSpec → ℕ
  unfolding rendered
  unit_hash digest specs = digest (rendered specs)

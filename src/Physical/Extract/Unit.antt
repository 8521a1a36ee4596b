-- ===== src/Physical/Extract/Unit.antt =====
-- src/physical/extract.rs: a unit in the cache, whole or not at all.
use semcast.Base.{
  true, ◌≡◌, ◌≢◌, ◌⊎◌, true_is_false, refl, sym, ap, ◌∙◌, subst, Option, some, List, [], ◌∷◌, map,
  if◌then◌else◌, All, Bool-cases, Option-cases, inl, inr, ◌==◌, arith, ==_iff,
}
use semcast.Base.Text.{Chars}
use semcast.Base.Assoc.{lookup-insert_self, lookup-insert_ne}
use semcast.Cache.{CacheKey, CachedValue, value, Entries, key_eq, get, put, put_many}
use semcast.Types.{FieldSpec}
use semcast.Physical.Extract.{
  Json, TextLaws, Reads, Scalars, Extractor, map_some, cache_key, scalar_from_normalized, read_raw,
  hit, read_members, read_unit, validated, decode, cache_entry, written_value, apply_unit,
}
use semcast.Physical.Extract.Text.{exact, decode-Reads}

-- No two of the fields have one name.
abbrev pub Distinct : List FieldSpec → Type 0
Distinct [] = Unit
Distinct (f ∷ fields) = All (λ (g : FieldSpec). f.name ≢ g.name) fields × Distinct fields

cache_key-field :
    (e : Extractor) (unit : List FieldSpec) (a b source : Chars)
    → a ≢ b
    → cache_key e unit a source ≢ cache_key e unit b source
unfolding cache_key
cache_key-field e unit a b source apart same = apart (ap (λ (k : CacheKey). k.field) same)

module _ (json : Json) (laws : TextLaws json) (scalars : Scalars json.I64) (e : Extractor)
    (unit : List FieldSpec) (source : Chars) where
  abbrev Members : Type 0
  Members = List (FieldSpec × json.Value)

  abbrev fields_of : Members → List FieldSpec
  fields_of members = map (λ (m : FieldSpec × json.Value). m.0) members

  -- A verdict stays under the puts of other fields.
  put_many-kept :
      (name : Chars) (v : CachedValue) (members : Members) (cache : Entries)
      → All (λ (g : FieldSpec). name ≢ g.name) (fields_of members)
      → get (cache_key e unit name source) cache ≡ some v
      → get
          (cache_key e unit name source)
          (put_many (map (cache_entry json scalars e unit source) members) cache)
        ≡ some v
  unfolding get put put_many
  put_many-kept name v [] cache apart held = held
  put_many-kept name v (m ∷ members) cache apart held =
      put_many-kept name v members
        (put (cache_key e unit m.0.name source) (value (json.to_string m.1)) cache) apart.1
        (lookup-insert_ne _ _ _ cache
            (λ q. cache_key-field e unit name m.0.name source apart.0 (sym q))
          ∙ held)

  read_members-put_many :
      (members : Members) (cache : Entries)
      → Distinct (fields_of members)
      → All (λ (m : FieldSpec × json.Value). Reads json m.1) members
      → read_members json scalars e
          (put_many (map (cache_entry json scalars e unit source) members) cache)
          unit
          source
          (fields_of members)
        ≡ some (map (written_value json scalars e) members)
  unfolding read_members put_many put get
  read_members-put_many [] cache distinct reads = refl
  read_members-put_many (m ∷ members) cache distinct reads =
      let name = m.0.name in
      let next = put (cache_key e unit name source) (value (json.to_string m.1)) cache in
      let found =
        put_many-kept name (value (json.to_string m.1)) members next distinct.0
          (lookup-insert_self (cache_key e unit name source) (value (json.to_string m.1)) cache) in
      let rest = read_members-put_many members next distinct.1 reads.1 in
      ap
        (λ o. hit json scalars name (read_raw json scalars m.0.ty o) (
          read_members json scalars e
            (put_many (map (cache_entry json scalars e unit source) members) next) unit source
            (fields_of members)))
        found
      ∙ ap
          (λ o. hit json scalars name (map_some (scalar_from_normalized json scalars m.0.ty) o) (
            read_members json scalars e
              (put_many (map (cache_entry json scalars e unit source) members) next) unit source
              (fields_of members)))
          reads.0
      ∙ ap (hit json scalars name (some (scalar_from_normalized json scalars m.0.ty m.1))) rest

  decoded_fields :
      (object : Chars → Option json.Value) (fields : List FieldSpec)
      → (decode json scalars e object fields).1 ≡ 0
      → fields_of (decode json scalars e object fields).0 ≡ fields
  unfolding decode
  decoded_fields object [] = λ none_failed. refl
  decoded_fields object (f ∷ fields) =
      elim (Option-cases (validated json scalars e f.ty (object f.name))) [
        | inl q ↦ rw q (λ none_failed. absurd (ground (arith, none_failed)))
        | inr (v, q) ↦
            rw q (λ none_failed. ap (λ r. f ∷ r) (decoded_fields object fields none_failed))
      ]

  -- If a member of a unit fails, the cache is left as it was; if none does, the unit is read back from
  -- the in-memory cache whole, with the values that were written, also over those of an earlier call.
  -- No two fields have one name, and none is of a float type, whose text is not read back exactly.
  pub apply_unit-read_unit :
      (object : Chars → Option json.Value) (cache : Entries)
      → Distinct unit
      → All (λ (f : FieldSpec). exact f.ty ≡ true) unit
      → (let after = apply_unit json scalars e unit object source cache in
          ((after.fields_failed ≢ 0) × (after.cache ≡ cache))
          ⊎ ((after.fields_failed ≡ 0)
              × (read_unit json scalars e after.cache unit source ≡ some after.values)))
  unfolding apply_unit read_unit
  apply_unit-read_unit object cache distinct exacts =
      let (members, failed) = decode json scalars e object unit in
      elim (Bool-cases (failed == 0)) [
        | inr q ↦ inl (
          λ z. true_is_false (sym ((==_iff failed 0).1 z) ∙ q),
          ap
              (λ b.
                if b
                then put_many (map (cache_entry json scalars e unit source) members) cache
                else cache)
              q,
        )
        | inl q ↦
            let zero_failed = (==_iff failed 0).0 q in
            let same = decoded_fields object unit zero_failed in
            inr (
              zero_failed,
              ap
                    (λ b.
                      read_members json scalars e
                        (if b
                          then put_many (map (cache_entry json scalars e unit source) members) cache
                          else cache)
                        unit source unit)
                    q
                  ∙ ap
                      (λ fields.
                        read_members json scalars e
                          (put_many (map (cache_entry json scalars e unit source) members) cache)
                          unit source fields)
                      (sym same)
                  ∙ read_members-put_many members cache (subst Distinct (sym same) distinct)
                      (decode-Reads json laws scalars e object unit exacts),
            )
      ]

-- ===== src/Types/Tests.antt =====
-- A type with a group, and what is generated and pruned for it.
use semcast.Base.{◌||◌, ◌≡◌, ◌⊎◌, refl, true, List, [], ◌∷◌, All, keep_if, if◌then◌else◌}
use mathlib.Core.List.{Memᴰ}
use semcast.Base.Text.{Chars, codes}
use semcast.Model.{ok, err}
use semcast.Types.{
  FieldType, FieldSpec, SemanticType, OrderedF64, text, int, one_of, contains, names_of, pruned,
  restrict, close_over, any, generation_units, check_fields, field, find_field, synthesize_prompt,
  select, units_from, group_of, find_group, group_members,
}
use semcast.Types.Sets.{Apart, SharesNone}
use semcast.Types.Units.{times, generation_units_once}
use semcast.Types.Pruned.{IsField, FirstUnknown, no_field, pruned_errors}
use semcast.Types.Pruned.Closed.{pulled, pruned_closed}
use semcast.Types.Pruned.Pushdown.{pruned-generation_units}

abbrev spec : Chars → FieldType → FieldSpec
spec name ty = record { name = name; ty = ty; doc = codes "a fact" }

abbrev stage : List Chars
stage = codes "stage" ∷ codes "quote" ∷ []

abbrev facts : SemanticType
facts = record {
  name = codes "Facts";
  version = codes "v1";
  fields =
      spec (codes "stage") (one_of (codes "idea" ∷ codes "shipped" ∷ []))
      ∷ spec (codes "count") int
      ∷ spec (codes "quote") text
      ∷ [];
  together = stage ∷ [];
}

facts_Apart : Apart facts.together
unfolding Apart SharesNone
facts_Apart = (tt, tt)

generation_units_once_example :
    times (codes "quote") (generation_units facts)
    ≡ (if contains (codes "quote") (names_of facts.fields) then 1 else 0)
generation_units_once_example = generation_units_once facts (codes "quote") facts_Apart

abbrev pushed : SemanticType
pushed = record {
  name = codes "Facts";
  version = codes "v1";
  fields =
      spec (codes "stage") (one_of (codes "idea" ∷ codes "shipped" ∷ []))
      ∷ spec (codes "quote") text
      ∷ [];
  together = stage ∷ [];
}

facts-pruned : pruned (codes "quote" ∷ []) facts ≡ ok pushed
unfolding pruned restrict close_over check_fields field find_field contains any
facts-pruned = refl

pruned_closed_example :
    (pushed.fields
      ≡ keep_if
          (λ f.
            contains f.name (codes "quote" ∷ [])
            || pulled f.name facts.together (codes "quote" ∷ []))
          facts.fields)
    × All
        (λ n. contains n (names_of pushed.fields) ≡ contains n (names_of facts.fields))
        (codes "quote" ∷ [])
    × ((g : List Chars) (m k : Chars)
        → Memᴰ g facts.together
        → contains m g ≡ true
        → contains k g ≡ true
        → contains m (names_of pushed.fields) ≡ true
        → contains k (names_of pushed.fields) ≡ contains k (names_of facts.fields))
pruned_closed_example = pruned_closed (codes "quote" ∷ []) facts pushed facts_Apart facts-pruned

abbrev show : OrderedF64 → Chars
show x = x.bits ∷ []

abbrev asked : List Chars
asked = codes "count" ∷ codes "owner" ∷ []

pruned_errors_example :
    (All (IsField facts) asked
      × ((t : SemanticType) × (pruned asked facts ≡ ok t))
      × ((specs : List FieldSpec) × (select asked facts ≡ ok specs))
      × ((prompt : Chars) × (synthesize_prompt show asked facts ≡ ok prompt)))
    ⊎ ((n : Chars) × FirstUnknown facts asked n
        × (pruned asked facts ≡ err (no_field facts n))
        × (select asked facts ≡ err (no_field facts n))
        × (synthesize_prompt show asked facts ≡ err (no_field facts n)))
pruned_errors_example = pruned_errors show asked facts

pruned-generation_units_example :
    generation_units pushed
    ≡ keep_if
        (λ unit.
          any (λ m. contains m (close_over facts.together (codes "quote" ∷ []))) (names_of unit))
        (generation_units facts)
pruned-generation_units_example =
    pruned-generation_units (codes "quote" ∷ []) facts pushed facts_Apart facts-pruned

facts_units : generation_units facts ≡ pushed.fields ∷ (spec (codes "count") int ∷ []) ∷ []
unfolding generation_units units_from group_of find_group group_members contains
facts_units = refl

pushed_units : generation_units pushed ≡ pushed.fields ∷ []
unfolding generation_units units_from group_of find_group group_members contains
pushed_units = refl

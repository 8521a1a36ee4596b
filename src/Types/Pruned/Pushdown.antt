-- ===== src/Types/Pruned/Pushdown.antt =====
-- src/types/mod.rs: the units of a pruned type, of which the cache keys are made.
mod Steps
use semcast.Base.{
  ◌≡◌, refl, ap, sym, ◌∙◌, subst, inl, inr, Bool, true, false, ◌||◌, ◌&&◌, Option, none, some, List,
  [], ◌∷◌, ◌++◌, keep_if, if◌then◌else◌, All, arith, Bool-cases, Option-cases, true_is_false,
}
use semcast.Base.Text.{Chars}
use semcast.Base.Assoc.{chars_beq, chars_beq_iff}
use semcast.Types.{
  FieldSpec, SemanticType, contains, any, names_of, check_fields, close_over, pruned, find_group,
  group_of, group_members, units_from, generation_units, restrict,
}
use semcast.Types.Sets.{
  contains-append, contains-members, find_group-contains, find_group-All, Apart,
}
use semcast.Types.Units.{all_declared, contains_head}
use semcast.Types.Pruned.Closed.{any-contains, and_then-value, close_over-pulled, together-pulled}
use mathlib.Core.List.{Memᴰ}
use mathlib.Core.List.Memᴰ.{head, tail}
use semcast.Model.{ok}
use semcast.Types.Pruned.Pushdown.Steps.{
  Whole, find_group-restrict, members-restrict, unit_kept, keep-true, keep-false, units-seen,
  units-group, units-alone, any-none, SameKept, SameKept-append, SameKept-drop, contains-one,
  group_out,
}

-- The units of the rest agree, whatever names are in units.
Rest : List Chars → SemanticType → List FieldSpec → Type 0
unfolding SameKept
Rest keep ty specs =
    (mine theirs : List Chars)
    → SameKept keep mine theirs
    → units_from (restrict keep ty) (keep_if (λ f. contains f.name keep) specs) mine
      ≡ keep_if (unit_kept keep) (units_from ty specs theirs)

kept-Rest :
    (keep : List Chars) (ty : SemanticType) (spec : FieldSpec) (specs : List FieldSpec)
    → Whole keep ty
    → contains spec.name (names_of ty.fields) ≡ true
    → contains spec.name keep ≡ true
    → Rest keep ty specs
    → Rest keep ty (spec ∷ specs)
unfolding Rest SameKept Whole restrict group_of
kept-Rest keep ty spec specs whole declared held rest mine theirs same =
    let a = spec.name in
    let small = restrict keep ty in
    let left : List FieldSpec = keep_if (λ f. contains f.name keep) specs in
    let start =
      ap (λ l. units_from small l mine)
        (keep-true (λ (f : FieldSpec). contains f.name keep) spec specs held) in
    let groups = find_group-restrict keep a ty.together held in
    elim (Bool-cases (contains a theirs)) [
      | inl e ↦
          start
          ∙ units-seen small spec left mine (same a held ∙ e)
          ∙ rest mine theirs same
          ∙ ap (keep_if (unit_kept keep)) (sym (units-seen ty spec specs theirs e))
      | inr e ↦ elim (Option-cases (group_of a ty)) [
        | inl f ↦
            start
            ∙ units-alone small spec left mine (same a held ∙ e) (groups ∙ f)
            ∙ ap (λ r. (spec ∷ []) ∷ r)
                (rest (a ∷ mine) (a ∷ theirs) (SameKept-append keep (a ∷ []) mine theirs same))
            ∙ sym (
                keep-true (unit_kept keep) (spec ∷ []) (units_from ty specs (a ∷ theirs))
                  (any-contains a keep (a ∷ []) (contains_head a []) held))
            ∙ ap (keep_if (unit_kept keep)) (sym (units-alone ty spec specs theirs e f))
        | inr (g, f) ↦
            let unit = group_members g ty.fields in
            let unit' = group_members g small.fields in
            let here = find_group-contains a ty.together f in
            let inside : contains a (names_of unit) ≡ true =
              ground (arith, contains-members a g ty.fields, here, declared) in
            let agree : unit' ≡ unit =
              members-restrict keep g ty.fields
                (λ k j. whole a k g f (any-contains a keep g here held) j) in
            start
            ∙ units-group small spec left mine g (same a held ∙ e) (groups ∙ f)
            ∙ ap (λ u. u ∷ units_from small left (names_of u ++ mine)) agree
            ∙ ap (λ r. unit ∷ r)
                (rest (names_of unit ++ mine) (names_of unit ++ theirs)
                  (SameKept-append keep (names_of unit) mine theirs same))
            ∙ sym (
                keep-true (unit_kept keep) unit (units_from ty specs (names_of unit ++ theirs))
                  (any-contains a keep (names_of unit) inside held))
            ∙ ap (keep_if (unit_kept keep)) (sym (units-group ty spec specs theirs g e f))
      ]
    ]

out-Rest :
    (keep : List Chars) (ty : SemanticType) (spec : FieldSpec) (specs : List FieldSpec)
    → Whole keep ty
    → contains spec.name keep ≡ false
    → Rest keep ty specs
    → Rest keep ty (spec ∷ specs)
unfolding Rest
out-Rest keep ty spec specs whole out rest mine theirs same =
    let a = spec.name in
    let small = restrict keep ty in
    let start =
      ap (λ l. units_from small l mine)
        (keep-false (λ (f : FieldSpec). contains f.name keep) spec specs out) in
    let dropped =
      λ (unit : List FieldSpec)
          (gone : (m : Chars) → contains m (names_of unit) ≡ true → contains m keep ≡ false).
        rest mine (names_of unit ++ theirs)
          (SameKept-drop keep (names_of unit) mine theirs gone same)
        ∙ sym (
            keep-false (unit_kept keep) unit (units_from ty specs (names_of unit ++ theirs))
              (any-none keep (names_of unit) gone)) in
    elim (Bool-cases (contains a theirs)) [
      | inl e ↦
          start
          ∙ rest mine theirs same
          ∙ ap (keep_if (unit_kept keep)) (sym (units-seen ty spec specs theirs e))
      | inr e ↦ elim (Option-cases (group_of a ty)) [
        | inl f ↦
            start
            ∙ dropped (spec ∷ []) (λ m. contains-one a m keep out)
            ∙ ap (keep_if (unit_kept keep)) (sym (units-alone ty spec specs theirs e f))
        | inr (g, f) ↦
            start
            ∙ dropped (group_members g ty.fields) (λ m i.
              group_out keep ty a g whole f out m
                (ground (arith, contains-members m g ty.fields, i)))
            ∙ ap (keep_if (unit_kept keep)) (sym (units-group ty spec specs theirs g e f))
      ]
    ]

units-Rest :
    (keep : List Chars) (ty : SemanticType) (specs : List FieldSpec)
    → Whole keep ty
    → All (λ (f : FieldSpec). contains f.name (names_of ty.fields) ≡ true) specs
    → Rest keep ty specs
unfolding Rest units_from
units-Rest keep ty [] whole declared mine theirs same = refl
units-Rest keep ty (spec ∷ specs) whole declared mine theirs same =
    let rest = units-Rest keep ty specs whole declared.1 in
    elim (Bool-cases (contains spec.name keep)) [
      | inl held ↦ kept-Rest keep ty spec specs whole declared.0 held rest mine theirs same
      | inr out ↦ out-Rest keep ty spec specs whole out rest mine theirs same
    ]

any-some :
    (keep g : List Chars)
    → any (λ m. contains m keep) g ≡ true
    → (m : Chars) × (contains m g ≡ true) × (contains m keep ≡ true)
unfolding any contains
any-some keep [] held = absurd (true_is_false (sym held))
any-some keep (x ∷ g) held = elim (Bool-cases (contains x keep)) [
  | inl e ↦ (x, contains_head x g, e)
  | inr e ↦
      let (m, inside, there) = any-some keep g (ground (arith, held, e)) in
      (m, ground (arith, inside), there)
]

All-self : {A : Type 0} (P : A → Type 0) (xs : List A) → ((x : A) → Memᴰ x xs → P x) → All P xs
All-self P [] each = tt
All-self P (x ∷ xs) each = (each x (head refl), All-self P xs (λ y m. each y (tail m)))

close_over-Whole :
    (names : List Chars) (ty : SemanticType)
    → Apart ty.together
    → Whole (close_over ty.together names) ty
unfolding Whole group_of
close_over-Whole names ty apart a k g found held inside =
    let (m, there, reached) = any-some (close_over ty.together names) g held in
    let mem =
      find_group-All (λ x. Memᴰ x ty.together) a ty.together
        (All-self (λ x. Memᴰ x ty.together) ty.together (λ x m. m)) found in
    let whole =
      together-pulled m k g ty.together names apart mem there inside
        (sym (close_over-pulled m ty.together names apart) ∙ reached) in
    ground (arith, close_over-pulled k ty.together names apart, whole)

-- The units of a pruned type are, in order and each with all its fields, those units of the type
-- with a field that pruning keeps, if no name is in two groups.
pub pruned-generation_units :
    (names : List Chars) (ty t : SemanticType)
    → Apart ty.together
    → pruned names ty ≡ ok t
    → generation_units t
      ≡ keep_if
          (λ unit. any (λ m. contains m (close_over ty.together names)) (names_of unit))
          (generation_units ty)
unfolding pruned generation_units restrict Rest SameKept
pruned-generation_units names ty t apart done =
    let keep = close_over ty.together names in
    let declared = all_declared ty.fields (names_of ty.fields) (λ n h. h) in
    ap generation_units (sym (and_then-value (check_fields names ty) done))
    ∙ units-Rest keep ty ty.fields (close_over-Whole names ty apart) declared [] [] (λ n h. refl)

-- ===== src/Types/Registry/First.antt =====
-- src/types/registry.rs: the first definition of a name.
use semcast.Base.{
  ◌≡◌, ap, sym, ◌∙◌, inl, inr, some, List, [], ◌∷◌, is_some, Bool-cases, true_is_false,
}
use semcast.Base.Text.{Chars}
use semcast.Base.Assoc.{chars_eq, lookup, lookup-insert_self, lookup-insert_ne}
use semcast.Types.{SemanticType}
use semcast.Types.Registry.{TypeRegistry, register, register_all, get}
use semcast.Model.{ok, err}

err_is_ok : {A : Type 0} {message : Chars} {a : A} → err message ≡ ok a → ⊥
err_is_ok e = cc

module _ (lower : Chars → Chars) where
  register-kept :
      (k : Chars) (ty other : SemanticType) (types : TypeRegistry)
      → lookup k types ≡ some ty
      → lookup k (register lower other types).0 ≡ some ty
  unfolding register
  register-kept k ty other types held =
      elim (Bool-cases (is_some (lookup (lower other.name) types))) [
        | inl e ↦ rw e held
        | inr e ↦ rw e (
            lookup-insert_ne (lower other.name) k other types (λ q.
              true_is_false (sym (ap (λ x. is_some (lookup x types)) q ∙ ap is_some held) ∙ e))
            ∙ held)
      ]

  register_all-kept :
      (k : Chars) (ty : SemanticType) (tys : List SemanticType) (types : TypeRegistry)
      → lookup k types ≡ some ty
      → lookup k (register_all lower tys types) ≡ some ty
  unfolding register_all
  register_all-kept k ty [] types held = held
  register_all-kept k ty (other ∷ tys) types held =
      register_all-kept k ty tys (register lower other types).0
        (register-kept k ty other types held)

  register_ok :
      (ty : SemanticType) (types : TypeRegistry)
      → (register lower ty types).1 ≡ ok tt
      → lookup (lower ty.name) (register lower ty types).0 ≡ some ty
  unfolding register
  register_ok ty types = elim (Bool-cases (is_some (lookup (lower ty.name) types))) [
    | inl e ↦ rw e (λ done. absurd (err_is_ok done))
    | inr e ↦ rw e (λ done. lookup-insert_self (lower ty.name) ty types)
  ]

  -- A type whose registration succeeds is found by every spelling of its name, whatever is
  -- registered after it.
  register-get :
      (ty : SemanticType) (types : TypeRegistry) (later : List SemanticType) (name : Chars)
      → (register lower ty types).1 ≡ ok tt
      → lower name ≡ lower ty.name
      → get lower name (register_all lower later (register lower ty types).0) ≡ some ty
  unfolding get
  register-get ty types later name done spelled =
      ap (λ k. lookup k (register_all lower later (register lower ty types).0)) spelled
      ∙ register_all-kept (lower ty.name) ty later (register lower ty types).0
          (register_ok ty types done)

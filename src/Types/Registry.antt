-- ===== src/Types/Registry.antt =====
-- src/types/registry.rs: the types of a session by lower-cased name; each call is one step under the
-- lock. `str::to_lowercase` is a parameter.
pub mod First
use semcast.Base.{
  Bool, true, false, Option, none, some, List, [], ◌∷◌, ◌++◌, if◌then◌else◌, is_some,
}
use semcast.Base.Text.{Chars, codes}
use semcast.Base.Assoc.{chars_eq, lookup, insert}
use semcast.Types.{SemanticType}
use semcast.Model.{Result, ok, err}

abbrev pub TypeRegistry : Type 0
TypeRegistry = List (Chars × SemanticType)

module _ (lower : Chars → Chars) where
  unfoldable pub register : SemanticType → TypeRegistry → TypeRegistry × Result {0} Unit
  register ty types =
      let key = lower ty.name in
      if is_some (lookup key types)
      then (
        types,
        err (
            codes "semantic type "
            ++ ty.name
            ++ codes
                " is already defined; CREATE OR REPLACE is not implemented yet, so use a new name"),
      )
      else (insert key ty types, ok tt)

  unfoldable pub get : Chars → TypeRegistry → Option SemanticType
  get name types = lookup (lower name) types

  -- Registrations one after another.
  unfoldable pub register_all : List SemanticType → TypeRegistry → TypeRegistry
  unfolding register
  register_all [] types = types
  register_all (ty ∷ tys) types = register_all tys (register ty types).0

-- ===== src/Parse/Definitions.antt =====
-- compiler/src/thrifty.yy: Definition and TypeDefinition, in the pass over the types;
-- compiler/src/parse/t_program.h: the operations that they call. What a definition adds to the
-- scopes is in Compiler.ParseFiles.
pub mod Types
pub mod Shared
pub mod UniqueTypes
use sparsam.Base.{
  ℕ, ◌==◌, Text, text_eq, Bool, true, false, not, ◌&&◌, ◌||◌, ◌≡◌, refl, sym, ◌∙◌, ◌⊎◌, inl, inr,
  List, [], ◌∷◌, ◌++◌, any, all, All, Option, none, some, if◌then◌else◌, Bool-cases, arith,
}
use sparsam.Parse.Error.{Fallible, ok, throw, ◌>>=◌, type_defined}
use sparsam.Parse.Collisions.{
  Named, Declared, is_unique_typename, is_unique_typename_lem, collides, is_collision,
  is_common_namespace,
}

-- A definition, with the type that it makes. A constant makes none, and the collisions of names do
-- not look at it.
pub data Definition : Type 0 where
  const : Definition
  typedef enum senum struct xception service : Named → Definition

unfoldable pub type_of : Definition → Option Named
type_of const = none
type_of (typedef t) = some t
type_of (enum t) = some t
type_of (senum t) = some t
type_of (struct t) = some t
type_of (xception t) = some t
type_of (service t) = some t

-- add_typedef, add_enum, add_struct, add_xception and add_service
unfoldable pub add_definition : Definition → Declared → Declared
add_definition const p = p
add_definition (typedef t) p = record p { typedefs = p.typedefs ++ t ∷ [] }
add_definition (enum t) p = record p { enums = p.enums ++ t ∷ [] }
add_definition (senum t) p = record p { typedefs = p.typedefs ++ t ∷ [] }
add_definition (struct t) p = record p { objects = p.objects ++ t ∷ [] }
add_definition (xception t) p = record p { objects = p.objects ++ t ∷ [] }
add_definition (service t) p = record p { services = p.services ++ t ∷ [] }

-- The programs that g_program includes are `others`.
module _ (others : List Declared) where
  unfoldable pub check_typename : Option Named → Declared → Fallible Declared
  check_typename none p = ok p
  check_typename (some t) p =
      if is_unique_typename p others p t then ok p else throw (type_defined t.name)

  unfoldable pub define : Definition → Declared → Fallible Declared
  unfolding check_typename type_of add_definition
  define d p = check_typename (type_of d) (add_definition d p)

  -- DefinitionList
  unfoldable pub definition_list : List Definition → Declared → Fallible Declared
  unfolding define
  definition_list [] p = ok p
  definition_list (d ∷ ds) p = define d p >>= definition_list ds

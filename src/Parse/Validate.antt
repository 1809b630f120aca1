-- ===== src/Parse/Validate.antt =====
-- compiler/src/main.cc: validate_const_rec with its two callers, and validate_throws.
use sparsam.Base.{
  ℕ, Text, txt, text_eq, ◌++◌, [], ◌∷◌, none, some, List, Bool, true, false, not, any,
  if◌then◌else◌, last_named,
}
use sparsam.Parse.Error.{
  Fallible, ok, throw, ◌>>=◌, void_const, declared_as, bad_enum_const, key_not_string,
  no_such_field,
}
use sparsam.Parse.Enum.{Enum}
use sparsam.Parse.ConstValue.{
  ConstValue, ConstItems, ConstPairs, ConstKind, cv_integer, cv_double, cv_string, cv_identifier,
  map, list, no_items, item, no_pairs, pair, string, get_type, get_string, get_identifier,
  get_identifier_name,
}
use sparsam.Parse.Types.{
  TType, Base, Field, Struct, Const, Store, base_type, enum_type, struct_type, list_type, set_type,
  map_type, type_void, type_string, type_bool, type_byte, type_i16, type_i32, type_i64, type_double,
  is_xception,
}
use sparsam.Parse.Scope.{get_true_type}

abbrev pub is_integer : ConstKind → Bool
is_integer cv_integer = true
is_integer _ = false

abbrev pub is_string : ConstKind → Bool
is_string cv_string = true
is_string _ = false

abbrev pub is_number : ConstKind → Bool
is_number cv_integer = true
is_number cv_double = true
is_number _ = false

-- if (!b) throw
abbrev pub require : Bool → Text → Text → Fallible (Unit {0})
require b name what = if b then ok tt else throw (declared_as name what)

-- The switch on the base type.
unfoldable pub validate_base : Text → Base → ConstKind → Fallible (Unit {0})
validate_base name type_void k = throw (void_const name)
validate_base name type_string k = require (is_string k) name (txt "string")
validate_base name type_bool k = require (is_integer k) name (txt "bool")
validate_base name type_byte k = require (is_integer k) name (txt "byte")
validate_base name type_i16 k = require (is_integer k) name (txt "i16")
validate_base name type_i32 k = require (is_integer k) name (txt "i32")
validate_base name type_i64 k = require (is_integer k) name (txt "i64")
validate_base name type_double k = require (is_number k) name (txt "double")

-- The branch of an enumeration.
unfoldable pub validate_enum : Text → Enum → ConstValue → Fallible (Unit {0})
validate_enum name e v = elim (get_type v) [
  | cv_identifier ↦ get_identifier_name v >>= λ portion.
      if any (λ c. text_eq c.name portion) e.constants
      then ok tt
      else throw (bad_enum_const name e.name (get_identifier v))
  | _ ↦ throw (declared_as name (txt "enum"))
]

-- The last member of the key's name.
unfoldable pub validate_member : Struct → Text → (Field → Fallible (Unit {0})) → Fallible (Unit {0})
validate_member s key k = elim (last_named (λ f. f.name) key none s.members) [
  | none ↦ throw (no_such_field key s.name)
  | some f ↦ k f
]

module _ (st : Store) where
  -- validate_const_rec, and its loops.
  unfoldable mutual
    unfolding validate_base validate_enum get_type get_string validate_member last_named

    pub validate_const_rec : Text → TType → ConstValue → Fallible (Unit {0})
    validate_const_rec name (struct_type a) (map ps) = validate_fields name (st.struct_at a) ps
    validate_const_rec name (map_type k w) (map ps) = validate_pairs name k w ps
    validate_const_rec name (list_type e) (list xs) = validate_items name e xs
    validate_const_rec name (set_type e) (list xs) = validate_items name e xs
    validate_const_rec name (base_type n b q) v = validate_base name b (get_type v)
    validate_const_rec name (enum_type e) v = validate_enum name e v
    validate_const_rec name (struct_type a) v = throw (declared_as name (txt "struct/xception"))
    validate_const_rec name t v = ok tt

    pub validate_fields : Text → Struct → ConstPairs → Fallible (Unit {0})
    validate_fields name s no_pairs = ok tt
    validate_fields name s (pair x y ps) = elim x [
      | string key ↦
          validate_member s key (λ f. validate_const_rec (name ++ b'.' ∷ key) f.type y) >>= λ _.
          validate_fields name s ps
      | _ ↦ throw (key_not_string name)
    ]

    pub validate_pairs : Text → TType → TType → ConstPairs → Fallible (Unit {0})
    validate_pairs name k w no_pairs = ok tt
    validate_pairs name k w (pair x y ps) = validate_const_rec (name ++ txt "<key>") k x >>= λ _.
        validate_const_rec (name ++ txt "<val>") w y >>= λ _. validate_pairs name k w ps

    pub validate_items : Text → TType → ConstItems → Fallible (Unit {0})
    validate_items name e no_items = ok tt
    validate_items name e (item x xs) =
        validate_const_rec (name ++ txt "<elem>") e x >>= λ _. validate_items name e xs

  unfoldable pub validate_const_type : Const → Fallible (Unit {0})
  unfolding validate_const_rec
  validate_const_type c = validate_const_rec c.name c.type c.value

  unfoldable pub validate_field_value : Field → ConstValue → Fallible (Unit {0})
  unfolding validate_const_rec
  validate_field_value f v = validate_const_rec f.name f.type v

  -- Every member of a throws block is an exception, behind at most `fuel` typedefs.
  unfoldable pub validate_throws : ℕ → List Field → Fallible Bool
  unfolding get_true_type is_xception
  validate_throws fuel [] = ok true
  validate_throws fuel (f ∷ fs) = get_true_type st fuel f.type >>= λ t.
      let rest = validate_throws fuel fs in if not (is_xception st t) then ok false else rest

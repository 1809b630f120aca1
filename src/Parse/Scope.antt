-- ===== src/Parse/Scope.antt =====
-- compiler/src/parse/t_scope.h and t_typedef.cc: constants by name, the types behind typedefs, and
-- the resolution of the constants that name other constants or values of enumerations.
use sparsam.Base.{
  ℕ, zero, suc, ℤ, Text, Dict, find, insert, text_key, ◌++◌, ◌∷◌, none, some, if◌then◌else◌,
}
use sparsam.Parse.Error.{
  Fallible, ok, throw, ◌>>=◌, already_defined, no_such_field, no_such_constant, void_constant,
  no_named_value, uninitialised, undefined_type,
}
use sparsam.Parse.Enum.{Enum, get_constant_by_value}
use sparsam.Parse.ConstValue.{
  ConstValue, ConstItems, ConstPairs, integer, double, string, map, list, identifier, no_items,
  item, no_pairs, pair, get_integer, get_string, get_double, get_map, get_list,
}
use sparsam.Parse.Types.{
  TType, Base, Struct, Const, Store, base_type, typedef_type, forward_typedef, enum_type,
  struct_type, list_type, set_type, map_type, is_struct, type_void, type_string, type_double,
}
use sparsam.Parse.Struct.{field_by_name}

-- add_constant
unfoldable pub add_constant : Text → Const → Dict Text Const → Fallible (Dict Text Const)
add_constant n c m = elim (find n m) [
  | some d ↦ throw (already_defined n)
  | none ↦ ok (insert n c m)
]

-- What resolve_const_value asks of a type, in the order of its tests.
pub data Kind : Type 0 where
  as_map : TType → TType → Kind
  as_list : TType → Kind
  as_struct : Struct → Kind
  as_enum : Enum → Kind
  as_other : Kind

module _ (st : Store) where
  unfoldable pub kind : TType → Kind
  unfolding is_struct
  kind (map_type k v) = as_map k v
  kind (list_type e) = as_list e
  kind (set_type e) = as_list e
  kind (struct_type a) =
      if is_struct st (struct_type a) then as_struct (st.struct_at a) else as_other
  kind (enum_type e) = as_enum e
  kind t = as_other

  -- get_true_type, through at most `fuel` typedefs; `undefined_type` is where it exits.
  unfoldable pub get_true_type : ℕ → TType → Fallible TType
  get_true_type zero t = throw undefined_type
  get_true_type (suc fuel) (typedef_type n t) = get_true_type fuel t
  get_true_type (suc fuel) (forward_typedef p n) = elim (st.scope_type p n) [
    | none ↦ throw undefined_type
    | some t ↦ get_true_type fuel t
  ]
  get_true_type (suc fuel) t = ok t

  module _ (fuel : ℕ) (constants : Dict Text Const) where
    -- The switch on the base of a constant's type.
    unfoldable pub copy_base : Base → ConstValue → Fallible ConstValue
    copy_base type_void v = throw void_constant
    copy_base type_string v = ok (string (get_string v))
    copy_base type_double v = get_double v >>= λ d. ok (double d)
    copy_base b v = get_integer v >>= λ n. ok (integer n)

    -- The value that an identifier takes from a constant of the type `t`.
    unfoldable pub copy_constant : TType → ConstValue → ConstValue → Fallible ConstValue
    unfolding copy_base
    copy_constant (base_type n b q) value old = copy_base b value
    copy_constant (map_type k w) value old = ok (map (get_map value))
    copy_constant (list_type e) value old = ok (list (get_list value))
    copy_constant t value old = ok old

    unfoldable pub resolve_identifier : Text → ConstValue → Fallible ConstValue
    unfolding copy_constant get_true_type
    resolve_identifier s old = elim (find s constants) [
      | none ↦ throw (no_such_constant s)
      | some c ↦ get_true_type fuel c.type >>= (λ t. copy_constant t c.value old)
    ]

    -- An enumeration's value by its number.
    unfoldable pub name_value : ℤ → Enum → Fallible ConstValue
    name_value n e = elim (get_constant_by_value n e) [
      | none ↦ throw (no_named_value e.name n)
      | some c ↦ ok (identifier (e.name ++ b'.' ∷ c.name) (some e))
    ]

    -- The branches of resolve_const_value, and its loops over lists, maps and the fields of a struct.
    unfoldable mutual
      unfolding kind resolve_identifier name_value field_by_name get_string

      pub resolve_at : ConstValue → Kind → Fallible ConstValue
      resolve_at (map ps) (as_map k w) = resolve_pairs ps k w >>= λ qs. ok (map qs)
      resolve_at (map ps) (as_struct s) = resolve_fields ps s >>= λ qs. ok (map qs)
      resolve_at (list xs) (as_list e) = resolve_items xs e >>= λ ys. ok (list ys)
      resolve_at (identifier s e) (as_enum f) = ok (identifier s (some f))
      resolve_at (identifier s e) as_other = resolve_identifier s (identifier s e)
      resolve_at (integer n) (as_enum e) = name_value n e
      resolve_at v (as_enum e) = throw uninitialised
      resolve_at v k = ok v

      pub resolve_items : ConstItems → TType → Fallible ConstItems
      resolve_items no_items e = ok no_items
      resolve_items (item x xs) e =
          resolve_at x (kind e) >>= λ y. resolve_items xs e >>= λ ys. ok (item y ys)

      pub resolve_pairs : ConstPairs → TType → TType → Fallible ConstPairs
      resolve_pairs no_pairs k w = ok no_pairs
      resolve_pairs (pair x y ps) k w = resolve_at x (kind k) >>= λ x'.
          resolve_at y (kind w) >>= λ y'. resolve_pairs ps k w >>= λ qs. ok (pair x' y' qs)

      pub resolve_fields : ConstPairs → Struct → Fallible ConstPairs
      resolve_fields no_pairs s = ok no_pairs
      resolve_fields (pair x y ps) s = elim (field_by_name (get_string x) s.members_in_id_order) [
        | none ↦ throw (no_such_field (get_string x) s.name)
        | some f ↦
            resolve_at y (kind f.type) >>= λ y'. resolve_fields ps s >>= λ qs. ok (pair x y' qs)
      ]

    unfoldable pub resolve_const_value : ConstValue → TType → Fallible ConstValue
    unfolding resolve_at kind
    resolve_const_value v t = resolve_at v (kind t)

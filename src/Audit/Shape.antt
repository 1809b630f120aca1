-- ===== src/Audit/Shape.antt =====
-- compare_type against a description of types that does not compare them pairwise: the shape of a
-- type is its containers down to the names of the types that are no containers.
use sparsam.Base.{Text, text_eq_iff, is_empty, ◌≡◌, ap, ◌↔◌, true, false, arith, and_true_iff}
use sparsam.Parse.Types.{TType, Store, get_name, list_type, set_type, map_type}
use sparsam.Audit.Types.{compare_type}

pub data Shape : Type 0 where
  named : Text → Shape
  list_of set_of : Shape → Shape
  map_of : Shape → Shape → Shape

module _ (st : Store) where
  unfoldable pub shape : TType → Shape
  unfolding get_name
  shape (list_type t) = list_of (shape t)
  shape (set_type t) = set_of (shape t)
  shape (map_type k v) = map_of (shape k) (shape v)
  shape t = named (get_name st t)

  -- Every type in it that is no container has a name.
  unfoldable pub IsNamed : TType → Type 0
  unfolding get_name
  IsNamed (list_type t) = IsNamed t
  IsNamed (set_type t) = IsNamed t
  IsNamed (map_type k v) = IsNamed k × IsNamed v
  IsNamed t = is_empty (get_name st t) ≡ false

  compare_type→shape :
      (t u : TType) → IsNamed t → IsNamed u → compare_type st t u ≡ true → shape t ≡ shape u
  unfolding compare_type shape IsNamed
  compare_type→shape (list_type t) (list_type u) a b h = ap list_of (compare_type→shape t u a b h)
  compare_type→shape (set_type t) (set_type u) a b h = ap set_of (compare_type→shape t u a b h)
  compare_type→shape (map_type k v) (map_type l w) a b h =
      let parts = (and_true_iff (compare_type st k l) (compare_type st v w)).0 h in
      cc (compare_type→shape k l a.0 b.0 parts.0, compare_type→shape v w a.1 b.1 parts.1)
  compare_type→shape t u a b h = ground (arith, text_eq_iff (get_name st t) (get_name st u))

  list_of-injective : (a b : Shape) → list_of a ≡ list_of b → a ≡ b
  list_of-injective a b h = cc

  set_of-injective : (a b : Shape) → set_of a ≡ set_of b → a ≡ b
  set_of-injective a b h = cc

  map_of-injective : (a b c d : Shape) → map_of a c ≡ map_of b d → (a ≡ b) × (c ≡ d)
  map_of-injective a b c d h = (cc, cc)

  shape→compare_type :
      (t u : TType) → IsNamed t → IsNamed u → shape t ≡ shape u → compare_type st t u ≡ true
  unfolding compare_type shape IsNamed
  shape→compare_type (list_type t) (list_type u) a b h =
      shape→compare_type t u a b (list_of-injective _ _ h)
  shape→compare_type (set_type t) (set_type u) a b h =
      shape→compare_type t u a b (set_of-injective _ _ h)
  shape→compare_type (map_type k v) (map_type l w) a b h =
      let parts = map_of-injective _ _ _ _ h in
      (and_true_iff (compare_type st k l) (compare_type st v w)).1
        (shape→compare_type k l a.0 b.0 parts.0, shape→compare_type v w a.1 b.1 parts.1)
  shape→compare_type t u a b h = ground (arith, text_eq_iff (get_name st t) (get_name st u))

  -- compare_type holds of two types exactly when their shapes (the containers, down to the names of
  -- the rest) are equal, for types in which every part that is no container has a name that is not
  -- empty.
  pub compare_type_iff :
      (t u : TType) → IsNamed t → IsNamed u → (compare_type st t u ≡ true) ↔ (shape t ≡ shape u)
  compare_type_iff t u a b = (compare_type→shape t u a b, shape→compare_type t u a b)

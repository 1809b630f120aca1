-- ===== src/Generator/Resolution.antt =====
-- Types behind no typedef, and constants whose identifiers resolve_const_value has resolved.
use sparsam.Base.{
  ℕ, suc, ◌≡◌, refl, Text, List, [], ◌∷◌, OptAll, none, some, any, text_eq, Bool-cases, inl, inr,
  last_named, true,
}
use sparsam.Parse.Error.{ok}
use sparsam.Parse.Enum.{Enum, EnumValue, constant_by_name}
use sparsam.Parse.ConstValue.{
  ConstValue, ConstItems, ConstPairs, identifier, map, list, no_items, item, no_pairs, pair,
  get_integer, get_string, get_identifier_name, after_last_dot, get_type,
}
use sparsam.Parse.Types.{
  TType, Struct, Store, base_type, typedef_type, forward_typedef, enum_type, struct_type, list_type,
  set_type, map_type,
}
use sparsam.Parse.EnumLookup.{enum_integer-found}
use sparsam.Parse.Scope.{get_true_type}
use sparsam.Parse.Validate.{validate_enum}

-- A type in which no typedef and no service stands.
abbrev pub IsDirect : TType → Type 0
IsDirect (base_type n b q) = Unit
IsDirect (enum_type e) = Unit
IsDirect (struct_type a) = Unit
IsDirect (list_type e) = IsDirect e
IsDirect (set_type e) = IsDirect e
IsDirect (map_type k w) = IsDirect k × IsDirect w
IsDirect t = ⊥

pub get_true_type-direct :
    (st : Store) (f : ℕ) (t : TType) → IsDirect t → get_true_type st (suc f) t ≡ ok t
unfolding get_true_type
get_true_type-direct st f (typedef_type n t) h = absurd h
get_true_type-direct st f (forward_typedef p n) h = absurd h
get_true_type-direct st f _ h = refl

-- The name of an enumeration's value as resolve_const_value leaves it: the enumeration is set, and
-- what stands behind the first one or two dots stands behind the last.
abbrev pub IsNameIn : Enum → ConstValue → Type 0
IsNameIn e (identifier s o) =
    (o ≡ some e) × (get_identifier_name (identifier s o) ≡ ok (after_last_dot s))
IsNameIn e v = Unit

any-by_name :
    (n : Text) (cs : List EnumValue)
    → any (λ c. text_eq c.name n) cs ≡ true
    → (c : EnumValue) × (constant_by_name n cs ≡ some c)
unfolding constant_by_name
any-by_name n [] h = absurd cc
any-by_name n (c ∷ cs) h = elim (Bool-cases (text_eq c.name n)) [
  | inl same ↦ (c, rw same refl)
  | inr other ↦ let (d, e) = any-by_name n cs (rw other at h) in (d, rw (other, e) refl)
]

pub get_integer-validated :
    (name : Text) (e : Enum) (v : ConstValue)
    → IsNameIn e v
    → validate_enum name e v ≡ ok tt
    → (c : EnumValue) × (get_integer v ≡ ok c.value)
unfolding validate_enum get_type get_integer
get_integer-validated name e (identifier s o) h went =
    elim (Bool-cases (any (λ c. text_eq c.name (after_last_dot s)) e.constants)) [
      | inl listed ↦
          let (c, found) = any-by_name (after_last_dot s) e.constants listed in
          (c, rw (h.0, get_integer) (enum_integer-found (after_last_dot s) e c found))
      | inr missing ↦ absurd (cc (rw (h.1, missing) at went))
    ]
get_integer-validated name e v h went = absurd cc

-- Inside a value, identifiers are resolved for the type that each stands at, and the fields that a
-- struct's value names have direct types.
unfoldable mutual
  pub IsResolved : Store → ConstValue → TType → Type 0
  IsResolved st v (enum_type e) = IsNameIn e v
  IsResolved st (list xs) (list_type e) = ItemsAreResolved st xs e
  IsResolved st (list xs) (set_type e) = ItemsAreResolved st xs e
  IsResolved st (map ps) (map_type k w) = PairsAreResolved st ps k w
  IsResolved st (map ps) (struct_type a) = FieldsAreResolved st ps (st.struct_at a)
  IsResolved st v t = Unit

  pub ItemsAreResolved : Store → ConstItems → TType → Type 0
  ItemsAreResolved st no_items e = Unit
  ItemsAreResolved st (item x xs) e = IsResolved st x e × ItemsAreResolved st xs e

  pub PairsAreResolved : Store → ConstPairs → TType → TType → Type 0
  PairsAreResolved st no_pairs k w = Unit
  PairsAreResolved st (pair x y ps) k w =
      IsResolved st x k × IsResolved st y w × PairsAreResolved st ps k w

  pub FieldsAreResolved : Store → ConstPairs → Struct → Type 0
  FieldsAreResolved st no_pairs s = Unit
  FieldsAreResolved st (pair x y ps) s =
      OptAll (λ f. IsDirect f.type × IsResolved st y f.type)
        (last_named (λ f. f.name) (get_string x) none s.members)
      × FieldsAreResolved st ps s

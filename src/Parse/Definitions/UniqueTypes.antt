-- ===== src/Parse/Definitions/UniqueTypes.antt =====
-- When the definitions of a file are accepted.
use sparsam.Base.{
  ◌==◌, Text, Bool, true, false, not, ◌&&◌, ◌≡◌, refl, ◌∙◌, ◌⊎◌, inl, inr, List, [], ◌∷◌, any, all,
  All, none, some, if◌then◌else◌, Option-cases,
}
use sparsam.Parse.Error.{Fallible, ok, throw, ◌>>=◌, type_defined}
use sparsam.Parse.Collisions.{Named, Declared, is_unique_typename, is_unique_typename_lem}
use sparsam.Parse.Definitions.{
  Definition, type_of, add_definition, check_typename, define, definition_list,
}
use sparsam.Parse.Definitions.Shared.{IsMap, clashes, unique_types, all-clashes}
use sparsam.Parse.Definitions.Types.{
  declares, same_name, types_onto, Apart, Holds, add_definition-const, add_definition-Holds,
  all-start, collides-own, Apart-const, Apart-type,
}

module _ (start : Declared) (others : List Declared) (one_each : IsMap start.namespaces)
    (each : All (λ q. IsMap q.namespaces) others) where
  -- No type before it, and none of an included program, stands in the way of a type.
  abbrev is_free : Named → List Named → Bool
  is_free t ts = not (any (same_name t) ts) && all (λ q. not (clashes start t q)) others

  define-free :
      (p : Declared) (d : Definition) (t : Named) (ts : List Named)
      → type_of d ≡ some t
      → All (λ s. (t.address == s.address) ≡ false) ts
      → Holds start ts p
      → is_unique_typename (add_definition d p) others (add_definition d p) t ≡ is_free t ts
  define-free p d t ts made fresh h =
      let next = add_definition-Holds start p d t ts made h in
      let q = add_definition d p in
      is_unique_typename_lem q q others t
      ∙ rw
          (
            collides-own start q t ts fresh next,
            all-start start q t others next.address next.namespaces
                ∙ all-clashes start t others one_each each,
          )
          refl

  define-cases :
      (p : Declared) (d : Definition) (t : Named) (ts : List Named)
      → type_of d ≡ some t
      → All (λ s. (t.address == s.address) ≡ false) ts
      → Holds start ts p
      → define others d p
        ≡ (if is_free t ts then ok (add_definition d p) else throw (type_defined t.name))
  unfolding define check_typename
  define-cases p d t ts made fresh h = rw (made, define-free p d t ts made fresh h) refl

  define-const : (p : Declared) (d : Definition) → type_of d ≡ none → define others d p ≡ ok p
  unfolding define check_typename
  define-const p d made = rw (made, add_definition-const d p made) refl

  -- What becomes of definitions, of which `unique` tells, and the types that they come to.
  Result : Bool → Fallible Declared → List Named → Type 0
  Result unique r ts =
      ((unique ≡ true) × ((q : Declared) × (r ≡ ok q) × Holds start ts q))
      ⊎ ((unique ≡ false) × ((n : Text) × (r ≡ throw (type_defined n))))

  -- One definition less.
  unique_types-const :
      (d : Definition) (ds : List Definition) (ts : List Named)
      → type_of d ≡ none
      → unique_types start others (d ∷ ds) ts ≡ unique_types start others ds ts
  unfolding unique_types
  unique_types-const d ds ts made = rw (made, unique_types) refl

  unique_types-type :
      (d : Definition) (t : Named) (ds : List Definition) (ts : List Named)
      → type_of d ≡ some t
      → unique_types start others (d ∷ ds) ts
        ≡ is_free t ts && unique_types start others ds (t ∷ ts)
  unfolding unique_types
  unique_types-type d t ds ts made = rw (made, unique_types) refl

  types_onto-const :
      (d : Definition) (ds : List Definition) (ts : List Named)
      → type_of d ≡ none
      → types_onto (d ∷ ds) ts ≡ types_onto ds ts
  unfolding types_onto
  types_onto-const d ds ts made = rw (made, types_onto) refl

  types_onto-type :
      (d : Definition) (t : Named) (ds : List Definition) (ts : List Named)
      → type_of d ≡ some t
      → types_onto (d ∷ ds) ts ≡ types_onto ds (t ∷ ts)
  unfolding types_onto
  types_onto-type d t ds ts made = rw (made, types_onto) refl

  definition_list-cons :
      (d : Definition) (ds : List Definition) (p : Declared)
      → definition_list others (d ∷ ds) p ≡ define others d p >>= definition_list others ds
  unfolding definition_list
  definition_list-cons d ds p = refl

  -- What a type that is not free does to the definitions behind it.
  gate-Result :
      (free unique : Bool) (q : Declared) (n : Text) (ds : List Definition) (ts : List Named)
      → Result unique (definition_list others ds q) ts
      → Result
          (free && unique)
          ((if free then ok q else throw (type_defined n)) >>= definition_list others ds)
          ts
  unfolding Result
  gate-Result true unique q n ds ts rest = rest
  gate-Result false unique q n ds ts rest = inr (refl, (n, refl))

  const-Result :
      (d : Definition) (ds : List Definition) (ts : List Named) (p : Declared)
      → type_of d ≡ none
      → Result (unique_types start others ds ts) (definition_list others ds p) (types_onto ds ts)
      → Result
          (unique_types start others (d ∷ ds) ts)
          (definition_list others (d ∷ ds) p)
          (types_onto (d ∷ ds) ts)
  const-Result d ds ts p made rest =
      rw
        (
          unique_types-const d ds ts made,
          types_onto-const d ds ts made,
          definition_list-cons d ds p,
          define-const p d made,
        )
        rest

  type-Result :
      (d : Definition) (t : Named) (ds : List Definition) (ts : List Named) (p : Declared)
      → type_of d ≡ some t
      → define others d p
        ≡ (if is_free t ts then ok (add_definition d p) else throw (type_defined t.name))
      → Result
          (unique_types start others ds (t ∷ ts))
          (definition_list others ds (add_definition d p))
          (types_onto ds (t ∷ ts))
      → Result
          (unique_types start others (d ∷ ds) ts)
          (definition_list others (d ∷ ds) p)
          (types_onto (d ∷ ds) ts)
  type-Result d t ds ts p made defined rest =
      rw
        (
          unique_types-type d t ds ts made,
          types_onto-type d t ds ts made,
          definition_list-cons d ds p,
          defined,
        )
        (gate-Result (is_free t ts) (unique_types start others ds (t ∷ ts)) (add_definition d p)
          t.name ds (types_onto ds (t ∷ ts)) rest)

  definition_list-Result :
      (ds : List Definition) (ts : List Named) (p : Declared)
      → Apart ds ts
      → Holds start ts p
      → Result (unique_types start others ds ts) (definition_list others ds p) (types_onto ds ts)
  unfolding Result definition_list unique_types types_onto
  definition_list-Result [] ts p apart h = inl (refl, (p, refl, h))
  definition_list-Result (d ∷ ds) ts p apart h = elim (Option-cases (type_of d)) [
    | inl made ↦
        const-Result d ds ts p made
          (definition_list-Result ds ts p (Apart-const d ds ts made apart) h)
    | inr (t, made) ↦
        let (fresh, rest) = Apart-type d t ds ts made apart in
        type-Result d t ds ts p made (define-cases p d t ts made fresh h) (
          definition_list-Result ds (t ∷ ts) (add_definition d p) rest
            (add_definition-Holds start p d t ts made h))
  ]

  -- The definitions of a file, for a program that declares nothing yet, with every type at an
  -- address of its own: they are accepted exactly when no type has the name of one before it, or of
  -- a type of an included program that shares its namespaces with this one. The program then
  -- declares the types of the definitions and no others; otherwise the end is a type that is
  -- defined already. Two programs share their namespaces if they are one, or if they have the same
  -- namespace for every language that either of them names; a program has at most one for a
  -- language.
  pub definition_list_unique :
      (ds : List Definition)
      → Apart ds []
      → ((P : Named → Bool) → declares P start ≡ false)
      → ((unique_types start others ds [] ≡ true)
          × ((q : Declared) × (definition_list others ds start ≡ ok q)
              × ((P : Named → Bool) → declares P q ≡ any P (types_onto ds []))))
        ⊎ ((unique_types start others ds [] ≡ false)
            × ((n : Text) × (definition_list others ds start ≡ throw (type_defined n))))
  unfolding Result
  definition_list_unique ds apart empty =
      elim (definition_list-Result ds [] start apart
        (record { address = refl; namespaces = refl; types = empty })) [
          | inl (unique, (q, r, h)) ↦ inl (unique, (q, r, h.types))
          | inr (twice, refused) ↦ inr (twice, refused)
        ]

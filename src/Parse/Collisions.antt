-- ===== src/Parse/Collisions.antt =====
-- compiler/src/parse/t_program.h: the search for collisions of type names; t_service.h and
-- t_function.h: what a service refuses.
use sparsam.Base.{
  ℕ, suc, ◌+◌, ◌==◌, Text, txt, text_eq, Dict, find, text_key, Bool, true, not, ◌||◌, ◌&&◌, ◌≡◌,
  refl, ◌∙◌, List, [], ◌∷◌, ◌++◌, any, all, none, some, if◌then◌else◌, arith, is_empty,
}
use sparsam.Parse.Error.{Fallible, ok, throw, oneway_throws, function_defined}
use sparsam.Parse.Types.{TType, Function, Service, Struct}

-- A t_type* by its address and its name.
pub record Named : Type 0 where
  pub address : ℕ
  pub name : Text

-- A t_program* by its address, with what it declares.
pub record Declared : Type 0 where
  pub address : ℕ
  pub namespaces : Dict Text Text
  pub typedefs : List Named
  pub enums : List Named
  pub objects : List Named
  pub services : List Named

-- get_namespace
unfoldable pub get_namespace : Text → Dict Text Text → Text
get_namespace language namespaces = elim (find language namespaces) [
  | some n ↦ n
  | none ↦ elim (find (txt "*") namespaces) [ none ↦ [] | some n ↦ n ]
]

-- One of the two loops over the namespaces: each is what the other program has for its language.
unfoldable pub namespaces_match : Dict Text Text → Dict Text Text → Bool
unfolding get_namespace
namespaces_match ns others = all (λ n. text_eq n.1 (get_namespace n.0 others)) ns

-- is_common_namespace, for a type that `owner` declares
unfoldable pub is_common_namespace : Declared → Declared → Bool
unfolding namespaces_match
is_common_namespace prog owner =
    if prog.address == owner.address
    then true
    else namespaces_match prog.namespaces owner.namespaces
      && namespaces_match owner.namespaces prog.namespaces

-- The test in the loop of collection_typename_count.
unfoldable pub is_collision : Declared → Declared → Named → Named → Bool
unfolding is_common_namespace
is_collision prog owner t c =
    (not (t.address == c.address) && text_eq t.name c.name) && is_common_namespace prog owner

unfoldable pub collection_typename_count : Declared → List Named → Declared → Named → ℕ
unfolding is_collision
collection_typename_count prog [] owner t = 0
collection_typename_count prog (c ∷ cs) owner t =
    let rest = collection_typename_count prog cs owner t in
    if is_collision prog owner t c then suc rest else rest

unfoldable pub program_typename_count : Declared → Declared → Named → ℕ
unfolding collection_typename_count
program_typename_count prog owner t =
    collection_typename_count prog prog.typedefs owner t
    + collection_typename_count prog prog.enums owner t
    + collection_typename_count prog prog.objects owner t
    + collection_typename_count prog prog.services owner t

-- The loop over the included programs.
unfoldable pub includes_typename_count : List Declared → Declared → Named → ℕ
unfolding program_typename_count
includes_typename_count [] owner t = 0
includes_typename_count (p ∷ ps) owner t =
    program_typename_count p owner t + includes_typename_count ps owner t

unfoldable pub is_unique_typename : Declared → List Declared → Declared → Named → Bool
unfolding program_typename_count includes_typename_count
is_unique_typename this others owner t =
    (program_typename_count this owner t + includes_typename_count others owner t) == 0

-- add_function
unfoldable pub add_function : Function → Service → Fallible Service
add_function f s =
    if any (λ g. text_eq f.name g.name) s.functions
    then throw (function_defined f.name)
    else ok (record s { functions = s.functions ++ f ∷ [] })

-- The constructor of t_function that takes exceptions.
unfoldable pub new_function : TType → Text → Struct → Struct → Bool → Fallible Function
new_function returntype name arglist xceptions oneway =
    if oneway && not (is_empty xceptions.members)
    then throw oneway_throws
    else ok (record {
      returntype = returntype;
      name = name;
      arglist = arglist;
      xceptions = xceptions;
      oneway = oneway;
    })

-- A program that declares another type of that name, in a namespace that the two share.
unfoldable pub collides : Declared → Declared → Named → Bool
collides owner prog t =
    any (is_collision prog owner t) prog.typedefs
    || (any (is_collision prog owner t) prog.enums
        || (any (is_collision prog owner t) prog.objects
            || any (is_collision prog owner t) prog.services))

collection-any :
    (prog : Declared) (cs : List Named) (owner : Declared) (t : Named)
    → (collection_typename_count prog cs owner t == 0) ≡ not (any (is_collision prog owner t) cs)
unfolding collection_typename_count
collection-any prog [] owner t = refl
collection-any prog (c ∷ cs) owner t = ground (arith, collection-any prog cs owner t)

sum_zero : (a b : ℕ) → ((a + b) == 0) ≡ ((a == 0) && (b == 0))
sum_zero a b = ground arith

not_or : (a b c d : Bool) → ((not a && not b) && not c) && not d ≡ not (a || (b || (c || d)))
not_or a b c d = ground arith

program-collides :
    (owner prog : Declared) (t : Named)
    → (program_typename_count prog owner t == 0) ≡ not (collides owner prog t)
unfolding program_typename_count collides
program-collides owner prog t =
    let td = collection_typename_count prog prog.typedefs owner t in
    let en = collection_typename_count prog prog.enums owner t in
    let ob = collection_typename_count prog prog.objects owner t in
    let se = collection_typename_count prog prog.services owner t in
    rw
      (
        sum_zero (td + en + ob) se,
        sum_zero (td + en) ob,
        sum_zero td en,
        collection-any prog prog.typedefs owner t,
        collection-any prog prog.enums owner t,
        collection-any prog prog.objects owner t,
        collection-any prog prog.services owner t,
      )
      (not_or _ _ _ _)

includes-collides :
    (owner : Declared) (others : List Declared) (t : Named)
    → (includes_typename_count others owner t == 0) ≡ all (λ p. not (collides owner p t)) others
unfolding includes_typename_count
includes-collides owner [] t = refl
includes-collides owner (p ∷ ps) t =
    sum_zero (program_typename_count p owner t) (includes_typename_count ps owner t)
    ∙ rw (program-collides owner p t, includes-collides owner ps t) refl

-- A type name is unique exactly when neither the program nor one that it includes declares another
-- type of that name in a namespace that it shares with the type's own program.
pub is_unique_typename_lem :
    (this owner : Declared) (others : List Declared) (t : Named)
    → is_unique_typename this others owner t ≡ all (λ p. not (collides owner p t)) (this ∷ others)
unfolding is_unique_typename
is_unique_typename_lem this owner others t =
    sum_zero (program_typename_count this owner t) (includes_typename_count others owner t)
    ∙ rw (program-collides owner this t, includes-collides owner others t) refl

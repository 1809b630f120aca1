-- ===== src/Parse/Definitions/Types.antt =====
-- The types of definitions, and what a program has of them.
use sparsam.Base.{
  ◌==◌, text_eq, Bool, true, false, not, ◌&&◌, ◌||◌, ◌≡◌, refl, ap, ◌∙◌, List, [], ◌∷◌, ◌++◌, any,
  all, All, none, some, if◌then◌else◌, some_injective, arith,
}
use sparsam.Parse.Collisions.{
  Named, Declared, collides, is_collision, is_common_namespace, namespaces_match,
}
use sparsam.Parse.Definitions.{
  Definition, const, typedef, enum, senum, struct, xception, service, type_of, add_definition,
}

-- A test that holds of a type that the program declares.
unfoldable pub declares : (Named → Bool) → Declared → Bool
declares P p = any P p.typedefs || (any P p.enums || (any P p.objects || any P p.services))

abbrev pub same_name : Named → Named → Bool
same_name t s = text_eq t.name s.name

-- The types of definitions, the last one first, before those that are there.
unfoldable pub types_onto : List Definition → List Named → List Named
types_onto [] ts = ts
types_onto (d ∷ ds) ts = elim (type_of d) [
  | none ↦ types_onto ds ts
  | some t ↦ types_onto ds (t ∷ ts)
]

-- Every type stands at an address of its own.
unfoldable pub Apart : List Definition → List Named → Type 0
Apart [] ts = Unit {0}
Apart (d ∷ ds) ts = elim (type_of d) [
  | none ↦ Apart ds ts
  | some t ↦ All (λ s. (t.address == s.address) ≡ false) ts × Apart ds (t ∷ ts)
]

-- A program has the types, and the address and the namespaces of the one it began as.
pub record Holds (start : Declared) (ts : List Named) (p : Declared) : Type 0 where
  pub address : p.address ≡ start.address
  pub namespaces : p.namespaces ≡ start.namespaces
  pub types : (P : Named → Bool) → declares P p ≡ any P ts

any-last :
    {A : Type 0} (P : A → Bool) (xs : List A) (x : A) → any P (xs ++ x ∷ []) ≡ (P x || any P xs)
any-last P [] x = refl
any-last P (y ∷ xs) x = ground (arith, any-last P xs x)

declares-add :
    (d : Definition) (t : Named) (p : Declared) (P : Named → Bool)
    → type_of d ≡ some t
    → declares P (add_definition d p) ≡ (P t || declares P p)
unfolding declares add_definition type_of
declares-add const t p P h = cc
declares-add (typedef s) t p P h = rw (any-last P p.typedefs s, some_injective h) (ground arith)
declares-add (enum s) t p P h = rw (any-last P p.enums s, some_injective h) (ground arith)
declares-add (senum s) t p P h = rw (any-last P p.typedefs s, some_injective h) (ground arith)
declares-add (struct s) t p P h = rw (any-last P p.objects s, some_injective h) (ground arith)
declares-add (xception s) t p P h = rw (any-last P p.objects s, some_injective h) (ground arith)
declares-add (service s) t p P h = rw (any-last P p.services s, some_injective h) (ground arith)

-- A type that no other of the program shares an address with.
own-collisions :
    (p : Declared) (t : Named) (ts : List Named)
    → All (λ s. (t.address == s.address) ≡ false) ts
    → any (is_collision p p t) ts ≡ any (same_name t) ts
unfolding is_collision is_common_namespace
own-collisions p t [] fresh = refl
own-collisions p t (s ∷ ts) fresh =
    let rest = own-collisions p t ts fresh.1 in let away = fresh.0 in ground (arith, rest, away)

add_definition-keeps :
    (d : Definition) (p : Declared)
    → ((add_definition d p).address ≡ p.address) × ((add_definition d p).namespaces ≡ p.namespaces)
unfolding add_definition
add_definition-keeps const p = (refl, refl)
add_definition-keeps (typedef t) p = (refl, refl)
add_definition-keeps (enum t) p = (refl, refl)
add_definition-keeps (senum t) p = (refl, refl)
add_definition-keeps (struct t) p = (refl, refl)
add_definition-keeps (xception t) p = (refl, refl)
add_definition-keeps (service t) p = (refl, refl)

pub add_definition-const :
    (d : Definition) (p : Declared) → type_of d ≡ none → add_definition d p ≡ p
unfolding add_definition type_of
add_definition-const const p h = refl
add_definition-const (typedef t) p h = cc
add_definition-const (enum t) p h = cc
add_definition-const (senum t) p h = cc
add_definition-const (struct t) p h = cc
add_definition-const (xception t) p h = cc
add_definition-const (service t) p h = cc

pub add_definition-Holds :
    (start p : Declared) (d : Definition) (t : Named) (ts : List Named)
    → type_of d ≡ some t
    → Holds start ts p
    → Holds start (t ∷ ts) (add_definition d p)
add_definition-Holds start p d t ts made h = record {
  address = (add_definition-keeps d p).0 ∙ h.address;
  namespaces = (add_definition-keeps d p).1 ∙ h.namespaces;
  types = λ P. declares-add d t p P made ∙ rw (h.types P) refl;
}

common-start :
    (start p q : Declared)
    → p.address ≡ start.address
    → p.namespaces ≡ start.namespaces
    → is_common_namespace q p ≡ is_common_namespace q start
unfolding is_common_namespace
common-start start p q address namespaces =
    ap
      (λ a.
        if q.address == a
        then true
        else namespaces_match q.namespaces p.namespaces
          && namespaces_match p.namespaces q.namespaces)
      address
    ∙ ap
        (λ ns.
          if q.address == start.address
          then true
          else namespaces_match q.namespaces ns && namespaces_match ns q.namespaces)
        namespaces

collides-start :
    (start p q : Declared) (t : Named)
    → p.address ≡ start.address
    → p.namespaces ≡ start.namespaces
    → collides p q t ≡ collides start q t
unfolding collides is_collision
collides-start start p q t address namespaces =
    ap
      (λ b.
        any (λ c. (not (t.address == c.address) && text_eq t.name c.name) && b) q.typedefs
        || (any (λ c. (not (t.address == c.address) && text_eq t.name c.name) && b) q.enums
            || (any (λ c. (not (t.address == c.address) && text_eq t.name c.name) && b) q.objects
                || any (λ c. (not (t.address == c.address) && text_eq t.name c.name) && b)
                    q.services)))
      (common-start start p q address namespaces)

pub all-start :
    (start p : Declared) (t : Named) (qs : List Declared)
    → p.address ≡ start.address
    → p.namespaces ≡ start.namespaces
    → all (λ q. not (collides p q t)) qs ≡ all (λ q. not (collides start q t)) qs
all-start start p t [] address namespaces = refl
all-start start p t (q ∷ qs) address namespaces =
    rw (collides-start start p q t address namespaces, all-start start p t qs address namespaces)
      refl

self-collision : (p : Declared) (t : Named) → is_collision p p t t ≡ false
unfolding is_collision
self-collision p t = ground arith

pub collides-own :
    (start p : Declared) (t : Named) (ts : List Named)
    → All (λ s. (t.address == s.address) ≡ false) ts
    → Holds start (t ∷ ts) p
    → collides p p t ≡ any (same_name t) ts
unfolding collides declares
collides-own start p t ts fresh h =
    h.types (is_collision p p t) ∙ rw (self-collision p t, own-collisions p t ts fresh) refl

pub Apart-const :
    (d : Definition) (ds : List Definition) (ts : List Named)
    → type_of d ≡ none
    → Apart (d ∷ ds) ts
    → Apart ds ts
unfolding Apart
Apart-const d ds ts made apart = rw (made, Apart) at apart

pub Apart-type :
    (d : Definition) (t : Named) (ds : List Definition) (ts : List Named)
    → type_of d ≡ some t
    → Apart (d ∷ ds) ts
    → All (λ s. (t.address == s.address) ≡ false) ts × Apart ds (t ∷ ts)
unfolding Apart
Apart-type d t ds ts made apart = rw (made, Apart) at apart

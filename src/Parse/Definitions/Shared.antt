-- ===== src/Parse/Definitions/Shared.antt =====
-- When two programs share a namespace, and when an included program has a type in the way of
-- another, told of their namespaces and types.
use sparsam.Base.{
  ◌==◌, Text, txt, text_eq, text_eq_iff, text_key, Dict, find, Bool, true, not, ◌&&◌, ◌||◌, ◌≡◌,
  refl, sym, ◌∙◌, List, [], ◌∷◌, ◌++◌, any, all, map, All, Option, none, some, Option-cases,
  Bool-cases, inl, inr, arith,
}
use sparsam.Parse.Collisions.{
  Named, Declared, get_namespace, namespaces_match, is_common_namespace, is_collision, collides,
}
use sparsam.Parse.Definitions.{Definition, type_of}
use sparsam.Parse.Definitions.Types.{declares, same_name}

-- Every language has one entry, as in a std::map.
abbrev pub IsMap : Dict Text Text → Type 0
IsMap m = All (λ e. find e.0 m ≡ some e.1) m

abbrev first_of : Option Text → Option Text → Text
first_of (some n) o = n
first_of none (some n) = n
first_of none none = []

-- The namespace for a language: its own, or the one for all languages.
pub namespace_in : Dict Text Text → Text → Text
namespace_in m l = first_of (find l m) (find (txt "*") m)

abbrev languages : Dict Text Text → List Text
languages m = map (λ e. e.0) m

-- They have the same namespace for every language that either of them names.
unfoldable pub shares : Declared → Declared → Bool
unfolding namespace_in
shares p q =
    all (λ l. text_eq (namespace_in p.namespaces l) (namespace_in q.namespaces l))
      (languages p.namespaces ++ languages q.namespaces)

-- Another type, of the same name.
abbrev is_other : Named → Named → Bool
is_other t s = not (t.address == s.address) && text_eq t.name s.name

-- The program, or one in a shared namespace, with another type of that name.
unfoldable pub clashes : Declared → Named → Declared → Bool
unfolding shares declares
clashes p t q = (q.address == p.address || shares p q) && declares (is_other t) q

-- No type has the name of one before it, or of a type of an included program in a namespace
-- that the two share.
unfoldable pub unique_types : Declared → List Declared → List Definition → List Named → Bool
unfolding clashes
unique_types p others [] ts = true
unique_types p others (d ∷ ds) ts = elim (type_of d) [
  | none ↦ unique_types p others ds ts
  | some t ↦
      (not (any (same_name t) ts) && all (λ q. not (clashes p t q)) others)
      && unique_types p others ds (t ∷ ts)
]

get_namespace-in : (l : Text) (m : Dict Text Text) → get_namespace l m ≡ namespace_in m l
unfolding get_namespace namespace_in
get_namespace-in l m = elim (Option-cases (find l m)) [
  | inr (n, there) ↦ rw (there, get_namespace) refl
  | inl missing ↦ elim (Option-cases (find (txt "*") m)) [
    | inr (n, all_) ↦ rw (missing, get_namespace, all_) refl
    | inl no_all ↦ rw (missing, get_namespace, no_all) refl
  ]
]

own-in : (m : Dict Text Text) (l n : Text) → find l m ≡ some n → namespace_in m l ≡ n
unfolding namespace_in
own-in m l n h = rw h refl

-- One loop over the namespaces, for the entries of a map.
match-in :
    (m others : Dict Text Text) (es : Dict Text Text)
    → All (λ e. find e.0 m ≡ some e.1) es
    → namespaces_match es others
      ≡ all (λ l. text_eq (namespace_in m l) (namespace_in others l)) (languages es)
unfolding namespaces_match
match-in m others [] h = refl
match-in m others (e ∷ es) h =
    rw (own-in m e.0 e.1 h.0, get_namespace-in e.0 others, match-in m others es h.1) refl

all-append : {A : Type 0} (P : A → Bool) (xs ys : List A) → all P (xs ++ ys) ≡ all P xs && all P ys
all-append P [] ys = refl
all-append P (x ∷ xs) ys = ground (arith, all-append P xs ys)

text_eq_comm : (a b : Text) → text_eq a b ≡ text_eq b a
text_eq_comm a b = elim (Bool-cases (text_eq a b)) [
  | inl same ↦ same ∙ sym ((text_eq_iff b a).1 (sym ((text_eq_iff a b).0 same)))
  | inr differ ↦ elim (Bool-cases (text_eq b a)) [
    | inr both ↦ differ ∙ sym both
    | inl same ↦ absurd (cc (differ, (text_eq_iff a b).1 (sym ((text_eq_iff b a).0 same))))
  ]
]

all_comm :
    (m k : Dict Text Text) (ls : List Text)
    → all (λ l. text_eq (namespace_in m l) (namespace_in k l)) ls
      ≡ all (λ l. text_eq (namespace_in k l) (namespace_in m l)) ls
all_comm m k [] = refl
all_comm m k (l ∷ ls) =
    rw (text_eq_comm (namespace_in m l) (namespace_in k l), all_comm m k ls) refl

common-shares :
    (p q : Declared)
    → IsMap p.namespaces
    → IsMap q.namespaces
    → is_common_namespace q p ≡ (q.address == p.address || shares p q)
unfolding is_common_namespace shares
common-shares p q hp hq =
    let one = match-in p.namespaces q.namespaces p.namespaces hp in
    let two =
      match-in q.namespaces p.namespaces q.namespaces hq
      ∙ all_comm q.namespaces p.namespaces (languages q.namespaces) in
    let both =
      all-append (λ l. text_eq (namespace_in p.namespaces l) (namespace_in q.namespaces l))
        (languages p.namespaces) (languages q.namespaces) in
    rw (one, two, both) (ground arith)

any-and :
    {A : Type 0} (P : A → Bool) (b : Bool) (xs : List A) → any (λ x. P x && b) xs ≡ b && any P xs
any-and P b [] = ground arith
any-and P b (x ∷ xs) = ground (arith, any-and P b xs)

collides-clashes :
    (p q : Declared) (t : Named)
    → IsMap p.namespaces
    → IsMap q.namespaces
    → collides p q t ≡ clashes p t q
unfolding collides clashes declares is_collision
collides-clashes p q t hp hq =
    let common = common-shares p q hp hq in
    let one = any-and (is_other t) (is_common_namespace q p) q.typedefs in
    let two = any-and (is_other t) (is_common_namespace q p) q.enums in
    let three = any-and (is_other t) (is_common_namespace q p) q.objects in
    let four = any-and (is_other t) (is_common_namespace q p) q.services in
    rw (one, two, three, four, common) (ground arith)

pub all-clashes :
    (p : Declared) (t : Named) (qs : List Declared)
    → IsMap p.namespaces
    → All (λ q. IsMap q.namespaces) qs
    → all (λ q. not (collides p q t)) qs ≡ all (λ q. not (clashes p t q)) qs
all-clashes p t [] hp hs = refl
all-clashes p t (q ∷ qs) hp hs =
    rw (collides-clashes p q t hp hs.0, all-clashes p t qs hp hs.1) refl

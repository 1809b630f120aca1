-- ===== src/Parse/Grammar/Unions.antt =====
-- The structs and unions that the grammar makes are well-formed.
use mathlib.Core.List.Perm
use sparsam.Base.{
  ℤ, negsuc, ◌<ℤ◌, Text, is_empty, Bool, true, false, not, ◌&&◌, ◌≡◌, ◌≢◌, refl, sym, ap, subst,
  ◌∙◌, List, [], ◌∷◌, map, All, Bool-cases, inl, inr,
}
use sparsam.Parse.Error.{ok, >>=-eq-ok, ok-injective}
use sparsam.Parse.Types.{Field, Struct}
use sparsam.Parse.Struct.{
  new_struct, set_name, set_union, set_xception, relax, validate_union_members, add_member,
  count_defaults,
}
use sparsam.Parse.Members.Sorted.{IsSorted}
use sparsam.Parse.Members.WellFormed.{
  IsWellFormed, UniqueNames, append-IsWellFormed, append-cases, append-plain, relax-key, relax-name,
}
use sparsam.Parse.Members.Union.{IsValidUnion, set_name-IsValidUnion}
use sparsam.Parse.Grammar.{
  Settings, FieldList, no_fields, field, field_identifier, make_field, append_field, attributes,
  fields_onto, field_list, validate_simple_identifier,
}
use sparsam.Parse.Grammar.Objects.{struct_definition, xception_definition}

-- A struct while its fields are read: well-formed, and neither named nor validated.
pub record IsFresh (t : Struct) : Type 0 where
  pub well : IsWellFormed t
  pub no_union : t.is_union ≡ false
  pub unvalidated : t.members_validated ≡ false
  pub uncounted : t.members_with_value ≡ 0
  pub unnamed : t.name ≡ []

pub new_struct-IsFresh : IsFresh (new_struct [])
unfolding new_struct
new_struct-IsFresh = record {
  well = record { sorted = tt; names = tt; same = Perm.refl [] };
  no_union = refl;
  unvalidated = refl;
  uncounted = refl;
  unnamed = refl;
}

add_member-IsFresh :
    (e : Field) (t : Struct)
    → IsFresh t
    → IsWellFormed (add_member e t.members_with_value t)
    → IsFresh (add_member e t.members_with_value t)
unfolding add_member
add_member-IsFresh e t h well = record {
  well = well;
  no_union = h.no_union;
  unvalidated = h.unvalidated;
  uncounted = h.uncounted;
  unnamed = h.unnamed;
}

append_field-IsFresh :
    (g : Settings) (e : Field) (t u : Struct) → IsFresh t → append_field g e t ≡ ok u → IsFresh u
unfolding append_field
append_field-IsFresh g e t u h went = elim (append-cases e t h.well.sorted) [
  | inl (taken, r) ↦ absurd (cc (rw r at went))
  | inr (new_id, new_name, r) ↦
      let done = append-plain e t h.no_union r in
      subst IsFresh (ok-injective (rw done at went)) (
        add_member-IsFresh e t h
          (append-IsWellFormed e t (add_member e t.members_with_value t) true h.well done))
]

fields_onto-IsFresh :
    (g : Settings) (fs : FieldList) (y : ℤ) (t : Struct) (r : Struct × ℤ)
    → IsFresh t
    → fields_onto g fs y t ≡ ok r
    → IsFresh r.0
unfolding fields_onto
fields_onto-IsFresh g no_fields y t r h went = subst (λ p. IsFresh p.0) (ok-injective went) h
fields_onto-IsFresh g (field f attrs fs) y t r h went =
    let key = field_identifier g.g_allow_neg_field_keys f.identifier y in
    let next = >>=-eq-ok (attributes g attrs key.1) _ went in
    let made = >>=-eq-ok (make_field g f key.0) _ next.2 in
    let longer = >>=-eq-ok (append_field g made.0 t) _ made.2 in
    fields_onto-IsFresh g fs next.0 longer.0 r (append_field-IsFresh g made.0 t longer.0 h longer.1)
      longer.2

-- A field list without a name is well-formed, however its fields are numbered.
pub field_list-IsFresh :
    (g : Settings) (fs : FieldList) (r : Struct × ℤ) → field_list g fs ≡ ok r → IsFresh r.0
unfolding field_list
field_list-IsFresh g fs r went =
    fields_onto-IsFresh g fs (negsuc 0) (new_struct []) r new_struct-IsFresh went

set_union-unnamed :
    (b : Bool) (t : Struct) → t.name ≡ [] → set_union b t ≡ ok (record t { is_union = b })
unfolding set_union validate_union_members
set_union-unnamed true t h = rw (ap is_empty h) refl
set_union-unnamed false t h = refl

all_relax {κ} :
    (P : Field → Type κ) (fs : List Field)
    → ((f : Field) → P f → P (relax f))
    → All P fs
    → All P (map relax fs)
all_relax P [] keep h = tt
all_relax P (f ∷ fs) keep h = (keep f h.0, all_relax P fs keep h.1)

relax-IsSorted : (fs : List Field) → IsSorted fs → IsSorted (map relax fs)
relax-IsSorted [] s = tt
relax-IsSorted (f ∷ fs) s = (
  all_relax (λ g. (relax f).key <ℤ g.key) fs
      (λ g lt. subst (λ k. (relax f).key <ℤ k) (sym (relax-key g)) lt)
      (subst (λ k. All (λ g. k <ℤ g.key) fs) (sym (relax-key f)) s.0),
  relax-IsSorted fs s.1,
)

relax-UniqueNames : (fs : List Field) → UniqueNames fs → UniqueNames (map relax fs)
relax-UniqueNames [] u = tt
relax-UniqueNames (f ∷ fs) u = (
  all_relax (λ g. (relax f).name ≢ g.name) fs (λ g differ same. differ (same ∙ relax-name g))
      (subst (λ n. All (λ g. n ≢ g.name) fs) (sym (relax-name f)) u.0),
  relax-UniqueNames fs u.1,
)

-- Naming a struct keeps it well-formed.
pub set_name-IsWellFormed :
    (n : Text) (t u : Struct)
    → IsWellFormed t
    → set_name n t ≡ ok u
    → IsWellFormed u × (u.name ≡ n) × (u.is_union ≡ t.is_union)
unfolding set_name validate_union_members
set_name-IsWellFormed n t u w went =
    elim (Bool-cases (t.is_union && not (is_empty n) && not t.members_validated)) [
      | inl checked ↦
          let step =
            >>=-eq-ok (count_defaults n t.members_in_id_order t.members_with_value) _
              (rw checked at went) in
          subst (λ (x : Struct). IsWellFormed x × (x.name ≡ n) × (x.is_union ≡ t.is_union))
            (ok-injective step.2)
            (
              record {
                sorted = relax-IsSorted t.members_in_id_order w.sorted;
                names = relax-UniqueNames t.members_in_id_order w.names;
                same = Perm.map relax w.same;
              },
              refl,
              refl,
            )
      | inr skipped ↦
          subst (λ (x : Struct). IsWellFormed x × (x.name ≡ n) × (x.is_union ≡ t.is_union))
            (ok-injective (rw skipped at went))
            (record { sorted = w.sorted; names = w.names; same = w.same }, refl, refl)
    ]

-- A struct or union that is accepted has its name; its members are sorted by id, free of double
-- names, and the same fields in both vectors, and a union has no required member and at most one
-- default, which it counts.
pub struct_definition-IsWellFormed :
    (g : Settings) (union : Bool) (name : Text) (fs : FieldList) (t : Struct)
    → is_empty name ≡ false
    → struct_definition g union name fs ≡ ok t
    → (t.name ≡ name) × (t.is_union ≡ union) × IsWellFormed t × (union ≡ true → IsValidUnion t)
unfolding struct_definition
struct_definition-IsWellFormed g union name fs t named went =
    let listed = >>=-eq-ok (field_list g fs) _ went in
    let checked = >>=-eq-ok (validate_simple_identifier name) _ listed.2 in
    let marked = >>=-eq-ok (set_union union listed.0.0) _ checked.2 in
    let fresh = field_list-IsFresh g fs listed.0 listed.1 in
    let same = ok-injective (sym (set_union-unnamed union listed.0.0 fresh.unnamed) ∙ marked.1) in
    let last = subst (λ x. set_name name x ≡ ok t) (sym same) marked.2 in
    let (well, called, kind) =
      set_name-IsWellFormed name (record listed.0.0 { is_union = union }) t
        (record { sorted = fresh.well.sorted; names = fresh.well.names; same = fresh.well.same })
        last in
    (
      called,
      kind,
      well,
      λ is.
          set_name-IsValidUnion name (record listed.0.0 { is_union = union }) t named is
            fresh.unvalidated fresh.uncounted last,
    )

marked-IsWellFormed : (t : Struct) → IsWellFormed t → IsWellFormed (set_xception true t)
unfolding set_xception
marked-IsWellFormed t w = record { sorted = w.sorted; names = w.names; same = w.same }

-- An exception that is accepted has its name, is marked as one, and its members are sorted by id,
-- free of double names, and the same fields in both vectors.
xception_definition-IsWellFormed :
    (g : Settings) (name : Text) (fs : FieldList) (t : Struct)
    → xception_definition g name fs ≡ ok t
    → (t.name ≡ name) × (t.is_xception ≡ true) × IsWellFormed t
unfolding xception_definition set_xception
xception_definition-IsWellFormed g name fs t went =
    let listed = >>=-eq-ok (field_list g fs) _ went in
    let checked = >>=-eq-ok (validate_simple_identifier name) _ listed.2 in
    let named = >>=-eq-ok (set_name name listed.0.0) _ checked.2 in
    let fresh = field_list-IsFresh g fs listed.0 listed.1 in
    let (well, called, kind) = set_name-IsWellFormed name listed.0.0 named.0 fresh.well named.1 in
    subst (λ (x : Struct). (x.name ≡ name) × (x.is_xception ≡ true) × IsWellFormed x)
      (ok-injective named.2) (called, refl, marked-IsWellFormed named.0 well)

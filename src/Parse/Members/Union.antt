-- ===== src/Parse/Members/Union.antt =====
-- A named union: no required member and at most one default, through every append.
use sparsam.Base.{
  ℕ, Text, zero, suc, ◌+◌, ◌≤◌, ◌≡◌, refl, sym, ap, subst, ◌∙◌, is_empty, Bool, true, false, not,
  ◌&&◌, List, [], ◌∷◌, All, map, arith, Bool-cases, inl, inr, none, some,
}
use sparsam.Parse.Error.{ok, >>=-eq-ok, ok-injective}
use sparsam.Parse.Types.{Field, Struct, req_eq, t_required}
use sparsam.Parse.Struct.{
  relax, count_default, count_defaults, validate_union_member, validate_union_members, add_member,
  append, upper_bound, insert_at, set_name,
}
use sparsam.Parse.Members.Sorted.{insert_at-All}
use sparsam.Parse.Members.WellFormed.{IsWellFormed, append-cases}

-- The number of members with a default.
unfoldable pub defaults : List Field → ℕ
defaults [] = 0
defaults (f ∷ fs) = elim f.value [ none ↦ defaults fs | some v ↦ suc (defaults fs) ]

abbrev pub is_named_union : Struct → Bool
is_named_union t = t.is_union && not (is_empty t.name)

pub record IsValidUnion (t : Struct) : Type 0 where
  pub union : is_named_union t ≡ true
  pub counted : t.members_with_value ≡ defaults t.members_in_id_order
  pub single : t.members_with_value ≤ 1
  pub optional : All (λ f. req_eq f.req t_required ≡ false) t.members_in_id_order

defaults-insert_at :
    (i : ℕ) (f : Field) (fs : List Field)
    → defaults (insert_at i f fs) ≡ defaults (f ∷ []) + defaults fs
unfolding defaults insert_at
defaults-insert_at zero f fs = ground arith
defaults-insert_at (suc i) f [] = ground arith
defaults-insert_at (suc i) f (g ∷ fs) = ground (arith, defaults-insert_at i f fs)

relax-optional : (f : Field) → req_eq (relax f).req t_required ≡ false
unfolding relax req_eq
relax-optional f = elim (Bool-cases (req_eq f.req t_required)) [
  | inl e ↦ rw e refl
  | inr e ↦ rw (e, e)
]

relax-defaults : (f : Field) → defaults (relax f ∷ []) ≡ defaults (f ∷ [])
unfolding relax defaults
relax-defaults f = ground arith

count_default_lem :
    (name : Text) (f : Field) (n m : ℕ)
    → n ≤ 1
    → count_default name f n ≡ ok m
    → (m ≡ defaults (f ∷ []) + n) × (m ≤ 1)
unfolding count_default defaults
count_default_lem name f n m l h = ground arith

add_member-IsValidUnion :
    (f : Field) (n : ℕ) (t : Struct)
    → IsValidUnion t
    → req_eq f.req t_required ≡ false
    → n ≡ defaults (f ∷ []) + t.members_with_value
    → n ≤ 1
    → IsValidUnion (add_member f n t)
unfolding add_member
add_member-IsValidUnion f n t v opt count le = record {
  union = v.union;
  counted =
      count
      ∙ (ap (λ m. defaults (f ∷ []) + m) v.counted
          ∙ sym (
              defaults-insert_at (upper_bound f.key t.members_in_id_order) f
                t.members_in_id_order));
  single = le;
  optional =
      insert_at-All (λ g. req_eq g.req t_required ≡ false) (upper_bound f.key t.members_in_id_order)
        f t.members_in_id_order opt v.optional;
}

-- A validated member of a named union, and the count that goes with it.
validate_union_member-union :
    (e : Field) (t : Struct) (f : Field) (n : ℕ)
    → IsValidUnion t
    → validate_union_member e t ≡ ok (f, n)
    → (f ≡ relax e) × (n ≡ defaults (e ∷ []) + t.members_with_value) × (n ≤ 1)
unfolding validate_union_member
validate_union_member-union e t f n v h =
    let step =
      >>=-eq-ok (count_default t.name e t.members_with_value) (λ m. ok (relax e, m))
        (rw v.union at h) in
    let same = ok-injective step.2 in
    let count = count_default_lem t.name e t.members_with_value step.0 v.single step.1 in
    (
      sym (ap (λ p. p.0) same),
      sym (ap (λ p. p.1) same) ∙ count.0,
      subst (λ m. m ≤ 1) (ap (λ p. p.1) same) count.1,
    )

-- A well-formed named union that has no required member and at most one default, which it counts,
-- is such a union after every append that does not throw.
pub append-IsValidUnion :
    (e : Field) (t u : Struct) (b : Bool)
    → IsWellFormed t
    → IsValidUnion t
    → append e t ≡ ok (b, u)
    → IsValidUnion u
append-IsValidUnion e t u b w v h = elim (append-cases e t w.sorted) [
  | inl (taken, r) ↦ subst IsValidUnion (ap (λ p. p.1) (ok-injective (sym r ∙ h))) v
  | inr (new_id, new_name, r) ↦
      let step =
        >>=-eq-ok (validate_union_member e t) (λ p. ok (true, add_member p.0 p.1 t)) (sym r ∙ h) in
      let (f, n) = step.0 in
      let (relaxed, count, le) = validate_union_member-union e t f n v step.1 in
      subst IsValidUnion (ap (λ p. p.1) (ok-injective step.2)) (
        add_member-IsValidUnion f n t v (rw relaxed (relax-optional e))
          (count
            ∙ ap (λ k. k + t.members_with_value)
                (sym (ap (λ g. defaults (g ∷ [])) relaxed ∙ relax-defaults e)))
          le)
]

defaults-cons : (f : Field) (fs : List Field) → defaults (f ∷ fs) ≡ defaults (f ∷ []) + defaults fs
unfolding defaults
defaults-cons f fs = ground arith

defaults-nil : defaults [] ≡ 0
unfolding defaults
defaults-nil = refl

count_defaults_lem :
    (name : Text) (fs : List Field) (n m : ℕ)
    → n ≤ 1
    → count_defaults name fs n ≡ ok m
    → (m ≡ defaults fs + n) × (m ≤ 1)
unfolding count_defaults
count_defaults_lem name [] n m l h =
    let same = ok-injective h in (omega (arith, defaults-nil), omega arith)
count_defaults_lem name (f ∷ fs) n m l h =
    let step = >>=-eq-ok (count_default name f n) (count_defaults name fs) h in
    let first = count_default_lem name f n step.0 l step.1 in
    let rest = count_defaults_lem name fs step.0 m first.1 step.2 in
    (omega (arith, defaults-cons f fs), rest.1)

map_relax-optional : (fs : List Field) → All (λ f. req_eq f.req t_required ≡ false) (map relax fs)
map_relax-optional [] = tt
map_relax-optional (f ∷ fs) = (relax-optional f, map_relax-optional fs)

map_relax-defaults : (fs : List Field) → defaults (map relax fs) ≡ defaults fs
unfolding defaults relax
map_relax-defaults [] = refl
map_relax-defaults (f ∷ fs) = ground (arith, map_relax-defaults fs)

-- Naming a union that is not validated yet, and has counted no default, gives a named union without
-- required members and with at most one default, which it counts, unless set_name throws.
pub set_name-IsValidUnion :
    (n : Text) (t u : Struct)
    → is_empty n ≡ false
    → t.is_union ≡ true
    → t.members_validated ≡ false
    → t.members_with_value ≡ 0
    → set_name n t ≡ ok u
    → IsValidUnion u
unfolding set_name validate_union_members
set_name-IsValidUnion n t u named union fresh none_counted h =
    let step =
      >>=-eq-ok (count_defaults n t.members_in_id_order t.members_with_value)
        (λ m. ok (record t {
          name = n;
          is_union = true;
          members_validated = true;
          members_with_value = m;
          members = map relax t.members;
          members_in_id_order = map relax t.members_in_id_order;
        }))
        (rw (union, named, fresh) at h) in
    let count =
      count_defaults_lem n t.members_in_id_order t.members_with_value step.0 (omega arith) step.1 in
    subst IsValidUnion (ok-injective step.2) (record {
      union = rw named;
      counted = omega (arith, count.0, map_relax-defaults t.members_in_id_order);
      single = count.1;
      optional = map_relax-optional t.members_in_id_order;
    })

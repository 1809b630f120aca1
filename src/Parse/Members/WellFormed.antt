-- ===== src/Parse/Members/WellFormed.antt =====
-- The invariant of a struct's members, kept by append; and what append answers.
use mathlib.Core.List.{Perm, perm_middle}
use mathlib.Core.List.Perm
use sparsam.Base.{
  ℕ, zero, suc, Text, text_eq, text_eq_iff, is_empty, ◌≡◌, ◌≢◌, refl, sym, ap, subst, ◌∙◌, Bool,
  true, false, not, ◌&&◌, ◌||◌, List, [], ◌∷◌, ◌++◌, append-nil, any, All, All-map, arith,
  Bool-cases, Option-cases, inl, inr, ◌⊎◌, none, some,
}
use sparsam.Parse.Error.{Fallible, ok, ◌>>=◌, >>=-eq-ok, ok-injective}
use sparsam.Parse.Types.{Field, Struct}
use sparsam.Parse.Struct.{
  field_by_name, upper_bound, insert_at, relax, count_default, validate_union_member, add_member,
  append,
}
use sparsam.Parse.Members.Sorted.{
  IsSorted, has_id, bounds-has_id, insert_at-perm, insert_at-All, insert_at-IsSorted,
}

-- No two fields share a name.
abbrev pub UniqueNames : List Field → Type 0
UniqueNames [] = Unit {0}
UniqueNames (f ∷ fs) = All (λ g. f.name ≢ g.name) fs × UniqueNames fs

pub record IsWellFormed (t : Struct) : Type 0 where
  pub sorted : IsSorted t.members_in_id_order
  pub names : UniqueNames t.members_in_id_order
  pub same : Perm t.members t.members_in_id_order

unfoldable pub has_name : Text → List Field → Bool
has_name n fs = any (λ f. text_eq f.name n) fs

field_by_name-none :
    (n : Text) (fs : List Field) → field_by_name n fs ≡ none → All (λ f. f.name ≢ n) fs
unfolding field_by_name
field_by_name-none n [] h = tt
field_by_name-none n (f ∷ fs) h = elim (Bool-cases (text_eq f.name n)) [
  | inl e ↦ absurd (ground (arith, e))
  | inr e ↦
      (λ same. cc (sym e ∙ (text_eq_iff f.name n).1 same), field_by_name-none n fs (ground arith))
]

field_by_name-has_name :
    (n : Text) (fs : List Field)
    → (field_by_name n fs ≡ none → has_name n fs ≡ false)
      × ((f : Field) → field_by_name n fs ≡ some f → has_name n fs ≡ true)
unfolding field_by_name has_name
field_by_name-has_name n [] = (λ h. refl, λ f h. cc)
field_by_name-has_name n (f ∷ fs) =
    let rest = field_by_name-has_name n fs in
    (λ h. ground (arith, rest.0), λ g h. ground (arith, rest.1 g))

insert_at-UniqueNames :
    (i : ℕ) (e : Field) (fs : List Field)
    → UniqueNames fs
    → All (λ f. f.name ≢ e.name) fs
    → UniqueNames (insert_at i e fs)
unfolding insert_at
insert_at-UniqueNames zero e fs u h = (All-map (λ g n s. n (sym s)) fs h, u)
insert_at-UniqueNames (suc i) e [] u h = (tt, tt)
insert_at-UniqueNames (suc i) e (f ∷ fs) u h =
    (insert_at-All (λ g. f.name ≢ g.name) i e fs h.0 u.0, insert_at-UniqueNames i e fs u.1 h.1)

pub relax-key : (f : Field) → (relax f).key ≡ f.key
unfolding relax
relax-key f = ground arith

pub relax-name : (f : Field) → (relax f).name ≡ f.name
unfolding relax
relax-name f = ground arith

-- A validated field is the field, or the field relaxed to optional.
pub validate_union_member-cases :
    (e : Field) (t : Struct) (f : Field) (n : ℕ)
    → validate_union_member e t ≡ ok (f, n)
    → (f ≡ e) ⊎ (f ≡ relax e)
unfolding validate_union_member
validate_union_member-cases e t f n h = elim (Bool-cases (t.is_union && not (is_empty t.name))) [
  | inl u ↦
      let step =
        >>=-eq-ok (count_default t.name e t.members_with_value) (λ m. ok (relax e, m))
          (rw u at h) in
      inr (sym (ap (λ p. p.0) (ok-injective step.2)))
  | inr u ↦ inl (sym (ap (λ p. p.0) (ok-injective (rw u at h))))
]

-- It keeps its id and its name.
validate_union_member-keeps :
    (e : Field) (t : Struct) (f : Field) (n : ℕ)
    → validate_union_member e t ≡ ok (f, n)
    → (f.key ≡ e.key) × (f.name ≡ e.name)
validate_union_member-keeps e t f n h = elim (validate_union_member-cases e t f n h) [
  | inl same ↦ (ap (λ (g : Field). g.key) same, ap (λ (g : Field). g.name) same)
  | inr relaxed ↦ (
    ap (λ (g : Field). g.key) relaxed ∙ relax-key e,
    ap (λ (g : Field). g.name) relaxed ∙ relax-name e,
  )
]

add_member-IsWellFormed :
    (f : Field) (n : ℕ) (t : Struct)
    → IsWellFormed t
    → has_id f.key t.members_in_id_order ≡ false
    → All (λ g. g.name ≢ f.name) t.members_in_id_order
    → IsWellFormed (add_member f n t)
unfolding add_member
add_member-IsWellFormed f n t w new_id new_name = record {
  sorted = insert_at-IsSorted f t.members_in_id_order w.sorted new_id;
  names =
      insert_at-UniqueNames (upper_bound f.key t.members_in_id_order) f t.members_in_id_order
        w.names new_name;
  same = Perm.trans (perm_middle t.members []) (
      Perm.trans (Perm.cons f (rw append-nil w.same)) (
        Perm.symm
          (insert_at-perm (upper_bound f.key t.members_in_id_order) f t.members_in_id_order)));
}

-- What append answers: the field goes in unless its id or its name is taken.
abbrev pub AppendResult : Field → Struct → Fallible (Bool × Struct) → Type 0
AppendResult e t r =
    (((has_id e.key t.members_in_id_order || has_name e.name t.members_in_id_order) ≡ true)
      × (r ≡ ok (false, t)))
    ⊎ ((has_id e.key t.members_in_id_order ≡ false)
        × (All (λ g. g.name ≢ e.name) t.members_in_id_order)
        × (r ≡ (validate_union_member e t >>= (λ (f, n). ok (true, add_member f n t)))))

pub append-cases :
    (e : Field) (t : Struct) → IsSorted t.members_in_id_order → AppendResult e t (append e t)
unfolding append
append-cases e t s =
    rw (bounds-has_id e.key t.members_in_id_order s)
      (elim (Bool-cases (has_id e.key t.members_in_id_order)) [
        | inl taken ↦ inl (rw taken, rw taken)
        | inr free ↦ elim (Option-cases (field_by_name e.name t.members_in_id_order)) [
          | inl none_named ↦ inr (
            free,
            field_by_name-none e.name t.members_in_id_order none_named,
            rw (free, none_named),
          )
          | inr (f, named) ↦ inl (
            rw (free, (field_by_name-has_name e.name t.members_in_id_order).1 f named),
            rw (free, named),
          )
        ]
      ])

validate_union_member-plain :
    (e : Field) (t : Struct)
    → t.is_union ≡ false
    → validate_union_member e t ≡ ok (e, t.members_with_value)
unfolding validate_union_member
validate_union_member-plain e t h = rw h refl

-- A struct that is no union takes the field as it is.
pub append-plain :
    (e : Field) (t : Struct)
    → t.is_union ≡ false
    → append e t ≡ (validate_union_member e t >>= (λ (f, n). ok (true, add_member f n t)))
    → append e t ≡ ok (true, add_member e t.members_with_value t)
append-plain e t h r = r ∙ rw (validate_union_member-plain e t h) refl

-- Members that are sorted by id, free of double names and the same fields in both vectors are so
-- after every append that does not throw, whatever it answers.
pub append-IsWellFormed :
    (e : Field) (t u : Struct) (b : Bool) → IsWellFormed t → append e t ≡ ok (b, u) → IsWellFormed u
append-IsWellFormed e t u b w h = elim (append-cases e t w.sorted) [
  | inl (taken, r) ↦ subst IsWellFormed (ap (λ p. p.1) (ok-injective (sym r ∙ h))) w
  | inr (new_id, new_name, r) ↦
      let step =
        >>=-eq-ok (validate_union_member e t) (λ p. ok (true, add_member p.0 p.1 t)) (sym r ∙ h) in
      let (f, n) = step.0 in
      let keeps = validate_union_member-keeps e t f n step.1 in
      subst IsWellFormed (ap (λ p. p.1) (ok-injective step.2)) (
        add_member-IsWellFormed f n t w (rw keeps.0 new_id)
          (All-map (λ g differs same. differs (same ∙ keeps.1)) t.members_in_id_order new_name))
]

pub All-has_name : (n : Text) (fs : List Field) → All (λ g. g.name ≢ n) fs → has_name n fs ≡ false
unfolding has_name
All-has_name n [] h = refl
All-has_name n (f ∷ fs) h = elim (Bool-cases (text_eq f.name n)) [
  | inl same ↦ absurd (h.0 ((text_eq_iff f.name n).0 same))
  | inr differ ↦ rw (differ, All-has_name n fs h.1)
]

-- The id or the name of a field is taken in a struct.
unfoldable pub conflicts : Field → Struct → Bool
conflicts e t = has_id e.key t.members_in_id_order || has_name e.name t.members_in_id_order

add_member-members :
    (f : Field) (n : ℕ) (t : Struct) → (add_member f n t).members ≡ t.members ++ f ∷ []
unfolding add_member
add_member-members f n t = refl

-- On a well-formed struct, an append that does not throw answers false, and leaves the struct,
-- exactly where the id or the name of the field is taken; otherwise it answers true, and the field,
-- perhaps relaxed to optional, is the last member.
pub append_answer :
    (e : Field) (t u : Struct) (b : Bool)
    → IsWellFormed t
    → append e t ≡ ok (b, u)
    → ((conflicts e t ≡ true) × (b ≡ false) × (u ≡ t))
      ⊎ ((conflicts e t ≡ false)
          × (b ≡ true)
          × ((f : Field) × (u.members ≡ t.members ++ f ∷ []) × ((f ≡ e) ⊎ (f ≡ relax e))))
unfolding conflicts
append_answer e t u b w h = elim (append-cases e t w.sorted) [
  | inl (taken, r) ↦
      let both = ok-injective (sym h ∙ r) in inl (taken, ap (λ p. p.0) both, ap (λ p. p.1) both)
  | inr (new_id, new_name, r) ↦
      let step =
        >>=-eq-ok (validate_union_member e t) (λ p. ok (true, add_member p.0 p.1 t)) (sym r ∙ h) in
      let (f, n) = step.0 in
      let both = ok-injective step.2 in
      inr (
        rw (new_id, All-has_name e.name t.members_in_id_order new_name),
        sym (ap (λ p. p.0) both),
        (
          f,
          ap (λ p. p.1.members) (sym both) ∙ add_member-members f n t,
          validate_union_member-cases e t f n step.1,
        ),
      )
]

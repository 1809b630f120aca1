-- ===== src/Parse/Grammar/FieldKeys.antt =====
-- The keys that the fields of a list get, and when a list is accepted.
use sparsam.Base.{
  ℕ, zero, suc, leb, ℤ, pos, negsuc, ◌+ℤ◌, ◌≤ℤ◌, ◌<ℤ◌, ltb_ℤ, eqb_ℤ, ◌≡◌, refl, sym, ◌∙◌, ◌⊎◌, inl,
  inr, Text, text_eq, Bool, true, false, ◌&&◌, ◌||◌, not, and-false, Bool-cases, List, [], ◌∷◌,
  ◌++◌, map, any, append_assoc, append-nil, All, All-map, Option, none, some, find_char,
  if◌then◌else◌, arith,
}
use mathlib.Core.List.{map-append}
use mathlib.Core.List.Perm
use sparsam.Parse.Error.{throw, ok, ◌>>=◌, Error, already_used}
use sparsam.Parse.Types.{Field, Struct}
use sparsam.Parse.Struct.{new_struct, add_member, insert_at, upper_bound}
use sparsam.Parse.Members.Sorted.{has_id, has_id-above, insert_at-All}
use sparsam.Parse.Members.WellFormed.{
  IsWellFormed, has_name, append-cases, append-plain, append-IsWellFormed, All-has_name,
}
use sparsam.Parse.ConstValue.{ConstValue}
use sparsam.Parse.Grammar.{
  int32_max, to_int32, FieldSource, FieldList, no_fields, field, no_attributes, FieldId,
  field_identifier, Settings, bare_field, with_value, make_field, append_field, fields_onto,
  field_list, validate_simple_identifier,
}
use sparsam.Parse.Grammar.EnumValues.{to_int32-eq}

-- Fields without xsd_attrs.
pub plain : List FieldSource → FieldList
plain [] = no_fields
plain (f ∷ fs) = field f no_attributes (plain fs)

-- The key that counts as given: one that is not positive is replaced.
abbrev pub given : Option ℤ → Option ℤ
given none = none
given (some n) = if ltb_ℤ (pos 0) n then some n else none

abbrev pub key_from : Option ℤ → ℤ → ℤ
key_from none y = y
key_from (some n) y = n

abbrev pub next_from : Option ℤ → ℤ → ℤ
next_from none y = y +ℤ negsuc 0
next_from (some n) y = y

-- The keys and names in their order, where `y` is the next key for a field that has none.
pub keyed : List FieldSource → ℤ → List (ℤ × Text)
keyed [] y = []
keyed (f ∷ fs) y =
    (key_from (given f.identifier) y, f.name) ∷ keyed fs (next_from (given f.identifier) y)

abbrev pub is_taken : Option ℤ → List ℤ → Bool
is_taken none ks = false
is_taken (some n) ks = any (λ k. eqb_ℤ k n) ks

abbrev pub with_key : Option ℤ → List ℤ → List ℤ
with_key none ks = ks
with_key (some n) ks = n ∷ ks

-- No given key and no name stands twice, nor among those before.
unfoldable pub distinct : List FieldSource → List ℤ → List Text → Bool
distinct [] ks ns = true
distinct (f ∷ fs) ks ns =
    not (is_taken (given f.identifier) ks || any (λ n. text_eq n f.name) ns)
    && distinct fs (with_key (given f.identifier) ks) (f.name ∷ ns)

abbrev pub key_name : Field → ℤ × Text
key_name h = (h.key, h.name)

-- Without a default, with a name that has no dot, and with no key above 32 bits.
abbrev pub IsSimple : FieldSource → Type 0
IsSimple f =
    (f.value ≡ none)
    × (find_char b'.' f.name ≡ none)
    × ((n : ℤ) → f.identifier ≡ some n → n ≤ℤ int32_max)

any-insert_at :
    (P : Field → Bool) (i : ℕ) (e : Field) (fs : List Field)
    → any P (insert_at i e fs) ≡ (P e || any P fs)
unfolding insert_at
any-insert_at P zero e fs = refl
any-insert_at P (suc i) e [] = refl
any-insert_at P (suc i) e (f ∷ fs) = ground (arith, any-insert_at P i e fs)

abbrev IsPositive : Option ℤ → Type 0
IsPositive none = Unit {0}
IsPositive (some n) = pos 0 <ℤ n

given-IsPositive : (o : Option ℤ) → IsPositive (given o)
given-IsPositive none = tt
given-IsPositive (some n) = elim (Bool-cases (ltb_ℤ (pos 0) n)) [
  | inl positive ↦ rw positive (ground arith)
  | inr other ↦ rw other tt
]

positive-to_int32 : (n : ℤ) → ltb_ℤ (pos 0) n ≡ true → n ≤ℤ int32_max → to_int32 n ≡ n
positive-to_int32 n positive h = to_int32-eq n (ground arith, h)

-- What FieldIdentifier does where no key is allowed that is not positive.
identifier-cases :
    (neg : Bool) (o : Option ℤ) (y : ℤ)
    → neg ≡ false
    → ((n : ℤ) → o ≡ some n → n ≤ℤ int32_max)
    → (b : Bool) × (field_identifier neg o y
        ≡ (record { value = key_from (given o) y; auto_assigned = b }, next_from (given o) y))
unfolding field_identifier
identifier-cases neg none y none_allowed h = (true, refl)
identifier-cases neg (some n) y none_allowed h = elim (Bool-cases (ltb_ℤ (pos 0) n)) [
  | inl positive ↦ (false, rw (positive, positive-to_int32 n positive (h n refl)) refl)
  | inr other ↦ (true, rw (other, none_allowed) refl)
]

simple-accepted :
    (name : Text) → find_char b'.' name ≡ none → validate_simple_identifier name ≡ ok tt
unfolding validate_simple_identifier
simple-accepted name simple = rw (simple, validate_simple_identifier) refl

-- What the members so far tell of the fields before: their keys that were given, their names, and
-- that the next implicit key, which is negative, is below all of them.
record Holds (ks : List ℤ) (ns : List Text) (y : ℤ) (t : Struct) : Type 0 where
  well : IsWellFormed t
  plain_struct : t.is_union ≡ false
  ids : (k : ℤ) → pos 0 <ℤ k → has_id k t.members_in_id_order ≡ any (λ j. eqb_ℤ j k) ks
  names : (n : Text) → has_name n t.members_in_id_order ≡ any (λ m. text_eq m n) ns
  above : All (λ h. y <ℤ h.key) t.members_in_id_order
  negative : y <ℤ pos 0

key-taken :
    (o : Option ℤ) (ks : List ℤ) (ns : List Text) (y : ℤ) (t : Struct)
    → IsPositive o
    → Holds ks ns y t
    → has_id (key_from o y) t.members_in_id_order ≡ is_taken o ks
key-taken none ks ns y t p h = has_id-above y t.members_in_id_order h.above
key-taken (some n) ks ns y t p h = h.ids n p

key-ids :
    (o : Option ℤ) (ks : List ℤ) (y k : ℤ)
    → IsPositive o
    → y <ℤ pos 0
    → pos 0 <ℤ k
    → (eqb_ℤ (key_from o y) k || any (λ j. eqb_ℤ j k) ks) ≡ any (λ j. eqb_ℤ j k) (with_key o ks)
key-ids none ks y k p low high = ground arith
key-ids (some n) ks y k p low high = refl

next-below :
    (o : Option ℤ) (y : ℤ)
    → IsPositive o
    → y <ℤ pos 0
    → (next_from o y <ℤ key_from o y) × (next_from o y ≤ℤ y)
next-below none y p low = (ground arith, ground arith)
next-below (some n) y p low = (omega arith, omega arith)

add_member-Holds :
    (o : Option ℤ) (e : Field) (ks : List ℤ) (ns : List Text) (y : ℤ) (t : Struct)
    → IsPositive o
    → e.key ≡ key_from o y
    → Holds ks ns y t
    → IsWellFormed (add_member e t.members_with_value t)
    → Holds (with_key o ks) (e.name ∷ ns) (next_from o y) (add_member e t.members_with_value t)
unfolding add_member has_id has_name
add_member-Holds o e ks ns y t p key h well = record {
  well = well;
  plain_struct = h.plain_struct;
  ids = λ k high.
      any-insert_at (λ g. eqb_ℤ g.key k) (upper_bound e.key t.members_in_id_order) e
        t.members_in_id_order
      ∙ rw (key, h.ids k high) (key-ids o ks y k p h.negative high);
  names = λ n.
      any-insert_at (λ g. text_eq g.name n) (upper_bound e.key t.members_in_id_order) e
        t.members_in_id_order
      ∙ rw (h.names n) refl;
  above =
      let below = next-below o y p h.negative in
      insert_at-All (λ g. next_from o y <ℤ g.key) (upper_bound e.key t.members_in_id_order) e
        t.members_in_id_order (rw key below.0)
        (All-map (λ g lower. ground (arith, below.1)) t.members_in_id_order h.above);
  negative = let below = next-below o y p h.negative in ground (arith, below.1, h.negative);
}

module _ (g : Settings) (lenient : leb 192 g.g_strict ≡ false) where
  with_value-none : (v : Option ConstValue) (f : Field) → v ≡ none → with_value g v f ≡ ok f
  unfolding with_value
  with_value-none none f h = refl
  with_value-none (some v) f h = cc

  make_field-plain :
      (f : FieldSource) (id : FieldId)
      → IsSimple f
      → make_field g f id ≡ ok (bare_field g f id.value)
  unfolding make_field
  make_field-plain f id (bare, simple, fits) =
      rw (lenient, and-false id.auto_assigned, simple-accepted f.name simple)
        (with_value-none f.value (bare_field g f id.value) bare)

  -- One field behind the others.
  append_field-cases :
      (o : Option ℤ) (e : Field) (ks : List ℤ) (ns : List Text) (y : ℤ) (t : Struct)
      → IsPositive o
      → e.key ≡ key_from o y
      → Holds ks ns y t
      → (((is_taken o ks || any (λ m. text_eq m e.name) ns) ≡ true)
          × (append_field g e t ≡ throw (already_used e.key e.name)))
        ⊎ (((is_taken o ks || any (λ m. text_eq m e.name) ns) ≡ false)
            × (append_field g e t ≡ ok (add_member e t.members_with_value t))
            × Holds
                (with_key o ks)
                (e.name ∷ ns)
                (next_from o y)
                (add_member e t.members_with_value t))
  unfolding append_field
  append_field-cases o e ks ns y t p key h =
      let id = key-taken o ks ns y t p h in
      elim (append-cases e t h.well.sorted) [
        | inl (taken, r) ↦ inl (rw (sym id, sym (h.names e.name), sym key) taken, rw r refl)
        | inr (new_id, new_name, r) ↦
            let done = append-plain e t h.plain_struct r in
            inr (
              rw (sym id, sym (h.names e.name), sym key, new_id)
                  (All-has_name e.name t.members_in_id_order new_name),
              rw done refl,
              add_member-Holds o e ks ns y t p key h
                  (append-IsWellFormed e t (add_member e t.members_with_value t) true h.well done),
            )
      ]

  module _ (positive_only : g.g_allow_neg_field_keys ≡ false) where
    -- The run of the first field of a list.
    fields_onto-cons :
        (f : FieldSource) (fs : List FieldSource) (y : ℤ) (t : Struct)
        → IsSimple f
        → fields_onto g (plain (f ∷ fs)) y t ≡ (
            append_field g (bare_field g f (key_from (given f.identifier) y)) t
            >>= (λ u. fields_onto g (plain fs) (next_from (given f.identifier) y) u))
    unfolding fields_onto plain
    fields_onto-cons f fs y t s =
        let (b, found) =
          identifier-cases g.g_allow_neg_field_keys f.identifier y positive_only s.2 in
        rw
          (
            found,
            make_field-plain f
                (record { value = key_from (given f.identifier) y; auto_assigned = b }) s,
          )
          refl

    add_member-key_names :
        (e : Field) (n : ℕ) (t : Struct) (rest : List (ℤ × Text))
        → map key_name (add_member e n t).members ++ rest
          ≡ map key_name t.members ++ (e.key, e.name) ∷ rest
    unfolding add_member
    add_member-key_names e n t rest =
        rw (map-append key_name t.members (e ∷ []))
          (append_assoc (map key_name t.members) ((e.key, e.name) ∷ []) rest)

    -- What a list of fields comes to, behind the fields that a struct has.
    fields_onto-cases :
        (fs : List FieldSource) (ks : List ℤ) (ns : List Text) (y : ℤ) (t : Struct)
        → All IsSimple fs
        → Holds ks ns y t
        → ((distinct fs ks ns ≡ true)
            × ((u : Struct) × (z : ℤ) × (fields_onto g (plain fs) y t ≡ ok (u, z))
                × (map key_name u.members ≡ map key_name t.members ++ keyed fs y)
                × IsWellFormed u))
          ⊎ ((distinct fs ks ns ≡ false) × ((e : Error) × (fields_onto g (plain fs) y t ≡ throw e)))
    unfolding fields_onto plain keyed distinct
    fields_onto-cases [] ks ns y t s h =
        inl (refl, (t, y, refl, sym (append-nil (map key_name t.members)), h.well))
    fields_onto-cases (f ∷ fs) ks ns y t (simple, s) h =
        let o = given f.identifier in
        let e = bare_field g f (key_from o y) in
        let run = fields_onto-cons f fs y t simple in
        elim (append_field-cases o e ks ns y t (given-IsPositive f.identifier) refl h) [
          | inl (taken, thrown) ↦
              inr (rw taken refl, (already_used e.key e.name, run ∙ rw thrown refl))
          | inr (free, added, next) ↦
              let u = add_member e t.members_with_value t in
              elim (fields_onto-cases fs (with_key o ks) (f.name ∷ ns) (next_from o y) u s next) [
                | inl (apart, (v, z, r, keys, well)) ↦ inl (
                  rw (free, apart) refl,
                  (
                    v,
                    z,
                    run ∙ rw (added, r) refl,
                    keys ∙ add_member-key_names e t.members_with_value t (keyed fs (next_from o y)),
                    well,
                  ),
                )
                | inr (twice, (x, r)) ↦ inr (rw (free, twice) refl, (x, run ∙ rw (added, r) refl))
              ]
        ]

    -- The list from its start.
    empty-Holds : Holds [] [] (negsuc 0) (new_struct [])
    unfolding has_id has_name new_struct
    empty-Holds = record {
      well = record { sorted = tt; names = tt; same = Perm.refl [] };
      plain_struct = refl;
      ids = λ k high. refl;
      names = λ n. refl;
      above = tt;
      negative = omega arith;
    }

    -- Where keys that are not positive are replaced and implicit ones are allowed, a list of fields
    -- without defaults and xsd_attrs, with names that have no dot and keys that fit into 32 bits,
    -- is accepted exactly when no name and no positive key stands in it twice: its members are then
    -- the fields in their order with those keys, and -1, -2, ... for the fields that have none, and
    -- they are sorted by id and free of double ids and names. Otherwise it is refused.
    pub field_list-keyed :
        (fs : List FieldSource)
        → All IsSimple fs
        → ((distinct fs [] [] ≡ true)
            × ((t : Struct) × (y : ℤ) × (field_list g (plain fs) ≡ ok (t, y))
                × (map key_name t.members ≡ keyed fs (negsuc 0))
                × IsWellFormed t))
          ⊎ ((distinct fs [] [] ≡ false) × ((e : Error) × (field_list g (plain fs) ≡ throw e)))
    unfolding field_list new_struct
    field_list-keyed fs s = fields_onto-cases fs [] [] (negsuc 0) (new_struct []) s empty-Holds

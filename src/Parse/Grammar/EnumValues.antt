-- ===== src/Parse/Grammar/EnumValues.antt =====
-- The values that an enumeration gets.
use sparsam.Base.{
  ℤ, pos, negsuc, ◌+ℤ◌, ◌≤ℤ◌, ltb_ℤ, eqb_ℤ, ◌≡◌, sym, ap, ◌∙◌, inl, inr, Text, false, ◌||◌,
  Bool-cases, List, [], ◌∷◌, ◌++◌, append_assoc, append-nil, All, Option, none, some, subst, arith,
}
use sparsam.Parse.Error.{ok, >>=-eq-ok, ok-injective}
use sparsam.Parse.Enum.{Enum, EnumValue}
use sparsam.Parse.Enum
use sparsam.Parse.Grammar.{
  int32_min, int32_max, to_int32, ValueSource, enum_number, enum_values, enum_definition,
  validate_simple_identifier,
}

abbrev pub IsInt32 : ℤ → Type 0
IsInt32 n = (int32_min ≤ℤ n) × (n ≤ℤ int32_max)

pub to_int32-eq : (n : ℤ) → IsInt32 n → to_int32 n ≡ n
unfolding to_int32
to_int32-eq (pos n) h = ground arith
to_int32-eq (negsuc n) h = ground arith

-- The number that a value has, after one that has the number `last`.
abbrev pub number_after : ℤ → Option ℤ → ℤ
number_after last none = last +ℤ pos 1
number_after last (some n) = n

-- The values as they are written, each with its number.
pub numbered : List ValueSource → ℤ → List EnumValue
numbered [] last = []
numbered (v ∷ vs) last =
    let n = number_after last v.number in
    record { name = v.name; value = n; doc = v.doc } ∷ numbered vs n

given-ok :
    (name : Text) (n last m : ℤ) → enum_number name (some n) last ≡ ok m → (m ≡ n) × IsInt32 m
unfolding enum_number
given-ok name n last m h = elim (Bool-cases (ltb_ℤ n int32_min || ltb_ℤ int32_max n)) [
  | inl wide ↦ absurd (cc (rw wide at h))
  | inr fits ↦
      let inside : IsInt32 n = ground arith in
      let same : m ≡ n = sym (ok-injective (rw fits at h)) ∙ to_int32-eq n inside in
      (same, subst IsInt32 (sym same) inside)
]

next-IsInt32 : (last : ℤ) → IsInt32 last → eqb_ℤ last int32_max ≡ false → IsInt32 (last +ℤ pos 1)
next-IsInt32 (pos n) h k = ground arith
next-IsInt32 (negsuc n) h k = ground arith

next-ok :
    (name : Text) (last m : ℤ)
    → IsInt32 last
    → enum_number name none last ≡ ok m
    → (m ≡ last +ℤ pos 1) × IsInt32 m
unfolding enum_number
next-ok name last m fits h =
    let step = >>=-eq-ok (validate_simple_identifier name) _ h in
    elim (Bool-cases (eqb_ℤ last int32_max)) [
      | inl full ↦ absurd (cc (rw full at step.2))
      | inr room ↦
          let same : m ≡ last +ℤ pos 1 = sym (ok-injective (rw room at step.2)) in
          (same, subst IsInt32 (sym same) (next-IsInt32 last fits room))
    ]

number-ok :
    (name : Text) (o : Option ℤ) (last m : ℤ)
    → IsInt32 last
    → enum_number name o last ≡ ok m
    → (m ≡ number_after last o) × IsInt32 m
number-ok name none last m fits h = next-ok name last m fits h
number-ok name (some n) last m fits h = given-ok name n last m h

values-ok :
    (vs : List ValueSource) (last : ℤ) (e d : Enum)
    → IsInt32 last
    → enum_values vs last e ≡ ok d
    → (d.constants ≡ e.constants ++ numbered vs last)
      × All (λ c. IsInt32 c.value) (numbered vs last)
unfolding enum_values numbered Enum.append
values-ok [] last e d fits h =
    (ap (λ (x : Enum). x.constants) (sym (ok-injective h)) ∙ sym (append-nil e.constants), tt)
values-ok (v ∷ vs) last e d fits h =
    let step = >>=-eq-ok (enum_number v.name v.number last) _ h in
    let (same, inside) = number-ok v.name v.number last step.0 fits step.1 in
    let n : ℤ = number_after last v.number in
    let kept : IsInt32 n = subst IsInt32 same inside in
    let went : enum_values vs n (Enum.append (record { name = v.name; value = n; doc = v.doc }) e)
        ≡ ok d =
      subst
        (λ x.
          enum_values vs x (Enum.append (record { name = v.name; value = x; doc = v.doc }) e)
          ≡ ok d)
        same step.2 in
    let rest = values-ok vs n _ d kept went in
    (
      rest.0 ∙ append_assoc e.constants (record { name = v.name; value = n; doc = v.doc } ∷ []) _,
      (kept, rest.1),
    )

-- An enumeration that is accepted has its name and its values in the order in which they are
-- written: with the number that is given, and without one the number of the value before it and
-- one, or 0 for the first. All numbers are within 32 bits.
pub enum_definition-numbered :
    (name : Text) (vs : List ValueSource) (e : Enum)
    → enum_definition name vs ≡ ok e
    → (e.name ≡ name)
      × (e.constants ≡ numbered vs (negsuc 0))
      × All (λ c. IsInt32 c.value) e.constants
unfolding enum_definition
enum_definition-numbered name vs e h =
    let first = >>=-eq-ok (enum_values vs (negsuc 0) (record { name = []; constants = [] })) _ h in
    let second = >>=-eq-ok (validate_simple_identifier name) _ first.2 in
    let whole = ok-injective second.2 in
    let made =
      values-ok vs (negsuc 0) (record { name = []; constants = [] }) first.0
        (omega arith, omega arith) first.1 in
    let same : e.constants ≡ numbered vs (negsuc 0) =
      ap (λ (x : Enum). x.constants) (sym whole) ∙ made.0 in
    (
      ap (λ (x : Enum). x.name) (sym whole),
      same,
      subst (All (λ c. IsInt32 c.value)) (sym same) made.1,
    )

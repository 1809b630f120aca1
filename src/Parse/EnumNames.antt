-- ===== src/Parse/EnumNames.antt =====
-- The names that the resolution gives to numbers of an enumeration, before the validation.
use sparsam.Base.{
  ℕ, ◌==◌, ℤ, eqb_ℤ, Text, text_eq, text_eq_self, Dict, ◌≡◌, refl, ap, subst, ◌++◌, [], ◌∷◌, Option,
  none, some, List, All, any, length, true, Bool-cases, Option-cases, inl, inr, find_char, or-true,
}
use sparsam.Parse.Error.{ok, ok-injective}
use sparsam.Parse.Enum.{Enum, EnumValue, constant_by_value, get_constant_by_value}
use sparsam.Parse.ConstValue.{
  ConstValue, identifier, after_dot, get_identifier, get_identifier_name, get_type,
}
use sparsam.Parse.Types.{Const, Store}
use sparsam.Parse.Scope.{name_value}
use sparsam.Parse.Validate.{validate_enum}
use sparsam.Parse.EnumLookup.{some_inj, by_value-All, drop-qualified}

-- A name without a dot.
abbrev IsPlain : Text → Type 0
IsPlain n = find_char b'.' n ≡ none

find_char-qualified : (s n : Text) → IsPlain s → find_char b'.' (s ++ b'.' ∷ n) ≡ some (length s)
unfolding find_char
find_char-qualified [] n h = refl
find_char-qualified (a ∷ s) n h = elim (Bool-cases (a == b'.')) [
  | inl dot ↦ cc (rw dot at h)
  | inr other ↦ elim (Option-cases (find_char b'.' s)) [
    | inl plain ↦ rw (other, find_char-qualified s n plain) refl
    | inr (i, found) ↦ cc (rw (other, found) at h)
  ]
]

after_dot-qualified : (s n : Text) → IsPlain s → after_dot (s ++ b'.' ∷ n) ≡ some n
unfolding after_dot
after_dot-qualified s n h = rw (find_char-qualified s n h, after_dot) (ap some (drop-qualified s n))

after_dot-plain : (n : Text) → IsPlain n → after_dot n ≡ none
unfolding after_dot
after_dot-plain n h = rw (h, after_dot) refl

-- The name behind the enumeration's.
name_of-qualified :
    (s n : Text) (e : Option Enum)
    → IsPlain s
    → IsPlain n
    → get_identifier_name (identifier (s ++ b'.' ∷ n) e) ≡ ok n
unfolding get_identifier_name get_identifier
name_of-qualified s n e h k =
    rw (after_dot-qualified s n h, get_identifier_name, after_dot-plain n k) refl

by_value-any :
    (v : ℤ) (cs : List EnumValue) (c : EnumValue)
    → constant_by_value v cs ≡ some c
    → any (λ d. text_eq d.name c.name) cs ≡ true
unfolding constant_by_value
by_value-any v [] c h = cc
by_value-any v (d ∷ cs) c h = elim (Bool-cases (eqb_ℤ d.value v)) [
  | inl same ↦
      subst (λ x. any (λ y. text_eq y.name x.name) (d ∷ cs) ≡ true) (some_inj (rw same at h))
        (rw (text_eq_self d.name) refl)
  | inr differ ↦
      let later = by_value-any v cs c (rw differ at h) in rw later (or-true (text_eq d.name c.name))
]

validate_enum-named :
    (name : Text) (e : Enum) (c : EnumValue)
    → IsPlain e.name
    → IsPlain c.name
    → any (λ d. text_eq d.name c.name) e.constants ≡ true
    → validate_enum name e (identifier (e.name ++ b'.' ∷ c.name) (some e)) ≡ ok tt
unfolding validate_enum get_type
validate_enum-named name e c h k found =
    rw (name_of-qualified e.name c.name (some e) h k) (rw found refl)

-- The name that resolve_const_value gives to a number of an enumeration passes the validation for
-- the enumeration, where neither its name nor those of its constants have a dot.
validate_enum-name_value :
    (st : Store) (fuel : ℕ) (constants : Dict Text Const) (n : ℤ) (e : Enum) (w : ConstValue)
    (name : Text)
    → IsPlain e.name
    → All (λ c. IsPlain c.name) e.constants
    → name_value st fuel constants n e ≡ ok w
    → validate_enum name e w ≡ ok tt
unfolding name_value get_constant_by_value
validate_enum-name_value st fuel constants n e w name h k r =
    elim (Option-cases (constant_by_value n e.constants)) [
      | inl missing ↦ cc (rw (missing, name_value) at r)
      | inr (c, found) ↦
          subst (λ x. validate_enum name e x ≡ ok tt) (ok-injective (rw (found, name_value) at r))
            (validate_enum-named name e c h
              (by_value-All (λ d. IsPlain d.name) n e.constants c found k)
              (by_value-any n e.constants c found))
    ]

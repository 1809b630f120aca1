-- ===== src/Parse/EnumLookup.antt =====
-- The constants of an enumeration by value and by name, and the identifier that the resolution makes
-- of a number.
use sparsam.Base.{
  ℕ, suc, ℤ, eqb_ℤ, eqb_ℤ_iff, Text, text_eq, text_eq_iff, text_eq_self, Dict, ◌≡◌, ◌≢◌, refl, sym,
  ap, subst, ◌∙◌, ◌++◌, [], ◌∷◌, none, some, List, All, length, Bool-cases, Option-cases, inl, inr,
  rfind_char, drop,
}
use sparsam.Parse.Error.{ok, ok-injective}
use sparsam.Parse.Enum.{
  Enum, EnumValue, constant_by_value, constant_by_name, get_constant_by_value, get_constant_by_name,
}
use sparsam.Parse.ConstValue.{ConstValue, get_integer, after_last_dot, enum_integer}
use sparsam.Parse.Types.{Const, Store}
use sparsam.Parse.Scope.{name_value}

-- No two constants share a name.
abbrev pub UniqueConstants : List EnumValue → Type 0
UniqueConstants [] = Unit {0}
UniqueConstants (c ∷ cs) = All (λ d. c.name ≢ d.name) cs × UniqueConstants cs

-- No constant has a dot in its name.
abbrev pub IsDotless : EnumValue → Type 0
IsDotless c = rfind_char b'.' c.name ≡ none

pub some_inj {ℓ} : {A : Type ℓ} {a b : A} → some a ≡ some b → a ≡ b
some_inj h = cc

pub by_value-All {κ} :
    (P : EnumValue → Type κ) (v : ℤ) (cs : List EnumValue) (c : EnumValue)
    → constant_by_value v cs ≡ some c
    → All P cs
    → P c
unfolding constant_by_value
by_value-All P v [] c h a = absurd cc
by_value-All P v (d ∷ cs) c h a = elim (Bool-cases (eqb_ℤ d.value v)) [
  | inl same ↦ subst P (some_inj (rw same at h)) a.0
  | inr differ ↦ by_value-All P v cs c (rw differ at h) a.1
]

by_value-value :
    (v : ℤ) (cs : List EnumValue) (c : EnumValue) → constant_by_value v cs ≡ some c → c.value ≡ v
unfolding constant_by_value
by_value-value v [] c h = cc
by_value-value v (d ∷ cs) c h = elim (Bool-cases (eqb_ℤ d.value v)) [
  | inl same ↦ ap (λ x. x.value) (sym (some_inj (rw same at h))) ∙ (eqb_ℤ_iff d.value v).0 same
  | inr differ ↦ by_value-value v cs c (rw differ at h)
]

-- The constant found by a value is the constant found by its name.
by_value-by_name :
    (v : ℤ) (cs : List EnumValue) (c : EnumValue)
    → UniqueConstants cs
    → constant_by_value v cs ≡ some c
    → constant_by_name c.name cs ≡ some c
unfolding constant_by_value constant_by_name
by_value-by_name v [] c u h = cc
by_value-by_name v (d ∷ cs) c u h = elim (Bool-cases (eqb_ℤ d.value v)) [
  | inl same ↦
      subst (λ x. constant_by_name x.name (d ∷ cs) ≡ some x) (some_inj (rw same at h))
        (rw (text_eq_self d.name) refl)
  | inr differ ↦
      let later = rw differ at h in
      elim (Bool-cases (text_eq d.name c.name)) [
        | inl equal ↦ absurd (
            by_value-All (λ x. d.name ≢ x.name) v cs c later u.0
              ((text_eq_iff d.name c.name).0 equal))
        | inr other ↦ rw other (by_value-by_name v cs c u.1 later)
      ]
]

rfind-qualified :
    (s n : Text) → rfind_char b'.' n ≡ none → rfind_char b'.' (s ++ b'.' ∷ n) ≡ some (length s)
unfolding rfind_char
rfind-qualified [] n h = rw h refl
rfind-qualified (a ∷ s) n h = rw (rfind-qualified s n h) refl

pub drop-qualified : (s n : Text) → drop (suc (length s)) (s ++ b'.' ∷ n) ≡ n
drop-qualified [] n = refl
drop-qualified (a ∷ s) n = drop-qualified s n

after_last_dot-qualified :
    (s n : Text) → rfind_char b'.' n ≡ none → after_last_dot (s ++ b'.' ∷ n) ≡ n
unfolding after_last_dot
after_last_dot-qualified s n h = rw (rfind-qualified s n h, after_last_dot) (drop-qualified s n)

pub enum_integer-found :
    (n : Text) (e : Enum) (c : EnumValue)
    → constant_by_name n e.constants ≡ some c
    → enum_integer n e ≡ ok c.value
unfolding get_constant_by_name enum_integer
enum_integer-found n e c h = rw (h, enum_integer) refl

-- A number that resolve_const_value turns into the name of a constant of an enumeration is the
-- number that get_integer reads back from the name, where no two constants of the enumeration share
-- a name and no name has a dot.
pub get_integer-name_value :
    (st : Store) (fuel : ℕ) (constants : Dict Text Const) (n : ℤ) (e : Enum) (w : ConstValue)
    → UniqueConstants e.constants
    → All IsDotless e.constants
    → name_value st fuel constants n e ≡ ok w
    → get_integer w ≡ ok n
unfolding name_value get_integer get_constant_by_value
get_integer-name_value st fuel constants n e w u dots h =
    elim (Option-cases (constant_by_value n e.constants)) [
      | inl missing ↦ cc (rw (missing, name_value) at h)
      | inr (c, found) ↦
          subst (λ x. get_integer x ≡ ok n) (ok-injective (rw (found, name_value) at h))
            (ap (λ s. enum_integer s e)
                (after_last_dot-qualified e.name c.name
                  (by_value-All IsDotless n e.constants c found dots))
              ∙ (enum_integer-found c.name e c (by_value-by_name n e.constants c u found)
                  ∙ ap ok (by_value-value n e.constants c found)))
    ]

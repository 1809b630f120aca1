-- ===== src/Audit/Verdict/Enums.antt =====
-- compare_enums: an enumeration breaks if it still exists and lost a value.
use sparsam.Base.{
  Text, text_eq, eqb_ℤ, ◌≡◌, refl, sym, ◌∙◌, Bool, true, false, not, ◌||◌, List, [], ◌∷◌, Option,
  none, some, any, find-index, last_named, or_assoc, or-false, or-true, arith,
}
use sparsam.Parse.Enum.{Enum, EnumValue, get_constant_by_value, constant_by_value}
use sparsam.Audit.Log.{Log}
use sparsam.Audit.Enums.{
  compare_enum_value, compare_constants, compare_enum_values, compare_enum_named, compare_enums,
}
use sparsam.Audit.Verdict.Flag.{flagged, flagged-failure, flagged-warning, flagged-when_warning}

-- No constant of the enumeration has that value.
unfoldable pub value_missing : Enum → EnumValue → Bool
value_missing new o = not (any (λ n. eqb_ℤ n.value o.value) new.constants)

unfoldable pub enum_breaks : Option Enum → Enum → Bool
enum_breaks none old = false
enum_breaks (some new) old = any (value_missing new) old.constants

unfoldable pub enums_break : List Enum → List Enum → Bool
enums_break news olds = any (λ o. enum_breaks (last_named (λ n. n.name) o.name none news) o) olds

abbrev is_none {ℓ} : {A : Type ℓ} → Option A → Bool
is_none none = true
is_none (some a) = false

constant_by_value-any :
    (o : EnumValue) (cs : List EnumValue)
    → is_none (constant_by_value o.value cs) ≡ not (any (λ n. eqb_ℤ n.value o.value) cs)
unfolding constant_by_value
constant_by_value-any o [] = refl
constant_by_value-any o (c ∷ cs) = ground (arith, constant_by_value-any o cs)

flagged-compare_enum_value :
    (n : Option EnumValue) (o : EnumValue) (name : Text) (s : Log)
    → flagged (compare_enum_value n o name s) ≡ (flagged s || is_none n)
unfolding compare_enum_value
flagged-compare_enum_value none o name s = rw flagged-failure (sym (or-true (flagged s)))
flagged-compare_enum_value (some n) o name s =
    flagged-when_warning (not (text_eq o.name n.name)) 1 _ s ∙ sym (or-false (flagged s))

flagged-compare_constants :
    (new : Enum) (name : Text) (os : List EnumValue) (s : Log)
    → flagged (compare_constants new name os s) ≡ (flagged s || any (value_missing new) os)
unfolding compare_constants value_missing get_constant_by_value
flagged-compare_constants new name [] s = sym (or-false (flagged s))
flagged-compare_constants new name (o ∷ os) s =
    flagged-compare_constants new name os _
    ∙ rw (flagged-compare_enum_value, constant_by_value-any o new.constants)
        (or_assoc (flagged s) (value_missing new o) (any (value_missing new) os))

flagged-compare_enum_named :
    (new : Option Enum) (old : Enum) (s : Log)
    → flagged (compare_enum_named new old s) ≡ (flagged s || enum_breaks new old)
unfolding compare_enum_named enum_breaks compare_enum_values
flagged-compare_enum_named none old s = flagged-warning 1 _ s ∙ sym (or-false (flagged s))
flagged-compare_enum_named (some new) old s = flagged-compare_constants new old.name old.constants s

-- The comparison of enumerations raises the failure flag, where it was not up before, exactly when
-- an old enumeration that the new version still declares has a value that no new constant has; an
-- enumeration that is gone only warns.
pub flagged-compare_enums :
    (news olds : List Enum) (s : Log)
    → flagged (compare_enums news olds s) ≡ (flagged s || enums_break news olds)
unfolding compare_enums enums_break
flagged-compare_enums news [] s = sym (or-false (flagged s))
flagged-compare_enums news (o ∷ os) s =
    flagged-compare_enums news os _
    ∙ rw
        (
          find-index (λ (n : Enum). n.name) o.name news,
          flagged-compare_enum_named (last_named (λ n. n.name) o.name none news) o s,
        )
        (or_assoc (flagged s) (enum_breaks (last_named (λ n. n.name) o.name none news) o)
          (enums_break news os))

-- ===== src/Base/ReadDecimal.antt =====
-- Reading back the decimal digits of an integer.
use Prim.Native.Nat.{ℕ, zero, suc, ◌+◌, ◌-◌, ◌*◌, ◌/◌, ◌%◌, ◌<◌}
use mathlib.Core.Path.{◌≡◌, refl, ap, ◌∙◌}
use mathlib.Core.Logic.{inl, inr}
use mathlib.Core.Bool.{Bool, true, false, ◌&&◌}
use mathlib.Core.Option.{Option, none, some}
use mathlib.Core.List.{[], ◌∷◌, ◌++◌, append_assoc}
use native.Mathlib.Omega.{arith}
use sparsam.Base.Tests.{ltb, leb, ◌==◌, if◌then◌else◌, Bool-cases}
use sparsam.Base.Int.{ℤ, pos, negsuc}
use sparsam.Base.Strings.{Text}
use sparsam.Base.Decimal.{digits_within, digits, decimal}

unfoldable pub is_digit : ℕ → Bool
is_digit c = leb b'0' c && leb c b'9'

-- The digits at the head of a text, behind those that make up `n`.
unfoldable pub read_digits : ℕ → Text → ℕ × Text
read_digits n [] = (n, [])
read_digits n (c ∷ s) =
    let more = read_digits (n * 10 + (c - 48)) s in if is_digit c then more else (n, c ∷ s)

unfoldable pub read_ℕ : Text → Option (ℕ × Text)
read_ℕ [] = none
read_ℕ (c ∷ s) = if is_digit c then some (read_digits 0 (c ∷ s)) else none

unfoldable pub minus : ℕ → ℤ
minus zero = pos 0
minus (suc n) = negsuc n

unfoldable pub read_ℤ : Text → Option (ℤ × Text)
read_ℤ [] = none
read_ℤ (c ∷ s) =
    if c == b'-'
    then elim (read_ℕ s) [ none ↦ none | some (n, rest) ↦ some (minus n, rest) ]
    else elim (read_ℕ (c ∷ s)) [ none ↦ none | some (n, rest) ↦ some (pos n, rest) ]

-- A text whose first byte is no digit.
abbrev pub EndsDigits : Text → Type 0
EndsDigits [] = Unit
EndsDigits (c ∷ s) = is_digit c ≡ false

read-stop : (n : ℕ) (t : Text) → EndsDigits t → read_digits n t ≡ (n, t)
unfolding read_digits
read-stop n [] h = refl
read-stop n (c ∷ t) h = rw h refl

digit-IsDigit : (d : ℕ) → d < 10 → is_digit (d + 48) ≡ true
unfolding is_digit
digit-IsDigit d h = ground arith

read-digit :
    (n d : ℕ) (t : Text) → d < 10 → read_digits n ((d + 48) ∷ t) ≡ read_digits (n * 10 + d) t
unfolding read_digits
read-digit n d t h = rw (digit-IsDigit d h) (ap (λ k. read_digits k t) (omega arith))

read_digits-within :
    (f n : ℕ) (t : Text) → n < f → read_digits 0 (digits_within f n ++ t) ≡ read_digits n t
unfolding digits_within
read_digits-within zero n t h = absurd (omega arith)
read_digits-within (suc f) n t h = elim (Bool-cases (ltb n 10)) [
  | inl small ↦ rw small (read-digit 0 n t (ground arith) ∙ ap (λ k. read_digits k t) (omega arith))
  | inr large ↦
      rw (large, append_assoc)
        (read_digits-within f (n / 10) ((n % 10 + 48) ∷ t) (ground arith)
          ∙ read-digit (n / 10) (n % 10) t (omega arith)
          ∙ ap (λ k. read_digits k t) (omega arith))
]

-- The first byte of a number is a digit.
abbrev StartsDigits : Text → Type 0
StartsDigits [] = ⊥
StartsDigits (c ∷ s) = is_digit c ≡ true

within-StartsDigits : (f n : ℕ) (t : Text) → n < f → StartsDigits (digits_within f n ++ t)
unfolding digits_within
within-StartsDigits zero n t h = absurd (omega arith)
within-StartsDigits (suc f) n t h = elim (Bool-cases (ltb n 10)) [
  | inl small ↦ rw small (digit-IsDigit n (ground arith))
  | inr large ↦
      rw (large, append_assoc) (within-StartsDigits f (n / 10) ((n % 10 + 48) ∷ t) (ground arith))
]

read_ℕ-start : (s : Text) → StartsDigits s → read_ℕ s ≡ some (read_digits 0 s)
unfolding read_ℕ
read_ℕ-start [] h = absurd h
read_ℕ-start (c ∷ s) h = rw h refl

read_ℕ-digits : (n : ℕ) (t : Text) → EndsDigits t → read_ℕ (digits n ++ t) ≡ some (n, t)
unfolding digits
read_ℕ-digits n t h =
    read_ℕ-start _ (within-StartsDigits (suc n) n t (omega arith))
    ∙ ap some (read_digits-within (suc n) n t (omega arith) ∙ read-stop n t h)

digit-not_minus : (c : ℕ) → is_digit c ≡ true → (c == b'-') ≡ false
unfolding is_digit
digit-not_minus c h = ground arith

read_ℤ-start :
    (s : Text) (n : ℕ) (t : Text)
    → StartsDigits s
    → read_ℕ s ≡ some (n, t)
    → read_ℤ s ≡ some (pos n, t)
unfolding read_ℤ
read_ℤ-start [] n t h e = absurd h
read_ℤ-start (c ∷ s) n t h e = rw (digit-not_minus c h, e) refl

pub read_ℤ-decimal : (k : ℤ) (t : Text) → EndsDigits t → read_ℤ (decimal k ++ t) ≡ some (k, t)
unfolding decimal read_ℤ minus digits
read_ℤ-decimal (pos n) t h =
    read_ℤ-start _ n t (within-StartsDigits (suc n) n t (omega arith)) (read_ℕ-digits n t h)
read_ℤ-decimal (negsuc n) t h = rw (read_ℕ-digits (suc n) t h) refl

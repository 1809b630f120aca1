-- ===== src/Base/Finding.antt =====
-- The first place of a byte in a text.
use Prim.Native.Nat.{ℕ, suc, ◌<◌}
use mathlib.Core.Path.{◌≡◌, refl, sym, ap, subst}
use mathlib.Core.Logic.{inl, inr}
use mathlib.Core.Bool.{false}
use mathlib.Core.Option.{none, some}
use mathlib.Core.List.{[], ◌∷◌, ◌++◌}
use native.Mathlib.Omega.{arith}
use sparsam.Base.Tests.{◌==◌, ==_iff, Bool-cases, Option-cases}
use sparsam.Base.Lists.{length, All}
use sparsam.Base.Strings.{Text, find_char, take, drop}

pub some_injective {ℓ} : {A : Type ℓ} {a b : A} → some a ≡ some b → a ≡ b
some_injective h = cc

-- A text at the first place of a byte.
abbrev pub FirstAt : ℕ → Text → ℕ → Type 0
FirstAt c s i =
    (take i s ++ c ∷ drop (suc i) s ≡ s)
    × (find_char c (take i s) ≡ none)
    × (length (drop (suc i) s) < length s)

pub found-at : (c : ℕ) (s : Text) (i : ℕ) → find_char c s ≡ some i → FirstAt c s i
unfolding find_char
found-at c [] i h = absurd cc
found-at c (a ∷ s) i h = elim (Bool-cases (a == c)) [
  | inl same ↦
      subst (FirstAt c (a ∷ s)) (some_injective (rw same at h))
        (ap (λ b. b ∷ s) (sym ((==_iff a c).0 same)), refl, omega arith)
  | inr other ↦ elim (Option-cases (find_char c s)) [
    | inl missing ↦ absurd (cc (rw (other, missing) at h))
    | inr (j, found) ↦
        let later = found-at c s j found in
        subst (FirstAt c (a ∷ s)) (some_injective (rw (other, found) at h))
          (ap (λ t. a ∷ t) later.0, rw (other, later.1) refl, omega arith)
  ]
]

-- A text in which a byte is not found.
pub find_char-none : (c : ℕ) (s : Text) → find_char c s ≡ none → All (λ a. (a == c) ≡ false) s
unfolding find_char
find_char-none c [] h = tt
find_char-none c (a ∷ s) h = elim (Bool-cases (a == c)) [
  | inl same ↦ absurd (cc (rw same at h))
  | inr other ↦ elim (Option-cases (find_char c s)) [
    | inl missing ↦ (other, find_char-none c s missing)
    | inr (i, found) ↦ absurd (cc (rw (other, found) at h))
  ]
]

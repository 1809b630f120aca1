-- ===== src/Base/Maps.antt =====
-- std::map as an association list in the order of its keys, over any key with its two tests.
use mathlib.Core.Path.{◌≡◌, refl, ap, ◌∙◌}
use mathlib.Core.Logic.{◌↔◌, inl, inr}
use mathlib.Core.Bool.{Bool, true}
use mathlib.Core.Option.{Option, none, some}
use mathlib.Core.List.{List, [], ◌∷◌}
use native.Mathlib.Omega.{arith}
use sparsam.Base.Tests.{if◌then◌else◌, Bool-cases}
use sparsam.Base.Lists.{All}
use sparsam.Base.Int.{ℤ, ltb_ℤ, eqb_ℤ, eqb_ℤ_iff}
use sparsam.Base.Strings.{Text, text_eq, text_lt, text_eq_iff}

pub record Key {ℓ} (K : Type ℓ) : Type ℓ where
  pub eqb : K → K → Bool
  pub ltk : K → K → Bool
  pub eqb_iff : (a b : K) → (eqb a b ≡ true) ↔ (a ≡ b)

instance abbrev pub text_key : Key Text
text_key = record { eqb = text_eq; ltk = text_lt; eqb_iff = text_eq_iff }

instance abbrev pub int_key : Key ℤ
int_key = record { eqb = eqb_ℤ; ltk = ltb_ℤ; eqb_iff = eqb_ℤ_iff }

abbrev pub Dict {ℓ κ} : Type ℓ → Type κ → Type (ℓ ⊔ κ)
Dict K V = List (K × V)

module _ {ℓ κ} {K : Type ℓ} {V : Type κ} ⦃k : Key K⦄ where
  -- m.find(key)
  unfoldable pub find : K → Dict K V → Option V
  find a [] = none
  find a ((b, v) ∷ m) = if k.eqb b a then some v else find a m

  -- m[key] = value
  unfoldable pub insert : K → V → Dict K V → Dict K V
  insert a v [] = (a, v) ∷ []
  insert a v ((b, w) ∷ m) =
      if k.eqb b a
      then (a, v) ∷ m
      else if k.ltk a b
      then (a, v) ∷ (b, w) ∷ m
      else (b, w) ∷ insert a v m

  pub find-insert :
      (a c : K) (v : V) (m : Dict K V)
      → find c (insert a v m) ≡ (if k.eqb a c then some v else find c m)
  unfolding find insert
  find-insert a c v [] = refl
  find-insert a c v ((b, w) ∷ m) =
      ground (arith, k.eqb_iff a c, k.eqb_iff b a, k.eqb_iff b c, find-insert a c v m)

abbrev pub OptAll {ℓ κ} : {A : Type ℓ} → (A → Type κ) → Option A → Type κ
OptAll P none = Unit
OptAll P (some a) = P a

-- Filling a map from a vector, `for (x : xs) m[name(x)] = x`, and looking a name up afterwards.
module _ {ℓ} {V : Type ℓ} (name : V → Text) where
  unfoldable pub index_from : Dict Text V → List V → Dict Text V
  index_from m [] = m
  index_from m (x ∷ xs) = index_from (insert (name x) x m) xs

  -- The last element of that name, or `d`.
  unfoldable pub last_named : Text → Option V → List V → Option V
  last_named n d [] = d
  last_named n d (x ∷ xs) = last_named n (if text_eq (name x) n then some x else d) xs

  pub find-index_from :
      (n : Text) (m : Dict Text V) (xs : List V)
      → find n (index_from m xs) ≡ last_named n (find n m) xs
  unfolding index_from last_named
  find-index_from n m [] = refl
  find-index_from n m (x ∷ xs) =
      find-index_from n (insert (name x) x m) xs
      ∙ ap (λ d. last_named n d xs) (find-insert (name x) n x m)

  pub find-index : (n : Text) (xs : List V) → find n (index_from [] xs) ≡ last_named n none xs
  unfolding find
  find-index n xs = find-index_from n [] xs

  -- What holds of every element holds of the one found.
  pub last_named-All {κ} :
      (P : V → Type κ) (n : Text) (d : Option V) (xs : List V)
      → All P xs
      → OptAll P d
      → OptAll P (last_named n d xs)
  unfolding last_named
  last_named-All P n d [] h k = k
  last_named-All P n d (x ∷ xs) h k = elim (Bool-cases (text_eq (name x) n)) [
    | inl e ↦ rw e (last_named-All P n (some x) xs h.1 h.0)
    | inr e ↦ rw e (last_named-All P n d xs h.1 k)
  ]

-- ===== src/Audit/Verdict/Unique.antt =====
-- Lists in which no two elements share a name.
use sparsam.Base.{
  Text, text_eq, text_eq_iff, text_eq_self, ◌≡◌, ◌≢◌, refl, sym, Bool, false, List, [], ◌∷◌, Option,
  none, some, any, All, last_named, Bool-cases, inl, inr, arith,
}

pub any_none {ℓ} :
    {A : Type ℓ} (p : A → Bool) (xs : List A) → All (λ x. p x ≡ false) xs → any p xs ≡ false
any_none p [] h = refl
any_none p (x ∷ xs) h = ground (arith, h.0, any_none p xs h.1)

-- No two share a name.
module _ {A : Type 0} (name : A → Text) where
  abbrev pub UniqueBy : List A → Type 0
  UniqueBy [] = Unit {0}
  UniqueBy (x ∷ xs) = All (λ y. name x ≢ name y) xs × UniqueBy xs

  last_named-absent :
      (n : Text) (d : Option A) (xs : List A)
      → All (λ y. n ≢ name y) xs
      → last_named name n d xs ≡ d
  unfolding last_named
  last_named-absent n d [] h = refl
  last_named-absent n d (x ∷ xs) h = elim (Bool-cases (text_eq (name x) n)) [
    | inl same ↦ absurd (h.0 (sym ((text_eq_iff (name x) n).0 same)))
    | inr differ ↦ rw differ (last_named-absent n d xs h.1)
  ]

  last_named-later :
      (x : A) (xs : List A)
      → (ys : List A) → All (λ y. name x ≢ name y) ys
      → All (λ y. last_named name (name y) none xs ≡ some y) ys
      → All (λ y. last_named name (name y) none (x ∷ xs) ≡ some y) ys
  unfolding last_named
  last_named-later x xs [] h k = tt
  last_named-later x xs (y ∷ ys) h k = (
    elim (Bool-cases (text_eq (name x) (name y))) [
      | inl same ↦ absurd (h.0 ((text_eq_iff (name x) (name y)).0 same))
      | inr differ ↦ rw differ k.0
    ],
    last_named-later x xs ys h.1 k.1,
  )

  -- Every element of a list is the last of its name.
  pub last_named_self :
      (xs : List A) → UniqueBy xs → All (λ x. last_named name (name x) none xs ≡ some x) xs
  unfolding last_named
  last_named_self [] u = tt
  last_named_self (x ∷ xs) u = (
    rw (text_eq_self (name x)) (last_named-absent (name x) (some x) xs u.0),
    last_named-later x xs xs u.0 (last_named_self xs u.1),
  )

pub All-both {ℓ κ μ ν} :
    {A : Type ℓ} {P : A → Type κ} {Q : A → Type μ} {R : A → Type ν} (f : (a : A) → P a → Q a → R a)
    (xs : List A)
    → All P xs
    → All Q xs
    → All R xs
All-both f [] p q = tt
All-both f (x ∷ xs) p q = (f x p.0 q.0, All-both f xs p.1 q.1)

pub All-every {ℓ κ} : {A : Type ℓ} {P : A → Type κ} (f : (a : A) → P a) (xs : List A) → All P xs
All-every f [] = tt
All-every f (x ∷ xs) = (f x, All-every f xs)

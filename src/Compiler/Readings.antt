-- ===== src/Compiler/Readings.antt =====
-- The calls of main, in a row.
use sparsam.Base.{◌≡◌, refl}
use sparsam.Compiler.CommandLine.{Reading, out_of_fuel, crash, stop, ready, ◌>>=◌}

pub >>=-assoc :
    {A B C : Type 0} (m : Reading A) (k : A → Reading B) (l : B → Reading C)
    → ((m >>= k) >>= l) ≡ (m >>= λ a. k a >>= l)
>>=-assoc out_of_fuel k l = refl
>>=-assoc crash k l = refl
>>=-assoc (stop e) k l = refl
>>=-assoc (ready a) k l = refl

pub >>=-eq :
    {A B : Type 0} (m : Reading A) (k l : A → Reading B)
    → ((a : A) → k a ≡ l a)
    → (m >>= k) ≡ (m >>= l)
>>=-eq out_of_fuel k l h = refl
>>=-eq crash k l h = refl
>>=-eq (stop e) k l h = refl
>>=-eq (ready a) k l h = h a

-- What holds of a result, `C` of a crash, and nothing of an early end.
abbrev pub Returns : Type 0 → {A : Type 0} → (A → Type 0) → Reading A → Type 0
Returns C P out_of_fuel = ⊥
Returns C P crash = C
Returns C P (stop e) = Unit
Returns C P (ready a) = P a

module _ (C : Type 0) where
  pub >>=-Returns :
      {A B : Type 0} (P : A → Type 0) (Q : B → Type 0) (m : Reading A) (k : A → Reading B)
      → Returns C P m
      → ((a : A) → P a → Returns C Q (k a))
      → Returns C Q (m >>= k)
  >>=-Returns P Q out_of_fuel k h next = absurd h
  >>=-Returns P Q crash k h next = h
  >>=-Returns P Q (stop e) k h next = tt
  >>=-Returns P Q (ready a) k h next = next a h

  pub weaken-Returns :
      {A : Type 0} (P Q : A → Type 0) (m : Reading A)
      → Returns C P m
      → ((a : A) → P a → Q a)
      → Returns C Q m
  weaken-Returns P Q out_of_fuel h next = h
  weaken-Returns P Q crash h next = h
  weaken-Returns P Q (stop e) h next = tt
  weaken-Returns P Q (ready a) h next = next a h

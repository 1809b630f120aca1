-- ===== src/Parse/Grammar/Throws.antt =====
-- What an accepted throws block holds, told of the types themselves.
use sparsam.Base.{
  ℕ, zero, suc, Text, true, ◌≡◌, ap, ◌∙◌, List, [], ◌∷◌, All, some, Option-cases, Bool-cases, inl,
  inr,
}
use sparsam.Parse.Error.{ok, >>=-eq-ok, ok-injective}
use sparsam.Parse.Types.{
  TType, Field, Store, is_xception, base_type, typedef_type, forward_typedef, enum_type,
  struct_type, service_type, list_type, set_type, map_type,
}
use sparsam.Parse.Scope.{get_true_type}
use sparsam.Parse.Validate.{validate_throws}

-- An exception, or a name for one: a typedef of its type, or a forward one that the scope has.
pub data IsException (st : Store) : TType → Type 0 where
  declared : (a : ℕ) → (st.struct_at a).is_xception ≡ true → IsException st (struct_type a)
  renamed : (n : Text) (t : TType) → IsException st t → IsException st (typedef_type n t)
  forward :
      (p : ℕ) (n : Text) (t : TType)
      → st.scope_type p n ≡ some t
      → IsException st t
      → IsException st (forward_typedef p n)

-- No other type than a struct is one itself.
own-IsException :
    (st : Store) (t u : TType) → ok t ≡ ok u → is_xception st u ≡ true → is_xception st t ≡ true
own-IsException st t u e h = ap (is_xception st) (ok-injective e) ∙ h

get_true_type-IsException :
    (st : Store) (fuel : ℕ) (t u : TType)
    → get_true_type st fuel t ≡ ok u
    → is_xception st u ≡ true
    → IsException st t
unfolding get_true_type is_xception
get_true_type-IsException st zero t u e h = absurd cc
get_true_type-IsException st (suc k) (typedef_type n t) u e h =
    renamed n t (get_true_type-IsException st k t u e h)
get_true_type-IsException st (suc k) (forward_typedef p n) u e h =
    elim (Option-cases (st.scope_type p n)) [
      | inl missing ↦ absurd (cc (rw (missing, get_true_type) at e))
      | inr (t, there) ↦
          forward p n t there
            (get_true_type-IsException st k t u (rw (there, get_true_type) at e) h)
    ]
get_true_type-IsException st (suc k) (struct_type a) u e h =
    declared a (own-IsException st (struct_type a) u e h)
get_true_type-IsException st (suc k) (base_type n b q) u e h =
    absurd (cc (own-IsException st (base_type n b q) u e h))
get_true_type-IsException st (suc k) (enum_type x) u e h =
    absurd (cc (own-IsException st (enum_type x) u e h))
get_true_type-IsException st (suc k) (service_type n) u e h =
    absurd (cc (own-IsException st (service_type n) u e h))
get_true_type-IsException st (suc k) (list_type x) u e h =
    absurd (cc (own-IsException st (list_type x) u e h))
get_true_type-IsException st (suc k) (set_type x) u e h =
    absurd (cc (own-IsException st (set_type x) u e h))
get_true_type-IsException st (suc k) (map_type x y) u e h =
    absurd (cc (own-IsException st (map_type x y) u e h))

pub validate_throws-IsException :
    (st : Store) (fuel : ℕ) (fs : List Field)
    → validate_throws st fuel fs ≡ ok true
    → All (λ f. IsException st f.type) fs
unfolding validate_throws
validate_throws-IsException st fuel [] h = tt
validate_throws-IsException st fuel (f ∷ fs) h =
    let found = >>=-eq-ok (get_true_type st fuel f.type) _ h in
    elim (Bool-cases (is_xception st found.0)) [
      | inl is ↦ (
        get_true_type-IsException st fuel f.type found.0 found.1 is,
        validate_throws-IsException st fuel fs (rw is at found.2),
      )
      | inr other ↦ absurd (cc (rw other at found.2))
    ]

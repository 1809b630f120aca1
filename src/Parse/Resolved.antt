-- ===== src/Parse/Resolved.antt =====
-- Constants that are resolved: resolving them again changes nothing.
use sparsam.Base.{
  ℕ, ℤ, Text, Dict, ◌≡◌, refl, sym, subst, ◌∙◌, Option, Option-cases, inl, inr, find, text_key,
}
use sparsam.Parse.Error.{ok, >>=-eq-ok, ok-injective}
use sparsam.Parse.Enum.{Enum, get_constant_by_value}
use sparsam.Parse.ConstValue.{
  ConstValue, ConstItems, ConstPairs, integer, double, map, list, identifier, no_items, item,
  no_pairs, pair, get_integer, get_string, get_double,
}
use sparsam.Parse.Types.{
  TType, Struct, Const, Store, base_type, list_type, map_type, type_void, type_string, type_double,
}
use sparsam.Parse.Struct.{field_by_name}
use sparsam.Parse.Scope.{
  Kind, as_map, as_list, as_struct, as_enum, as_other, kind, get_true_type, copy_base,
  copy_constant, resolve_identifier, name_value, resolve_const_value, resolve_at, resolve_items,
  resolve_pairs, resolve_fields,
}

module _ (st : Store) (fuel : ℕ) (constants : Dict Text Const) where
  -- Resolved, and resolved again.
  abbrev IsStable : ConstValue → Kind → Type 0
  IsStable v k = resolve_at st fuel constants v k ≡ ok v

  -- What an identifier takes from a constant stays, or the identifier does.
  copied-IsStable :
      (u : TType) (v w old : ConstValue)
      → resolve_at st fuel constants old as_other ≡ ok w
      → copy_constant st fuel constants u v old ≡ ok w
      → IsStable w as_other
  unfolding copy_constant copy_base resolve_at
  copied-IsStable (base_type n type_string q) v w old o h =
      subst (λ x. IsStable x as_other) (ok-injective h) refl
  copied-IsStable (base_type n type_void q) v w old o h = cc
  copied-IsStable (base_type n type_double q) v w old o h =
      let step = >>=-eq-ok (get_double v) (λ d. ok (double d)) h in
      subst (λ x. IsStable x as_other) (ok-injective step.2) refl
  copied-IsStable (base_type n _ q) v w old o h =
      let step = >>=-eq-ok (get_integer v) (λ m. ok (integer m)) h in
      subst (λ x. IsStable x as_other) (ok-injective step.2) refl
  copied-IsStable (map_type x y) v w old o h =
      subst (λ x. IsStable x as_other) (ok-injective h) refl
  copied-IsStable (list_type x) v w old o h = subst (λ x. IsStable x as_other) (ok-injective h) refl
  copied-IsStable _ v w old o h = subst (λ x. IsStable x as_other) (ok-injective h) (o ∙ sym h)

  identifier-IsStable :
      (s : Text) (e : Option Enum) (w : ConstValue)
      → resolve_identifier st fuel constants s (identifier s e) ≡ ok w
      → IsStable w as_other
  unfolding resolve_at
  identifier-IsStable s e w h = elim (Option-cases (find s constants)) [
    | inl missing ↦ cc (rw (missing, resolve_identifier) at h)
    | inr (c, found) ↦
        let step =
          >>=-eq-ok (get_true_type st fuel c.type)
            (λ u. copy_constant st fuel constants u c.value (identifier s e))
            (rw (found, resolve_identifier) at h) in
        copied-IsStable step.0 c.value w (identifier s e) h step.2
  ]

  named-IsStable :
      (n : ℤ) (e : Enum) (w : ConstValue)
      → name_value st fuel constants n e ≡ ok w
      → IsStable w (as_enum e)
  unfolding name_value resolve_at
  named-IsStable n e w h = elim (Option-cases (get_constant_by_value n e)) [
    | inl missing ↦ cc (rw (missing, name_value) at h)
    | inr (c, found) ↦
        subst (λ x. IsStable x (as_enum e)) (ok-injective (rw (found, name_value) at h)) refl
  ]

  mutual
    unfolding resolve_at

    at-IsStable :
        (v w : ConstValue) (k : Kind) → resolve_at st fuel constants v k ≡ ok w → IsStable w k
    at-IsStable (map ps) w (as_map k x) h =
        let step = >>=-eq-ok (resolve_pairs st fuel constants ps k x) (λ qs. ok (map qs)) h in
        subst (λ y. IsStable y (as_map k x)) (ok-injective step.2)
          (rw (pairs-stable ps step.0 k x step.1) refl)
    at-IsStable (map ps) w (as_struct s) h =
        let step = >>=-eq-ok (resolve_fields st fuel constants ps s) (λ qs. ok (map qs)) h in
        subst (λ y. IsStable y (as_struct s)) (ok-injective step.2)
          (rw (fields-stable ps step.0 s step.1) refl)
    at-IsStable (list xs) w (as_list e) h =
        let step = >>=-eq-ok (resolve_items st fuel constants xs e) (λ ys. ok (list ys)) h in
        subst (λ y. IsStable y (as_list e)) (ok-injective step.2)
          (rw (items-stable xs step.0 e step.1) refl)
    at-IsStable (identifier s e) w (as_enum f) h =
        subst (λ y. IsStable y (as_enum f)) (ok-injective h) refl
    at-IsStable (identifier s e) w as_other h = identifier-IsStable s e w h
    at-IsStable (integer n) w (as_enum e) h = named-IsStable n e w h
    at-IsStable v w (as_enum e) h = cc
    at-IsStable v w k h = subst (λ y. IsStable y k) (ok-injective h) refl

    items-stable :
        (xs ys : ConstItems) (e : TType)
        → resolve_items st fuel constants xs e ≡ ok ys
        → resolve_items st fuel constants ys e ≡ ok ys
    items-stable no_items ys e h =
        subst (λ y. resolve_items st fuel constants y e ≡ ok y) (ok-injective h) refl
    items-stable (item x xs) ys e h =
        let one = >>=-eq-ok (resolve_at st fuel constants x (kind st e)) _ h in
        let more =
          >>=-eq-ok (resolve_items st fuel constants xs e) (λ zs. ok (item one.0 zs)) one.2 in
        subst (λ y. resolve_items st fuel constants y e ≡ ok y) (ok-injective more.2)
          (rw (at-IsStable x one.0 (kind st e) one.1, items-stable xs more.0 e more.1) refl)

    pairs-stable :
        (ps qs : ConstPairs) (k w : TType)
        → resolve_pairs st fuel constants ps k w ≡ ok qs
        → resolve_pairs st fuel constants qs k w ≡ ok qs
    pairs-stable no_pairs qs k w h =
        subst (λ y. resolve_pairs st fuel constants y k w ≡ ok y) (ok-injective h) refl
    pairs-stable (pair x y ps) qs k w h =
        let one = >>=-eq-ok (resolve_at st fuel constants x (kind st k)) _ h in
        let two = >>=-eq-ok (resolve_at st fuel constants y (kind st w)) _ one.2 in
        let more =
          >>=-eq-ok (resolve_pairs st fuel constants ps k w) (λ rs. ok (pair one.0 two.0 rs))
            two.2 in
        subst (λ y. resolve_pairs st fuel constants y k w ≡ ok y) (ok-injective more.2)
          (rw
            (
              at-IsStable x one.0 (kind st k) one.1,
              at-IsStable y two.0 (kind st w) two.1,
              pairs-stable ps more.0 k w more.1,
            )
            refl)

    fields-stable :
        (ps qs : ConstPairs) (s : Struct)
        → resolve_fields st fuel constants ps s ≡ ok qs
        → resolve_fields st fuel constants qs s ≡ ok qs
    fields-stable no_pairs qs s h =
        subst (λ y. resolve_fields st fuel constants y s ≡ ok y) (ok-injective h) refl
    fields-stable (pair x y ps) qs s h =
        elim (Option-cases (field_by_name (get_string x) s.members_in_id_order)) [
          | inl missing ↦ cc (rw (missing, resolve_fields) at h)
          | inr (f, found) ↦
              let one =
                >>=-eq-ok (resolve_at st fuel constants y (kind st f.type)) _
                  (rw (found, resolve_fields) at h) in
              let more =
                >>=-eq-ok (resolve_fields st fuel constants ps s) (λ rs. ok (pair x one.0 rs))
                  one.2 in
              subst (λ y. resolve_fields st fuel constants y s ≡ ok y) (ok-injective more.2)
                (rw
                  (
                    found,
                    resolve_fields,
                    at-IsStable y one.0 (kind st f.type) one.1,
                    fields-stable ps more.0 s more.1,
                  )
                  refl)
        ]

  -- A constant that resolve_const_value made for a type is left as it is when it is resolved for
  -- the type again, with the same constants in scope.
  pub resolve_const_value-again :
      (v w : ConstValue) (t : TType)
      → resolve_const_value st fuel constants v t ≡ ok w
      → resolve_const_value st fuel constants w t ≡ ok w
  unfolding resolve_const_value
  resolve_const_value-again v w t h = at-IsStable v w (kind st t) h

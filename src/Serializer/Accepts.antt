-- ===== src/Serializer/Accepts.antt =====
-- What serializer_writeStruct has checked of an object that it accepts.
use sparsam.Base.{ℕ, ◌==◌, ==_iff, ◌≡◌, ap, true, false, [], ◌∷◌, All, Bool-cases, inl, inr, ◌⊎◌}
use sparsam.Serializer.Ruby
use sparsam.Serializer.Ruby.{Klass, Value, Ivars, Api, ivar_get, is_nil}
use sparsam.Serializer.Outcome.{ok, >>=-eq-ok}
use sparsam.Serializer.Fields.{FieldInfoMap, ftype, ivar_name, is_optional}
use sparsam.Serializer.Protocol.{Events}
use sparsam.Serializer.Write.{check_required_fields, write_struct, framed, write_any, serialize}

-- Every field is optional or not nil.
abbrev pub IsComplete : FieldInfoMap → Ivars → Type 0
IsComplete m vs =
    All (λ e. (is_optional e.1 ≡ true) ⊎ (is_nil (ivar_get vs (ivar_name e.1)) ≡ false)) m

module _ (api : Api) where
  check_required_fields-IsComplete :
      (k : Klass) (m : FieldInfoMap) (vs : Ivars)
      → check_required_fields api k m vs ≡ ok tt
      → IsComplete m vs
  unfolding check_required_fields
  check_required_fields-IsComplete k [] vs h = tt
  check_required_fields-IsComplete k ((fid, i) ∷ m) vs h = elim (Bool-cases (is_optional i)) [
    | inl optional ↦ (inl optional, check_required_fields-IsComplete k m vs (rw optional at h))
    | inr required ↦ elim (Bool-cases (is_nil (ivar_get vs (ivar_name i)))) [
      | inl missing ↦ cc (rw (required, missing) at h)
      | inr there ↦ (inr there, check_required_fields-IsComplete k m vs (rw (required, there) at h))
    ]
  ]

  -- A value that serializer_writeStruct writes for a class is an object of that class, and each of
  -- its fields that are not optional is set.
  pub serialize-IsComplete :
      (field_map : Klass → FieldInfoMap) (f : ℕ) (k : Klass) (v : Value) (es : Events)
      → serialize api field_map f k v ≡ ok es
      → (vs : Ivars) × (v ≡ Ruby.object k vs) × IsComplete (field_map k) vs
  unfolding serialize framed write_struct
  serialize-IsComplete field_map f k (Ruby.object j vs) es h = elim (Bool-cases (j == k)) [
    | inl same ↦
        let body =
          >>=-eq-ok
            (write_struct api (λ i w n. write_any api field_map f (ftype i) i w j n) k (field_map k)
              vs)
            _ (rw same at h) in
        let checked = >>=-eq-ok (check_required_fields api k (field_map k) vs) _ body.1 in
        (
          vs,
          ap (λ c. Ruby.object c vs) ((==_iff j k).0 same),
          check_required_fields-IsComplete k (field_map k) vs checked.1,
        )
    | inr differ ↦ cc (rw differ at h)
  ]
  serialize-IsComplete field_map f k _ es h = cc

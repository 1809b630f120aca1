-- ===== src/Serializer/RoundTrip/SetFields.antt =====
-- The fields of an object that are set, and what serializer_readUnion is to make of them.
use sparsam.Base.{
  ℤ, Text, txt, ◌≡◌, refl, [], ◌∷◌, true, false, All, int_key, Bool-cases, inl, inr, if◌then◌else◌,
}
use sparsam.Serializer.Ruby
use sparsam.Serializer.Ruby.{Klass, Value, Ivars, Api, IsExact, ivar_get, ivar_set, is_nil}
use sparsam.Serializer.Outcome.{Outcome, ◌>>=◌, ok, raise, union_exception}
use sparsam.Serializer.Fields.{FieldInfo, FieldInfoMap, ivar_name, sym_name}
use sparsam.Serializer.Protocol.{Events}
use sparsam.Serializer.Write.{write_fields}

-- The fields of an object that are not nil, in the order of their ids.
unfoldable pub set_fields : FieldInfoMap → Ivars → FieldInfoMap
set_fields [] vs = []
set_fields ((fid, i) ∷ m) vs =
    let rest = set_fields m vs in
    if is_nil (ivar_get vs (ivar_name i)) then rest else (fid, i) ∷ rest

module _ (api : Api) (k : Klass) where
  -- klass.new with the one field set and recorded, unless it arrives as nil.
  abbrev pub union_ivars : FieldInfo → Value → Ivars
  union_ivars i v =
      let set =
        if is_nil v
        then api.new_ivars k
        else ivar_set (api.new_ivars k) (txt "@setfield") (Ruby.string true (sym_name i)) in
      if is_nil v then set else ivar_set set (ivar_name i) v

  -- The fields that serializer_readUnion sets for an object that has the fields `m` set, of which
  -- `r` tells what arrives.
  abbrev pub union_fields :
      (FieldInfo → Value → Outcome Value) → FieldInfoMap → Ivars → Outcome Ivars
  union_fields r [] vs = ok (api.new_ivars k)
  union_fields r ((fid, i) ∷ []) vs =
      r i (ivar_get vs (ivar_name i)) >>= (λ v. ok (union_ivars i v))
  union_fields r ((fid, i) ∷ two ∷ m) vs =
      r i (ivar_get vs (ivar_name i)) >>= (λ v. raise union_exception)

  -- What it answers for the object.
  abbrev pub read_back : (FieldInfo → Value → Outcome Value) → FieldInfoMap → Ivars → Outcome Value
  read_back r m vs = union_fields r m vs >>= (λ us. ok (Ruby.object k us))

-- The loop of writeStruct passes over the fields that are nil.
pub write_fields-set_fields :
    (api : Api) (write : FieldInfo → Value → Text → Outcome Events) (m : FieldInfoMap) (vs : Ivars)
    → write_fields api write m vs ≡ write_fields api write (set_fields m vs) vs
unfolding write_fields set_fields
write_fields-set_fields api write [] vs = refl
write_fields-set_fields api write ((fid, i) ∷ m) vs =
    let later = write_fields-set_fields api write m vs in
    elim (Bool-cases (is_nil (ivar_get vs (ivar_name i)))) [
      | inl absent ↦ rw absent later
      | inr there ↦ rw (there, write_fields, there, later) refl
    ]

pub set_fields-All {κ} :
    (P : ℤ × FieldInfo → Type κ) (m : FieldInfoMap) (vs : Ivars) → All P m → All P (set_fields m vs)
unfolding set_fields
set_fields-All P [] vs h = tt
set_fields-All P ((fid, i) ∷ m) vs h =
    let later = set_fields-All P m vs h.1 in
    elim (Bool-cases (is_nil (ivar_get vs (ivar_name i)))) [
      | inl absent ↦ rw absent later
      | inr there ↦ rw there (h.0, later)
    ]

pub set_fields-HaveValues :
    (m : FieldInfoMap) (vs : Ivars)
    → All (λ e. is_nil (ivar_get vs (ivar_name e.1)) ≡ false) (set_fields m vs)
unfolding set_fields
set_fields-HaveValues [] vs = tt
set_fields-HaveValues ((fid, i) ∷ m) vs =
    let later = set_fields-HaveValues m vs in
    elim (Bool-cases (is_nil (ivar_get vs (ivar_name i)))) [
      | inl absent ↦ rw absent later
      | inr there ↦ rw there (there, later)
    ]

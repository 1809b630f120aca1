-- ===== src/Serializer/RoundTrip/Revive.antt =====
-- The value that arrives: the same numbers and bytes, collections built anew by Ruby, objects built
-- from klass.new by the fields that are not nil, and unions as readUnion answers them; or the
-- exception of a union that has more than one field set.
use sparsam.Base.{ℕ, zero, suc, Bool, true, false, not, ◌&&◌, ◌||◌, [], ◌∷◌, if◌then◌else◌}
use sparsam.Serializer.Ruby
use sparsam.Serializer.Ruby.{Klass, Value, Values, Pairs, Ivars, Api, ivar_get, ivar_set, is_nil}
use sparsam.Serializer.Outcome.{Outcome, ◌>>=◌, ok, out_of_fuel}
use sparsam.Serializer.Fields.{
  WireType, FieldInfo, InfoRef, FieldInfoMap, info, null, ref, ftype, klass, ivar_name,
  is_binary_string, element_type, key_type, t_bool, t_byte, t_double, t_i16, t_i32, t_i64, t_string,
  t_struct, t_map, t_set, t_list,
}
use sparsam.Serializer.RoundTrip.SetFields.{set_fields, read_back}

-- The types that readAny handles.
unfoldable pub is_readable_type : WireType → Bool
is_readable_type t_bool = true
is_readable_type t_byte = true
is_readable_type t_double = true
is_readable_type t_i16 = true
is_readable_type t_i32 = true
is_readable_type t_i64 = true
is_readable_type t_string = true
is_readable_type t_struct = true
is_readable_type t_map = true
is_readable_type t_set = true
is_readable_type t_list = true
is_readable_type _ = false

-- A struct that is no union, or a union among `warm`.
unfoldable pub is_known : Api → (Klass → Bool) → WireType → Klass → Bool
is_known api warm t_struct k = not (api.inherits_union k) || warm k
is_known api warm _ k = true

-- Every type in the description of a field is such a type, and every class in it so.
unfoldable mutual
  unfolding is_known

  pub is_readable : Api → (Klass → Bool) → FieldInfo → Bool
  is_readable api warm (info t k n o b e m) =
      is_readable_type t
      && (is_readable_ref api warm e && (is_readable_ref api warm m && is_known api warm t k))

  pub is_readable_ref : Api → (Klass → Bool) → InfoRef → Bool
  is_readable_ref api warm null = true
  is_readable_ref api warm (ref i) = is_readable api warm i

module _ (api : Api) where
  unfoldable pub revive_values : (Value → Outcome Value) → Values → Outcome Values
  revive_values r Ruby.no_values = ok Ruby.no_values
  revive_values r (Ruby.value v vs) = r v >>= λ w. revive_values r vs >>= λ ws. ok (Ruby.value w ws)

  unfoldable pub revive_pairs :
      (Value → Outcome Value) → (Value → Outcome Value) → Pairs → Pairs → Outcome Pairs
  revive_pairs rk rv Ruby.no_pairs acc = ok acc
  revive_pairs rk rv (Ruby.pair k v ps) acc =
      rk k >>= λ a. rv v >>= λ b. revive_pairs rk rv ps (api.hash_aset acc a b)

  unfoldable pub revive_list :
      (FieldInfo → Value → Outcome Value) → InfoRef → Values → Outcome Values
  unfolding revive_values
  revive_list r null vs = ok Ruby.no_values
  revive_list r (ref i) vs = revive_values (r i) vs

  unfoldable pub revive_map :
      (FieldInfo → Value → Outcome Value) → InfoRef → InfoRef → Pairs → Outcome Pairs
  unfolding revive_pairs
  revive_map r (ref ki) (ref vi) ps = revive_pairs (r ki) (r vi) ps Ruby.no_pairs
  revive_map r _ _ ps = ok Ruby.no_pairs

  abbrev pub store : Ivars → FieldInfo → Value → Ivars
  store vs i v = if is_nil v then vs else ivar_set vs (ivar_name i) v

  unfoldable pub revive_fields :
      (FieldInfo → Value → Outcome Value) → FieldInfoMap → Ivars → Ivars → Outcome Ivars
  revive_fields r [] vs acc = ok acc
  revive_fields r ((fid, i) ∷ m) vs acc =
      let later = revive_fields r m vs in
      if is_nil (ivar_get vs (ivar_name i))
      then later acc
      else r i (ivar_get vs (ivar_name i)) >>= (λ v. later (store acc i v))

  module _ (field_map : Klass → FieldInfoMap) where
    -- An object of a class: as readUnion and as readStruct build it.
    unfoldable pub revive_object :
        (FieldInfo → Value → Outcome Value) → Klass → Ivars → Outcome Value
    unfolding revive_fields
    revive_object r k vs =
        if api.inherits_union k
        then read_back api k r (set_fields (field_map k) vs) vs
        else revive_fields r (field_map k) vs (api.new_ivars k) >>= (λ us. ok (Ruby.object k us))

    unfoldable pub revive_step :
        (FieldInfo → Value → Outcome Value) → WireType → FieldInfo → Value → Outcome Value
    unfolding revive_list revive_map revive_object
    revive_step r t_i64 i (Ruby.fixnum n) = ok (api.ll2num n)
    revive_step r t_i64 i (Ruby.bignum n) = ok (api.ll2num n)
    revive_step r t_string i (Ruby.string utf8 s) = ok (Ruby.string (not (is_binary_string i)) s)
    revive_step r t_list i (Ruby.array vs) =
        revive_list r (element_type i) vs >>= λ ws. ok (Ruby.array ws)
    revive_step r t_set i (Ruby.set vs) =
        revive_list r (element_type i) vs >>= λ ws. ok (api.set_new ws)
    revive_step r t_map i (Ruby.hash ps) =
        revive_map r (key_type i) (element_type i) ps >>= λ qs. ok (Ruby.hash qs)
    revive_step r t_struct i (Ruby.object k vs) = revive_object r (klass i) vs
    revive_step r t i v = ok v

    unfoldable pub revive : ℕ → FieldInfo → Value → Outcome Value
    unfolding revive_step
    revive zero i v = out_of_fuel
    revive (suc f) i v = revive_step (revive f) (ftype i) i v

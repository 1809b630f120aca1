-- ===== src/Serializer/Write.antt =====
-- ext/serializer.cpp: writeAny, checkRequiredFields, writeStruct and serializer_writeStruct. The
-- result is the calls made of the protocol, in their order. The fuel is the depth of calls.
-- On an object that is reached from itself the code recurs without end; no Value stands for it.
use sparsam.Base.{
  ℕ, zero, suc, ◌==◌, ℤ, pos, negsuc, ltb_ℤ, Text, txt, Bool, not, ◌||◌, ◌&&◌, [], ◌∷◌, ◌++◌,
  Option, none, some, if◌then◌else◌,
}
use sparsam.Serializer.Ruby
use sparsam.Serializer.Ruby.{Klass, Value, Values, Pairs, Ivars, Api, ivar_get, is_nil}
use sparsam.Serializer.Outcome.{
  Outcome, Exception, ok, raise, out_of_fuel, ◌>>=◌, type_mismatch, wrong_class, missing_mandatory,
  range_error, null_dereference,
}
use sparsam.Serializer.Fields.{
  WireType, wire_id, FieldInfo, InfoRef, FieldInfoMap, null, ref, ttype_name, ftype, klass,
  sym_name, ivar_name, is_optional, is_binary_string, element_type, key_type, t_bool, t_byte,
  t_double, t_i16, t_i32, t_i64, t_string, t_struct, t_map, t_set, t_list,
}
use sparsam.Serializer.Protocol.{
  Events, struct_begin, struct_end, field_begin, field_end, field_stop, list_begin, list_end,
  map_begin, map_end, write_bool, write_byte, write_i16, write_i32, write_i64, write_double,
  write_string, write_binary,
}

-- RARRAY_LEN and RHASH_SIZE
unfoldable pub values_length : Values → ℕ
values_length Ruby.no_values = 0
values_length (Ruby.value v vs) = suc (values_length vs)

unfoldable pub pairs_length : Pairs → ℕ
pairs_length Ruby.no_pairs = 0
pairs_length (Ruby.pair k v ps) = suc (pairs_length ps)

abbrev pub or_range_error : Option ℤ → Outcome ℤ
or_range_error none = raise range_error
or_range_error (some n) = ok n

-- rb_class_real(CLASS_OF(v))
unfoldable pub class_of : Api → Value → Klass
class_of api (Ruby.object k vs) = k
class_of api v = api.class_of v

module _ (api : Api) where
  -- raise_type_mismatch with the number of a type
  unfoldable pub mismatch : ℕ → Klass → Text → Exception
  mismatch t outer sym = type_mismatch (ttype_name t) outer sym

  -- CONVERT_FIXNUM
  unfoldable pub convert_fixnum : (ℤ → Outcome ℤ) → WireType → Value → Klass → Text → Outcome ℤ
  unfolding mismatch
  convert_fixnum convert intended (Ruby.fixnum n) outer sym = convert n
  convert_fixnum convert intended (Ruby.bignum n) outer sym = raise range_error
  convert_fixnum convert intended v outer sym = raise (mismatch (wire_id intended) outer sym)

  -- CONVERT_I64
  unfoldable pub convert_i64 : Value → Klass → Text → Outcome ℤ
  unfolding mismatch
  convert_i64 (Ruby.fixnum n) outer sym = ok n
  convert_i64 (Ruby.bignum n) outer sym = or_range_error (api.big2ll n)
  convert_i64 v outer sym = raise (mismatch (wire_id t_i64) outer sym)

  unfoldable pub convert_float : Value → Klass → Text → Outcome ℕ
  unfolding mismatch
  convert_float (Ruby.float d) outer sym = ok d
  convert_float v outer sym = raise (mismatch (wire_id t_double) outer sym)

  unfoldable pub convert_bool : Value → Klass → Text → Outcome Bool
  unfolding mismatch
  convert_bool (Ruby.bool b) outer sym = ok b
  convert_bool v outer sym = raise (mismatch (wire_id t_bool) outer sym)

  -- SHORT_CONVERT and FIX2INT
  unfoldable pub short_convert : ℤ → Outcome ℤ
  short_convert n = or_range_error (api.fix2short n)

  unfoldable pub int_convert : ℤ → Outcome ℤ
  int_convert n = or_range_error (api.fix2int n)

  unfoldable pub byte_convert : ℤ → Outcome ℤ
  unfolding short_convert
  byte_convert n = short_convert n >>= λ s.
      if ltb_ℤ s (negsuc 127) || ltb_ℤ (pos 127) s then raise range_error else ok s

  -- The loops over the elements of an array and over the pairs of a hash.
  unfoldable pub write_values : (Value → Outcome Events) → Values → Outcome Events
  write_values write Ruby.no_values = ok []
  write_values write (Ruby.value v vs) =
      write v >>= λ e. write_values write vs >>= λ es. ok (e ++ es)

  unfoldable pub write_pairs :
      (Value → Outcome Events) → (Value → Outcome Events) → Pairs → Outcome Events
  write_pairs write_key write_value Ruby.no_pairs = ok []
  write_pairs write_key write_value (Ruby.pair k v ps) = write_key k >>= λ ek.
      write_value v >>= λ ev. write_pairs write_key write_value ps >>= λ es. ok (ek ++ (ev ++ es))

  -- T_LIST and T_SET share their second half.
  unfoldable pub write_list :
      (FieldInfo → Value → Outcome Events) → InfoRef → Values → Outcome Events
  unfolding write_values values_length
  write_list write null vs = raise null_dereference
  write_list write (ref i) vs = write_values (write i) vs >>= λ es.
      ok (list_begin (ftype i) (values_length vs) ∷ (es ++ list_end ∷ []))

  unfoldable pub write_map :
      (FieldInfo → Value → Outcome Events) → InfoRef → InfoRef → Pairs → Outcome Events
  unfolding write_pairs pairs_length
  write_map write null e ps = raise null_dereference
  write_map write (ref ki) null ps = raise null_dereference
  write_map write (ref ki) (ref vi) ps = write_pairs (write ki) (write vi) ps >>= λ es.
      ok (map_begin (ftype ki) (ftype vi) (pairs_length ps) ∷ (es ++ map_end ∷ []))

  -- checkRequiredFields
  unfoldable pub check_required_fields : Klass → FieldInfoMap → Ivars → Outcome (Unit {0})
  check_required_fields k [] vs = ok tt
  check_required_fields k ((fid, i) ∷ m) vs =
      if not (is_optional i) && is_nil (ivar_get vs (ivar_name i))
      then raise (missing_mandatory k (sym_name i))
      else check_required_fields k m vs

  -- The loop of writeStruct over the fields, in the order of their ids.
  unfoldable pub write_fields :
      (FieldInfo → Value → Text → Outcome Events) → FieldInfoMap → Ivars → Outcome Events
  write_fields write [] vs = ok []
  write_fields write ((fid, i) ∷ m) vs =
      if is_nil (ivar_get vs (ivar_name i))
      then write_fields write m vs
      else write i (ivar_get vs (ivar_name i)) (sym_name i) >>= λ e.
          write_fields write m vs >>= λ es. ok (field_begin (ftype i) fid ∷ (e ++ field_end ∷ es))

  unfoldable pub write_struct :
      (FieldInfo → Value → Text → Outcome Events) → Klass → FieldInfoMap → Ivars → Outcome Events
  unfolding check_required_fields write_fields
  write_struct write k m vs = check_required_fields k m vs >>= λ _. write_fields write m vs

  -- writeStructBegin, the fields, writeFieldStop and writeStructEnd.
  unfoldable pub framed : Outcome Events → Outcome Events
  framed m = m >>= λ es. ok (struct_begin ∷ (es ++ field_stop ∷ struct_end ∷ []))

  module _ (field_map : Klass → FieldInfoMap) where
    -- The body of writeAny, over the writer of nested values.
    unfoldable pub write_step :
        (FieldInfo → Value → Klass → Text → Outcome Events)
        → WireType
        → FieldInfo
        → Value
        → Klass
        → Text
        → Outcome Events
    unfolding convert_fixnum convert_i64 convert_bool convert_float byte_convert int_convert
        short_convert mismatch write_list write_map write_struct class_of framed
    write_step write t_i16 i v outer sym =
        convert_fixnum short_convert t_i16 v outer sym >>= λ n. ok (write_i16 n ∷ [])
    write_step write t_i32 i v outer sym =
        convert_fixnum int_convert t_i32 v outer sym >>= λ n. ok (write_i32 n ∷ [])
    write_step write t_i64 i v outer sym = convert_i64 v outer sym >>= λ n. ok (write_i64 n ∷ [])
    write_step write t_bool i v outer sym = convert_bool v outer sym >>= λ b. ok (write_bool b ∷ [])
    write_step write t_double i v outer sym =
        convert_float v outer sym >>= λ d. ok (write_double d ∷ [])
    write_step write t_byte i v outer sym =
        convert_fixnum byte_convert t_byte v outer sym >>= λ n. ok (write_byte n ∷ [])
    write_step write t_string i (Ruby.string utf8 s) outer sym =
        ok ((if is_binary_string i then write_binary s else write_string s) ∷ [])
    write_step write t_string i v outer sym = raise (mismatch api.rb_t_string outer sym)
    write_step write t_list i (Ruby.array vs) outer sym =
        write_list (λ j w. write j w outer sym) (element_type i) vs
    write_step write t_list i v outer sym = raise (mismatch api.rb_t_array outer sym)
    write_step write t_set i (Ruby.set vs) outer sym =
        write_list (λ j w. write j w outer sym) (element_type i) vs
    write_step write t_set i v outer sym = raise (mismatch (wire_id t_set) outer sym)
    write_step write t_map i (Ruby.hash ps) outer sym =
        write_map (λ j w. write j w outer sym) (key_type i) (element_type i) ps
    write_step write t_map i v outer sym = raise (mismatch api.rb_t_hash outer sym)
    write_step write t_struct i (Ruby.object k vs) outer sym =
        if k == klass i
        then framed (write_struct (λ j w s. write j w k s) (klass i) (field_map (klass i)) vs)
        else raise (wrong_class (klass i) outer sym)
    write_step write t_struct i v outer sym = raise (wrong_class (klass i) outer sym)
    write_step write t i v outer sym = ok []

    -- writeAny
    unfoldable pub write_any : ℕ → WireType → FieldInfo → Value → Klass → Text → Outcome Events
    unfolding write_step
    write_any zero t i v outer sym = out_of_fuel
    write_any (suc f) t i v outer sym =
        write_step (λ j w o s. write_any f (ftype j) j w o s) t i v outer sym

    -- serializer_writeStruct: what the buffer holds in the end.
    unfoldable pub serialize : ℕ → Klass → Value → Outcome Events
    unfolding write_struct framed
    serialize f k (Ruby.object j vs) =
        if j == k
        then framed (write_struct (λ i w s. write_any f (ftype i) i w j s) k (field_map k) vs)
        else raise (wrong_class k j (txt "(root)"))
    serialize f k v = raise (wrong_class k (class_of api v) (txt "(root)"))

-- ===== src/Serializer/Terminates/Main.antt =====
-- The recursion of writeAny and of serializer_writeStruct ends: fuel beyond the size of the value is
-- enough.
use sparsam.Base.{ℕ, zero, suc, ◌<◌, ◌≤◌, ◌==◌, Text, Bool-cases, inl, inr, arith}
use sparsam.Serializer.Ruby
use sparsam.Serializer.Ruby.{Klass, Value, Ivars, Api}
use sparsam.Serializer.Outcome.{Outcome}
use sparsam.Serializer.Fields.{
  FieldInfo, FieldInfoMap, WireType, ftype, klass, element_type, key_type, t_bool, t_byte, t_double,
  t_i16, t_i32, t_i64, t_string, t_struct, t_map, t_set, t_list,
}
use sparsam.Serializer.Protocol.{Events}
use sparsam.Serializer.Write.{
  convert_fixnum, convert_i64, convert_float, convert_bool, short_convert, int_convert,
  byte_convert, write_step, write_any, serialize,
}
use sparsam.Serializer.Terminates.Loops.{
  size, Returns, >>=-Returns, ok-Returns, or_range_error-Returns, convert_fixnum-Returns,
  byte_convert-Returns, convert_i64-Returns, convert_bool-Returns, convert_float-Returns,
  write_list-Returns, write_map-Returns, write_struct-Returns,
}

module _ (api : Api) (field_map : Klass → FieldInfoMap) where
  -- The writer of nested values returns on every value within `f`.
  abbrev Within : ℕ → (FieldInfo → Value → Klass → Text → Outcome Events) → Type 0
  Within f write =
      (i : FieldInfo) (v : Value) (outer : Klass) (field : Text)
      → size v < f
      → Returns (write i v outer field)

  module _ (f : ℕ) (write : FieldInfo → Value → Klass → Text → Outcome Events) (ih : Within f write)
      (i : FieldInfo) (outer : Klass) (field : Text) where
    list-Returns :
        (v : Value)
        → size v < suc f
        → Returns (write_step api field_map write t_list i v outer field)
    unfolding write_step size
    list-Returns (Ruby.array vs) lt =
        write_list-Returns api f (λ j w. write j w outer field) (λ j w l. ih j w outer field l)
          (element_type i) vs (omega arith)
    list-Returns _ lt = cc

    set-Returns :
        (v : Value)
        → size v < suc f
        → Returns (write_step api field_map write t_set i v outer field)
    unfolding write_step size
    set-Returns (Ruby.set vs) lt =
        write_list-Returns api f (λ j w. write j w outer field) (λ j w l. ih j w outer field l)
          (element_type i) vs (omega arith)
    set-Returns _ lt = cc

    map-Returns :
        (v : Value)
        → size v < suc f
        → Returns (write_step api field_map write t_map i v outer field)
    unfolding write_step size
    map-Returns (Ruby.hash ps) lt =
        write_map-Returns api f (λ j w. write j w outer field) (λ j w l. ih j w outer field l)
          (key_type i) (element_type i) ps (omega arith)
    map-Returns _ lt = cc

    struct-Returns :
        (v : Value)
        → size v < suc f
        → Returns (write_step api field_map write t_struct i v outer field)
    unfolding write_step size
    struct-Returns (Ruby.object k vs) lt = elim (Bool-cases (k == klass i)) [
      | inl same ↦ rw same (
          write_struct-Returns api f (λ j w n. write j w k n) (λ j w n l. ih j w k n l) (klass i)
            (field_map (klass i)) vs (omega arith))
      | inr differ ↦ rw differ cc
    ]
    struct-Returns _ lt = cc

    string-Returns : (v : Value) → Returns (write_step api field_map write t_string i v outer field)
    unfolding write_step
    string-Returns (Ruby.string utf8 s) = cc
    string-Returns _ = cc

    step-Returns :
        (t : WireType) (v : Value)
        → size v < suc f
        → Returns (write_step api field_map write t i v outer field)
    unfolding write_step short_convert int_convert
    step-Returns t_i16 v lt =
        >>=-Returns (convert_fixnum api (short_convert api) t_i16 v outer field) _
          (convert_fixnum-Returns api (short_convert api) t_i16 v outer field
            λ n. or_range_error-Returns (api.fix2short n))
          λ n. ok-Returns _
    step-Returns t_i32 v lt =
        >>=-Returns (convert_fixnum api (int_convert api) t_i32 v outer field) _
          (convert_fixnum-Returns api (int_convert api) t_i32 v outer field
            λ n. or_range_error-Returns (api.fix2int n))
          λ n. ok-Returns _
    step-Returns t_byte v lt =
        >>=-Returns (convert_fixnum api (byte_convert api) t_byte v outer field) _
          (convert_fixnum-Returns api (byte_convert api) t_byte v outer field
            (byte_convert-Returns api))
          λ n. ok-Returns _
    step-Returns t_i64 v lt =
        >>=-Returns (convert_i64 api v outer field) _ (convert_i64-Returns api v outer field)
          λ n. ok-Returns _
    step-Returns t_bool v lt =
        >>=-Returns (convert_bool api v outer field) _ (convert_bool-Returns api v outer field)
          λ n. ok-Returns _
    step-Returns t_double v lt =
        >>=-Returns (convert_float api v outer field) _ (convert_float-Returns api v outer field)
          λ n. ok-Returns _
    step-Returns t_string v lt = string-Returns v
    step-Returns t_list v lt = list-Returns v lt
    step-Returns t_set v lt = set-Returns v lt
    step-Returns t_map v lt = map-Returns v lt
    step-Returns t_struct v lt = struct-Returns v lt
    step-Returns _ v lt = cc

  any-Returns :
      (f : ℕ) → Within f (λ i v outer field. write_any api field_map f (ftype i) i v outer field)
  unfolding write_any
  any-Returns zero i v outer field lt = absurd (omega arith)
  any-Returns (suc f) i v outer field lt =
      step-Returns f (λ j w o n. write_any api field_map f (ftype j) j w o n) (any-Returns f) i
        outer field (ftype i) v lt

  -- On a value that is a finite tree, so that no object is reached from itself, and with fuel that
  -- is at least its size, serializer_writeStruct ends: it returns the calls it made, or raises.
  pub serialize-Returns :
      (f : ℕ) (k : Klass) (v : Value) → size v ≤ f → Returns (serialize api field_map f k v)
  unfolding serialize size
  serialize-Returns f k (Ruby.object j vs) le = elim (Bool-cases (j == k)) [
    | inl same ↦ rw same (
        write_struct-Returns api f (λ i w n. write_any api field_map f (ftype i) i w j n)
          (λ i w n l. any-Returns f i w j n l) k (field_map k) vs (omega arith))
    | inr differ ↦ rw differ cc
  ]
  serialize-Returns f k _ le = cc

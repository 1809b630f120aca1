-- ===== src/Serializer/Terminates/Loops.antt =====
-- The size of a value, and the conversions and loops of the writer: each ends.
use sparsam.Base.{
  ℕ, suc, ◌+◌, ◌<◌, ◌≤◌, ℤ, negsuc, pos, ltb_ℤ, Text, text_eq, ◌≢◌, refl, Bool, true, false, [],
  ◌∷◌, ◌++◌, Option, none, some, ◌||◌, ◌&&◌, not, if◌then◌else◌, Bool-cases, inl, inr, arith,
}
use sparsam.Serializer.Ruby
use sparsam.Serializer.Ruby.{Klass, Value, Values, Pairs, Ivars, Api, ivar_get, is_nil}
use sparsam.Serializer.Outcome.{Outcome, ok, raise, out_of_fuel, ◌>>=◌, range_error}
use sparsam.Serializer.Fields.{
  FieldInfo, InfoRef, FieldInfoMap, WireType, null, ref, sym_name, ivar_name, is_optional,
}
use sparsam.Serializer.Protocol.{Events}
use sparsam.Serializer.Write.{
  or_range_error, convert_fixnum, convert_i64, convert_float, convert_bool, short_convert,
  byte_convert, write_values, write_pairs, write_list, write_map, check_required_fields,
  write_fields, write_struct, framed,
}

-- The number of collections and objects in a value.
unfoldable mutual
  pub size : Value → ℕ
  size (Ruby.array vs) = suc (sizes vs)
  size (Ruby.set vs) = suc (sizes vs)
  size (Ruby.hash ps) = suc (pair_sizes ps)
  size (Ruby.object k vs) = suc (ivar_sizes vs)
  size _ = 0

  pub sizes : Values → ℕ
  sizes Ruby.no_values = 0
  sizes (Ruby.value v vs) = size v + sizes vs

  pub pair_sizes : Pairs → ℕ
  pair_sizes Ruby.no_pairs = 0
  pair_sizes (Ruby.pair k v ps) = size k + (size v + pair_sizes ps)

  pub ivar_sizes : Ivars → ℕ
  ivar_sizes Ruby.no_ivars = 0
  ivar_sizes (Ruby.ivar n v vs) = size v + ivar_sizes vs

size-ivar_get : (vs : Ivars) (n : Text) → size (ivar_get vs n) ≤ ivar_sizes vs
unfolding ivar_get size
size-ivar_get Ruby.no_ivars n = omega arith
size-ivar_get (Ruby.ivar m v vs) n =
    let rest = size-ivar_get vs n in
    elim (Bool-cases (text_eq m n)) [
      | inl same ↦ rw same (omega arith)
      | inr differ ↦ rw differ (omega arith)
    ]

-- A call that ends with a value or an exception.
abbrev pub Returns : {A : Type 0} → Outcome A → Type 0
Returns m = m ≢ out_of_fuel

pub >>=-Returns :
    {A B : Type 0} (m : Outcome A) (f : A → Outcome B)
    → Returns m
    → ((a : A) → Returns (f a))
    → Returns (m >>= f)
>>=-Returns (ok a) f r rs = rs a
>>=-Returns (raise e) f r rs = cc
>>=-Returns out_of_fuel f r rs = absurd (r refl)

pub ok-Returns : {A : Type 0} (a : A) → Returns (ok a)
ok-Returns a = cc

pub or_range_error-Returns : (o : Option ℤ) → Returns (or_range_error o)
or_range_error-Returns none = cc
or_range_error-Returns (some n) = cc

module _ (api : Api) where
  pub convert_fixnum-Returns :
      (convert : ℤ → Outcome ℤ) (t : WireType) (v : Value) (outer : Klass) (field : Text)
      → ((n : ℤ) → Returns (convert n))
      → Returns (convert_fixnum api convert t v outer field)
  unfolding convert_fixnum
  convert_fixnum-Returns convert t (Ruby.fixnum n) outer field r = r n
  convert_fixnum-Returns convert t _ outer field r = cc

  range_check-Returns : (b : Bool) (n : ℤ) → Returns (if b then raise range_error else ok n)
  range_check-Returns true n = cc
  range_check-Returns false n = cc

  pub byte_convert-Returns : (n : ℤ) → Returns (byte_convert api n)
  unfolding byte_convert short_convert
  byte_convert-Returns n =
      >>=-Returns (or_range_error (api.fix2short n)) _ (or_range_error-Returns (api.fix2short n))
        λ s. range_check-Returns (ltb_ℤ s (negsuc 127) || ltb_ℤ (pos 127) s) s

  pub convert_i64-Returns :
      (v : Value) (outer : Klass) (field : Text) → Returns (convert_i64 api v outer field)
  unfolding convert_i64
  convert_i64-Returns (Ruby.fixnum n) outer field = cc
  convert_i64-Returns (Ruby.bignum n) outer field = or_range_error-Returns (api.big2ll n)
  convert_i64-Returns _ outer field = cc

  pub convert_bool-Returns :
      (v : Value) (outer : Klass) (field : Text) → Returns (convert_bool api v outer field)
  unfolding convert_bool
  convert_bool-Returns (Ruby.bool b) outer field = cc
  convert_bool-Returns _ outer field = cc

  pub convert_float-Returns :
      (v : Value) (outer : Klass) (field : Text) → Returns (convert_float api v outer field)
  unfolding convert_float
  convert_float-Returns (Ruby.float b) outer field = cc
  convert_float-Returns _ outer field = cc

  -- The loops return when the writer of every value within `f` does.
  write_values-Returns :
      (f : ℕ) (write : Value → Outcome Events)
      → ((v : Value) → size v < f → Returns (write v))
      → (vs : Values) → sizes vs < f
      → Returns (write_values api write vs)
  unfolding write_values size
  write_values-Returns f write ih Ruby.no_values lt = cc
  write_values-Returns f write ih (Ruby.value v vs) lt =
      >>=-Returns (write v) _ (ih v (omega arith)) λ e.
        >>=-Returns (write_values api write vs) _ (write_values-Returns f write ih vs (omega arith))
          λ es. ok-Returns (e ++ es)

  write_pairs-Returns :
      (f : ℕ) (wk wv : Value → Outcome Events)
      → ((v : Value) → size v < f → Returns (wk v))
      → ((v : Value) → size v < f → Returns (wv v))
      → (ps : Pairs) → pair_sizes ps < f
      → Returns (write_pairs api wk wv ps)
  unfolding write_pairs size
  write_pairs-Returns f wk wv ihk ihv Ruby.no_pairs lt = cc
  write_pairs-Returns f wk wv ihk ihv (Ruby.pair k v ps) lt =
      >>=-Returns (wk k) _ (ihk k (omega arith)) λ ek.
        >>=-Returns (wv v) _ (ihv v (omega arith)) λ ev.
          >>=-Returns (write_pairs api wk wv ps) _
            (write_pairs-Returns f wk wv ihk ihv ps (omega arith))
            λ es. ok-Returns (ek ++ (ev ++ es))

  pub write_list-Returns :
      (f : ℕ) (write : FieldInfo → Value → Outcome Events)
      → ((i : FieldInfo) (v : Value) → size v < f → Returns (write i v))
      → (e : InfoRef) (vs : Values) → sizes vs < f
      → Returns (write_list api write e vs)
  unfolding write_list
  write_list-Returns f write ih null vs lt = cc
  write_list-Returns f write ih (ref i) vs lt =
      >>=-Returns (write_values api (write i) vs) _ (write_values-Returns f (write i) (ih i) vs lt)
        λ es. ok-Returns _

  pub write_map-Returns :
      (f : ℕ) (write : FieldInfo → Value → Outcome Events)
      → ((i : FieldInfo) (v : Value) → size v < f → Returns (write i v))
      → (k e : InfoRef) (ps : Pairs) → pair_sizes ps < f
      → Returns (write_map api write k e ps)
  unfolding write_map
  write_map-Returns f write ih null e ps lt = cc
  write_map-Returns f write ih (ref k) null ps lt = cc
  write_map-Returns f write ih (ref k) (ref i) ps lt =
      >>=-Returns (write_pairs api (write k) (write i) ps) _
        (write_pairs-Returns f (write k) (write i) (ih k) (ih i) ps lt) λ es. ok-Returns _

  check_required_fields-Returns :
      (k : Klass) (m : FieldInfoMap) (vs : Ivars) → Returns (check_required_fields api k m vs)
  unfolding check_required_fields
  check_required_fields-Returns k [] vs = cc
  check_required_fields-Returns k ((fid, i) ∷ m) vs =
      let rest = check_required_fields-Returns k m vs in
      elim (Bool-cases (not (is_optional i) && is_nil (ivar_get vs (ivar_name i)))) [
        | inl missing ↦ rw missing cc
        | inr there ↦ rw there rest
      ]

  write_fields-Returns :
      (f : ℕ) (write : FieldInfo → Value → Text → Outcome Events)
      → ((i : FieldInfo) (v : Value) (n : Text) → size v < f → Returns (write i v n))
      → (m : FieldInfoMap) (vs : Ivars) → ivar_sizes vs < f
      → Returns (write_fields api write m vs)
  unfolding write_fields
  write_fields-Returns f write ih [] vs lt = cc
  write_fields-Returns f write ih ((fid, i) ∷ m) vs lt =
      let rest = write_fields-Returns f write ih m vs lt in
      let within = size-ivar_get vs (ivar_name i) in
      elim (Bool-cases (is_nil (ivar_get vs (ivar_name i)))) [
        | inl absent ↦ rw absent rest
        | inr there ↦ rw there (
            >>=-Returns (write i (ivar_get vs (ivar_name i)) (sym_name i)) _
              (ih i (ivar_get vs (ivar_name i)) (sym_name i) (omega arith))
              λ e. >>=-Returns (write_fields api write m vs) _ rest λ es. ok-Returns _)
      ]

  pub write_struct-Returns :
      (f : ℕ) (write : FieldInfo → Value → Text → Outcome Events)
      → ((i : FieldInfo) (v : Value) (n : Text) → size v < f → Returns (write i v n))
      → (k : Klass) (m : FieldInfoMap) (vs : Ivars) → ivar_sizes vs < f
      → Returns (framed api (write_struct api write k m vs))
  unfolding write_struct framed
  write_struct-Returns f write ih k m vs lt =
      >>=-Returns (check_required_fields api k m vs >>= λ _. write_fields api write m vs) _
        (>>=-Returns (check_required_fields api k m vs) _ (check_required_fields-Returns k m vs)
          λ _. write_fields-Returns f write ih m vs lt)
        λ es. ok-Returns _

-- ===== src/Serializer/RoundTrip/Convert.antt =====
-- The conversions of numbers, when they go through.
use sparsam.Base.{
  ℕ, ℤ, pos, negsuc, ltb_ℤ, Text, Bool, true, false, ◌||◌, ◌≡◌, sym, ap, ◌∙◌, Option, none, some,
  inl, inr, if◌then◌else◌, ◌⊎◌,
}
use sparsam.Serializer.Ruby
use sparsam.Serializer.Ruby.{Klass, Value, Api, IsExact}
use sparsam.Serializer.Outcome.{Outcome, ok, raise, range_error, >>=-eq-ok, ok-injective}
use sparsam.Serializer.Fields.{WireType}
use sparsam.Serializer.Write.{
  or_range_error, convert_fixnum, convert_i64, convert_float, convert_bool, short_convert,
  int_convert, byte_convert,
}

or_range_error-eq :
    (o : Option ℤ) (n m : ℤ) → ((k : ℤ) → o ≡ some k → k ≡ n) → or_range_error o ≡ ok m → m ≡ n
or_range_error-eq none n m keep h = cc
or_range_error-eq (some k) n m keep h = keep m (ap some (ok-injective h))

module _ (api : Api) where
  pub convert_fixnum-eq :
      (convert : ℤ → Outcome ℤ) (t : WireType) (v : Value) (outer : Klass) (field : Text) (m : ℤ)
      → ((n k : ℤ) → convert n ≡ ok k → k ≡ n)
      → convert_fixnum api convert t v outer field ≡ ok m
      → v ≡ Ruby.fixnum m
  unfolding convert_fixnum
  convert_fixnum-eq convert t (Ruby.fixnum n) outer field m keep h =
      ap Ruby.fixnum (sym (keep n m h))
  convert_fixnum-eq convert t _ outer field m keep h = cc

  pub convert_float-eq :
      (v : Value) (outer : Klass) (field : Text) (m : ℕ)
      → convert_float api v outer field ≡ ok m
      → v ≡ Ruby.float m
  unfolding convert_float
  convert_float-eq (Ruby.float d) outer field m h = ap Ruby.float (ok-injective h)
  convert_float-eq _ outer field m h = cc

  pub convert_bool-eq :
      (v : Value) (outer : Klass) (field : Text) (m : Bool)
      → convert_bool api v outer field ≡ ok m
      → v ≡ Ruby.bool m
  unfolding convert_bool
  convert_bool-eq (Ruby.bool b) outer field m h = ap Ruby.bool (ok-injective h)
  convert_bool-eq _ outer field m h = cc

module _ (api : Api) (exact : IsExact api) where
  pub short_convert-eq : (n m : ℤ) → short_convert api n ≡ ok m → m ≡ n
  unfolding short_convert
  short_convert-eq n m h = or_range_error-eq (api.fix2short n) n m (exact.shorts n) h

  pub int_convert-eq : (n m : ℤ) → int_convert api n ≡ ok m → m ≡ n
  unfolding int_convert
  int_convert-eq n m h = or_range_error-eq (api.fix2int n) n m (exact.ints n) h

  range_check-eq : (b : Bool) (s m : ℤ) → (if b then raise range_error else ok s) ≡ ok m → m ≡ s
  range_check-eq true s m h = cc
  range_check-eq false s m h = sym (ok-injective h)

  pub byte_convert-eq : (n m : ℤ) → byte_convert api n ≡ ok m → m ≡ n
  unfolding byte_convert
  byte_convert-eq n m h =
      let step =
        >>=-eq-ok (short_convert api n)
          (λ s. if ltb_ℤ s (negsuc 127) || ltb_ℤ (pos 127) s then raise range_error else ok s) h in
      range_check-eq _ step.0 m step.2 ∙ short_convert-eq n step.0 step.1

  pub convert_i64-eq :
      (v : Value) (outer : Klass) (field : Text) (m : ℤ)
      → convert_i64 api v outer field ≡ ok m
      → (v ≡ Ruby.fixnum m) ⊎ (v ≡ Ruby.bignum m)
  unfolding convert_i64
  convert_i64-eq (Ruby.fixnum n) outer field m h = inl (ap Ruby.fixnum (ok-injective h))
  convert_i64-eq (Ruby.bignum n) outer field m h =
      inr (ap Ruby.bignum (sym (or_range_error-eq (api.big2ll n) n m (exact.longs n) h)))
  convert_i64-eq _ outer field m h = cc

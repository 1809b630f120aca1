-- ===== src/Serializer/Ruby.antt =====
-- The Ruby values that ext/serializer.cpp handles, and what it calls of the Ruby C API. A class is
-- the number of its VALUE; a float is its bit pattern; a string knows whether it is UTF-8.
-- A value is a finite tree of all that is reached from it: an object that is reached from itself, as
-- a list whose last element points back to its first, has no Value.
use sparsam.Base.{ℕ, ℤ, Text, text_eq, Bool, true, false, Option, some, ◌≡◌, if◌then◌else◌}

abbrev pub Klass : Type 0
Klass = ℕ

mutual
  pub data Value : Type 0 where
    nil : Value
    bool : Bool → Value
    fixnum bignum : ℤ → Value
    float : ℕ → Value
    string : Bool → Text → Value
    array set : Values → Value
    hash : Pairs → Value
    object : Klass → Ivars → Value
    other : Klass → Value

  pub data Values : Type 0 where
    no_values : Values
    value : Value → Values → Values

  pub data Pairs : Type 0 where
    no_pairs : Pairs
    pair : Value → Value → Pairs → Pairs

  pub data Ivars : Type 0 where
    no_ivars : Ivars
    ivar : Text → Value → Ivars → Ivars

-- rb_ivar_get: nil where the variable was never set.
unfoldable pub ivar_get : Ivars → Text → Value
ivar_get no_ivars n = nil
ivar_get (ivar m v vs) n = if text_eq m n then v else ivar_get vs n

-- rb_ivar_set
unfoldable pub ivar_set : Ivars → Text → Value → Ivars
ivar_set no_ivars n w = ivar n w no_ivars
ivar_set (ivar m v vs) n w = if text_eq m n then ivar n w vs else ivar m v (ivar_set vs n w)

abbrev pub is_nil : Value → Bool
is_nil nil = true
is_nil _ = false

-- The conversions and the collections of Ruby, which are not part of the repository. A conversion
-- to a C integer gives `none` where Ruby raises RangeError.
pub record Api : Type 0 where
  pub fix2short : ℤ → Option ℤ
  pub fix2int : ℤ → Option ℤ
  pub big2ll : ℤ → Option ℤ
  pub ll2num : ℤ → Value
  -- klass_for_set.new(ary)
  pub set_new : Values → Value
  -- rb_hash_aset
  pub hash_aset : Pairs → Value → Value → Pairs
  -- The classes: of a value that is no struct, and the instance variables of klass.new.
  pub class_of : Value → Klass
  pub new_ivars : Klass → Ivars
  -- rb_class_inherited_p(klass, klass_for_union)
  pub inherits_union : Klass → Bool
  -- The numbers of Ruby's own T_STRING, T_ARRAY and T_HASH.
  pub rb_t_string : ℕ
  pub rb_t_array : ℕ
  pub rb_t_hash : ℕ

-- What the code relies on: an integer that a conversion accepts comes out as it went in.
pub record IsExact (api : Api) : Type 0 where
  pub shorts : (n m : ℤ) → api.fix2short n ≡ some m → m ≡ n
  pub ints : (n m : ℤ) → api.fix2int n ≡ some m → m ≡ n
  pub longs : (n m : ℤ) → api.big2ll n ≡ some m → m ≡ n

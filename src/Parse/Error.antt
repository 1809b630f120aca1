-- ===== src/Parse/Error.antt =====
-- What the parse tree throws, and the result of a call that may throw.
use sparsam.Base.{ℤ, Text, ◌≡◌, refl}

-- One constructor for each thrown message of compiler/src/parse, compiler/src/main.cc,
-- compiler/src/thrifty.yy (where it exits) and compiler/src/generate.
-- `uninitialised` is a read of a data member that nothing has written.
pub data Error : Type 0 where
  unset_enum : Text → Error
  unknown_enum_value : Text → Text → Error
  unqualified : Text → Error
  uninitialised : Error
  undefined_type : Error
  second_default : Text → Text → Error
  already_defined : Text → Error
  no_such_field : Text → Text → Error
  no_such_constant : Text → Error
  void_constant : Error
  no_named_value : Text → ℤ → Error
  oneway_throws : Error
  function_defined : Text → Error
  void_const : Text → Error
  declared_as : Text → Text → Error
  bad_enum_const : Text → Text → Text → Error
  key_not_string : Text → Error
  no_const_of_base : Text → Error
  type_has_no_field : Text → Text → Error
  no_constant_for : Text → Error
  void_type : Error
  invalid_type : Text → Error
  dotted_identifier : Text → Error
  truncated_enum_value : Text → Error
  enum_value_overflow : Text → Error
  implicit_key : Text → Error
  already_used : ℤ → Text → Error
  type_defined : Text → Error
  no_exceptions : Error
  undefined_service : Text → Error

pub data Fallible (A : Type 0) : Type 0 where
  throw : Error → Fallible A
  ok : A → Fallible A

-- What follows a call that may throw.
infixl 5 ◌>>=◌
abbrev pub ◌>>=◌ : {A B : Type 0} → Fallible A → (A → Fallible B) → Fallible B
throw e >>= k = throw e
ok a >>= k = k a

pub ok-injective : {A : Type 0} {a b : A} → ok a ≡ ok b → a ≡ b
ok-injective h = cc

-- A call that went through, step by step.
pub >>=-eq-ok :
    {A B : Type 0} {b : B} (call : Fallible A) (k : A → Fallible B)
    → (call >>= k) ≡ ok b
    → (a : A) × (call ≡ ok a) × (k a ≡ ok b)
>>=-eq-ok (throw e) k went = cc
>>=-eq-ok (ok a) k went = (a, refl, went)

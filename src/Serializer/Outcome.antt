-- ===== src/Serializer/Outcome.antt =====
-- What a call of ext/serializer.cpp comes to: a value, a raised exception, or a model out of fuel.
use sparsam.Base.{ℕ, Text, ◌≡◌, refl}
use sparsam.Serializer.Ruby.{Klass}

pub data Exception : Type 0 where
  -- expected name, class of the outer struct, field
  type_mismatch : Text → Klass → Text → Exception
  -- the two type names as the message prints them, class, field
  wrong_field_type : Text → Text → Klass → Text → Exception
  -- expected class, outer class, field
  wrong_class : Klass → Klass → Text → Exception
  missing_mandatory : Klass → Text → Exception
  range_error : Exception
  union_exception : Exception
  unknown_type : ℕ → Exception
  native_error : Exception
  null_dereference : Exception

pub data Outcome (A : Type 0) : Type 0 where
  out_of_fuel : Outcome A
  raise : Exception → Outcome A
  ok : A → Outcome A

-- The rest of the code, which an exception and an exhausted model skip.
infixl 5 ◌>>=◌
abbrev pub ◌>>=◌ : {A B : Type 0} → Outcome A → (A → Outcome B) → Outcome B
out_of_fuel >>= rest = out_of_fuel
raise e >>= rest = raise e
ok a >>= rest = rest a

pub ok-injective : {A : Type 0} {a b : A} → ok a ≡ ok b → a ≡ b
ok-injective h = cc

-- A call that went through, step by step.
pub >>=-eq-ok :
    {A B : Type 0} {b : B} (call : Outcome A) (rest : A → Outcome B)
    → (call >>= rest) ≡ ok b
    → (a : A) × (call ≡ ok a) × (rest a ≡ ok b)
>>=-eq-ok out_of_fuel rest went = cc
>>=-eq-ok (raise e) rest went = cc
>>=-eq-ok (ok a) rest went = (a, refl, went)

-- ===== src/Parse/Grammar/Objects.antt =====
-- compiler/src/thrifty.yy: Struct, Xception, Function, Throws, Extends and Service, in the pass over
-- the types.
use sparsam.Base.{ℕ, Text, txt, Bool, true, List, [], ◌∷◌, ◌++◌, Option, none, some, if◌then◌else◌}
use sparsam.Parse.Error.{Fallible, throw, ok, ◌>>=◌, no_exceptions, undefined_service}
use sparsam.Parse.Types.{TType, Struct, Function, Service, Store}
use sparsam.Parse.Struct.{new_struct, set_name, set_union, set_xception}
use sparsam.Parse.Validate.{validate_throws}
use sparsam.Parse.Collisions.{add_function, new_function}
use sparsam.Parse.Grammar.{Settings, FieldList, field_list, validate_simple_identifier}

-- Function as it is written.
pub record FunctionSource : Type 0 where
  pub oneway : Bool
  pub returntype : TType
  pub name : Text
  pub arglist : FieldList
  pub throws : Option FieldList

module _ (g : Settings) where
  -- Struct; `union` is what StructHead says.
  unfoldable pub struct_definition : Bool → Text → FieldList → Fallible Struct
  unfolding field_list validate_simple_identifier set_union set_name
  struct_definition union name fs = field_list g fs >>= λ r.
      validate_simple_identifier name >>= λ _. set_union union r.0 >>= set_name name

  -- Xception
  unfoldable pub xception_definition : Text → FieldList → Fallible Struct
  unfolding field_list validate_simple_identifier set_name
  xception_definition name fs = field_list g fs >>= λ r.
      validate_simple_identifier name >>= λ _. set_name name r.0 >>= λ t. ok (set_xception true t)

  -- Inside of a service g_arglist is 1.
  abbrev pub flag_args : Settings
  flag_args = record g { g_arglist = true }

  module _ (st : Store) (fuel : ℕ) where
    -- Throws
    unfoldable pub throws_list : Option FieldList → Fallible Struct
    unfolding field_list validate_throws
    throws_list none = ok (new_struct [])
    throws_list (some fs) = field_list flag_args fs >>= λ r.
        validate_throws st fuel (r.0).members >>= λ valid.
        if valid then ok r.0 else throw no_exceptions

    -- Function
    unfoldable pub function_definition : FunctionSource → Fallible Function
    unfolding throws_list field_list validate_simple_identifier set_name new_function
    function_definition f = field_list flag_args f.arglist >>= λ r.
        throws_list f.throws >>= λ xceptions. validate_simple_identifier f.name >>= λ _.
        set_name (f.name ++ txt "_args") r.0 >>= λ args.
        new_function f.returntype f.name args xceptions f.oneway

    -- FunctionList
    unfoldable pub function_list : List FunctionSource → Service → Fallible Service
    unfolding function_definition add_function
    function_list [] s = ok s
    function_list (f ∷ fs) s = function_definition f >>= λ h. add_function h s >>= function_list fs

    -- Extends; `defined` is get_service of g_scope.
    unfoldable pub extends : (Text → Bool) → Option Text → Fallible (Option Text)
    extends defined none = ok none
    extends defined (some n) = if defined n then ok (some n) else throw (undefined_service n)

    -- Service
    unfoldable pub service_definition :
        (Text → Bool) → Text → Option Text → List FunctionSource → Fallible Service
    unfolding extends function_list validate_simple_identifier
    service_definition defined name parent fs = extends defined parent >>= λ e.
        function_list fs (record { name = []; extends = none; functions = [] }) >>= λ s.
        validate_simple_identifier name >>= λ _. ok (record s { name = name; extends = e })

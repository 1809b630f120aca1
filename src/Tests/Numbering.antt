-- ===== src/Tests/Numbering.antt =====
-- Fields, values of an enumeration, a union and a service as the grammar builds them.
use sparsam.Base.{
  pos, negsuc, ℤ, Text, txt, ◌≡◌, refl, List, [], ◌∷◌, true, false, none, some, Option, find_char,
  Bool, text_eq, map, ◌⊎◌, ◌≤ℤ◌, arith, All, some_injective, subst,
}
use sparsam.Parse.Error.{ok, throw, Error}
use sparsam.Parse.Enum.{Enum, EnumValue}
use sparsam.Parse.Types.{base_type, type_i32, Struct, struct_type, typedef_type}
use sparsam.Parse.Scope.{get_true_type}
use sparsam.Parse.Validate.{validate_throws}
use sparsam.Parse.Members.WellFormed.{IsWellFormed}
use sparsam.Parse.Grammar.{
  ValueSource, FieldSource, Settings, unspecified, enum_definition, enum_values, enum_number,
  validate_simple_identifier, field_list, field_identifier, to_int32, int32_max,
}
use sparsam.Parse.Grammar.{required, FieldList, field, no_fields, no_attributes}
use sparsam.Parse.Struct.{
  new_struct, append, lower_bound, upper_bound, field_by_name, validate_union_member, add_member,
  insert_at, validate_union_members, count_defaults, count_default,
}
use sparsam.Parse.Types.{Store, type_void, Service, Function}
use sparsam.Parse.Members.Union.{IsValidUnion}
use sparsam.Parse.Grammar.Objects.{FunctionSource, struct_definition, service_definition}
use sparsam.Parse.Grammar.Unions.{struct_definition-IsWellFormed}
use sparsam.Parse.Grammar.Services.{service_definition-IsSound, UniqueFunctions, IsSound}
use sparsam.Parse.Grammar.EnumValues.{enum_definition-numbered, IsInt32, numbered}
use sparsam.Parse.Grammar.FieldKeys.{field_list-keyed, plain, keyed, distinct, key_name, IsSimple}

abbrev value : Text → Option ℤ → ValueSource
value n k = record { name = n; number = k; doc = none }

abbrev levels : List ValueSource
levels = value (txt "LOW") none ∷ value (txt "HIGH") (some (pos 7)) ∷ value (txt "TOP") none ∷ []

abbrev level : Enum
level = record {
  name = txt "Level";
  constants =
      record { name = txt "LOW"; value = pos 0; doc = none }
      ∷ record { name = txt "HIGH"; value = pos 7; doc = none }
      ∷ record { name = txt "TOP"; value = pos 8; doc = none }
      ∷ [];
}

level-accepted : enum_definition (txt "Level") levels ≡ ok level
unfolding enum_definition enum_values enum_number validate_simple_identifier to_int32 find_char
    sparsam.Parse.Enum.append
level-accepted = refl

-- The value behind the last one of 32 bits is refused.
beyond :
    (e : Error) × (enum_definition
        (txt "E")
        (value (txt "A") (some (pos 2147483647)) ∷ value (txt "B") none ∷ [])
      ≡ throw e)
unfolding enum_definition enum_values enum_number validate_simple_identifier to_int32 find_char
    sparsam.Parse.Enum.append
beyond = (_, refl)

enum_definition-numbered_example :
    (level.name ≡ txt "Level")
    × (level.constants ≡ numbered levels (negsuc 0))
    × All (λ c. IsInt32 c.value) level.constants
enum_definition-numbered_example =
    enum_definition-numbered (txt "Level") levels level level-accepted

abbrev settings : Settings
settings = record {
  g_allow_neg_field_keys = false;
  g_strict = 127;
  g_arglist = false;
  resolve_const_value = λ v t. ok v;
  validate_field_value = λ f v. ok tt;
}

abbrev source : Option ℤ → Text → FieldSource
source k n = record {
  identifier = k;
  requiredness = unspecified;
  type = base_type (txt "i32") type_i32 false;
  name = n;
  value = none;
  doc = none;
  annotations = [];
}

abbrev sources : List FieldSource
sources =
    source none (txt "a")
    ∷ source (some (pos 3)) (txt "b")
    ∷ source (some (negsuc 4)) (txt "c")
    ∷ []

at_most : (k : ℤ) → k ≤ℤ int32_max → (n : ℤ) → some k ≡ some n → n ≤ℤ int32_max
at_most k h n same = subst (λ m. m ≤ℤ int32_max) (some_injective same) h

sources-IsSimple : All IsSimple sources
unfolding find_char
sources-IsSimple = (
  (refl, refl, λ n h. cc),
  (
    (refl, refl, at_most (pos 3) (omega arith)),
    ((refl, refl, at_most (negsuc 4) (omega arith)), tt),
  ),
)

field_list-keyed_example :
    ((distinct sources [] [] ≡ true)
      × ((t : Struct) × (y : ℤ) × (field_list settings (plain sources) ≡ ok (t, y))
          × (map key_name t.members ≡ keyed sources (negsuc 0))
          × IsWellFormed t))
    ⊎ ((distinct sources [] [] ≡ false)
        × ((e : Error) × (field_list settings (plain sources) ≡ throw e)))
field_list-keyed_example = field_list-keyed settings refl refl sources sources-IsSimple

-- The list is one of those that are accepted.
apart : distinct sources [] [] ≡ true
unfolding distinct text_eq
apart = refl

-- A key above 32 bits comes out as another one.
wrapped : (field_identifier false (some (pos 4294967297)) (negsuc 0)).0.value ≡ pos 1
unfolding field_identifier to_int32
wrapped = refl

-- A union of a required field and of one that is not.
abbrev demanded : FieldSource
demanded = record (source none (txt "a")) { requiredness = required }

abbrev choice_fields : FieldList
choice_fields = field demanded no_attributes (field (source none (txt "b")) no_attributes no_fields)

choice : (t : Struct) × (struct_definition settings true (txt "Choice") choice_fields ≡ ok t)
unfolding struct_definition append new_struct find_char lower_bound upper_bound field_by_name
    validate_union_member add_member insert_at text_eq validate_union_members count_defaults
    count_default
choice = (_, refl)

struct_definition-IsWellFormed_example :
    (choice.0.name ≡ txt "Choice")
    × (choice.0.is_union ≡ true)
    × IsWellFormed choice.0
    × (true ≡ true → IsValidUnion choice.0)
struct_definition-IsWellFormed_example =
    struct_definition-IsWellFormed settings true (txt "Choice") choice_fields choice.0 refl choice.1

-- Every struct is an exception.
abbrev exceptions : Store
exceptions = record {
  struct_at = λ a. record (new_struct []) { is_xception = true };
  scope_type = λ a n. none;
  namespaces_at = λ t. [];
}

-- A throws block of an exception and of a typedef of one.
abbrev thrown : FieldList
thrown =
    field (record (source none (txt "e")) { type = struct_type 0 }) no_attributes
      (field (record (source none (txt "f")) { type = typedef_type (txt "Bad") (struct_type 1) })
        no_attributes no_fields)

abbrev call : Text → Bool → Option FieldList → FunctionSource
call n oneway throws = record {
  oneway = oneway;
  returntype = base_type (txt "void") type_void false;
  name = n;
  arglist = choice_fields;
  throws = throws;
}

abbrev calls : List FunctionSource
calls = call (txt "get") false (some thrown) ∷ call (txt "put") true none ∷ []

abbrev is_base : Text → Bool
is_base n = text_eq n (txt "Base")

service :
    (s : Service) × (service_definition settings exceptions 2 is_base
        (txt "Store")
        (some (txt "Base"))
        calls
      ≡ ok s)
unfolding service_definition append new_struct find_char lower_bound upper_bound field_by_name
    validate_union_member add_member insert_at text_eq validate_union_members get_true_type
    validate_throws
service = (_, refl)

service_definition-IsSound_example :
    (service.0.name ≡ txt "Store")
    × (service.0.extends ≡ some (txt "Base"))
    × ((n : Text) → some (txt "Base") ≡ some n → is_base n ≡ true)
    × (map (λ (h : Function). h.name) service.0.functions
        ≡ map (λ (f : FunctionSource). f.name) calls)
    × UniqueFunctions service.0.functions
    × All (IsSound exceptions) service.0.functions
service_definition-IsSound_example =
    service_definition-IsSound settings exceptions 2 is_base (txt "Store") (some (txt "Base")) calls
      service.0 service.1

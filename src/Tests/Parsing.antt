-- ===== src/Tests/Parsing.antt =====
-- Structs as the grammar builds them: a struct of two fields, and a union.
use mathlib.Core.List.Perm
use sparsam.Base.{
  List, rfind_char, ◌++◌, ◌⊎◌, ℕ, pos, txt, ◌≡◌, refl, [], ◌∷◌, true, false, none, some, Text,
  text_eq, Option,
}
use sparsam.Parse.Error.{ok}
use sparsam.Parse.ConstValue.{ConstValue, integer, identifier, get_integer, list, item, no_items}
use sparsam.Parse.Enum.{Enum, EnumValue, get_constant_by_value, get_min_value, get_max_value}
use sparsam.Parse.Scope.{name_value, resolve_const_value}
use sparsam.Parse.Resolved.{resolve_const_value-again}
use sparsam.Parse.EnumLookup.{get_integer-name_value}
use sparsam.Parse.EnumBounds.{Bounds, get_min_value-get_max_value}
use sparsam.Parse.Types.{
  Field, Struct, Req, base_type, type_i32, list_type, enum_type, Store, t_required, t_optional,
  req_eq,
}
use sparsam.Parse.Struct.{
  append, lower_bound, upper_bound, field_by_name, validate_union_member, add_member, insert_at,
  relax, count_default, set_name, validate_union_members, count_defaults,
}
use sparsam.Parse.Members.WellFormed.{IsWellFormed, append-IsWellFormed, append_answer, conflicts}
use sparsam.Parse.Members.Union.{IsValidUnion, append-IsValidUnion, set_name-IsValidUnion}

abbrev field : ℕ → Text → Req → Option ConstValue → Field
field k n r v = record {
  type = base_type (txt "i32") type_i32 false;
  name = n;
  key = pos k;
  req = r;
  value = v;
  doc = none;
  annotations = [];
}

abbrev low : Field
low = field 1 (txt "low") t_required none

abbrev high : Field
high = field 7 (txt "high") t_optional (some (integer (pos 3)))

abbrev struct_of : Text → List Field → List Field → Struct
struct_of n fs gs = record {
  name = n;
  is_xception = false;
  is_union = false;
  members_validated = false;
  members_with_value = 0;
  members = fs;
  members_in_id_order = gs;
  doc = none;
  annotations = [];
}

-- The struct that holds the field of id 7.
abbrev one_field : Struct
one_field = struct_of (txt "Range") (high ∷ []) (high ∷ [])

abbrev two_fields : Struct
two_fields = struct_of (txt "Range") (high ∷ low ∷ []) (low ∷ high ∷ [])

one_field-IsWellFormed : IsWellFormed one_field
one_field-IsWellFormed = record { sorted = (tt, tt); names = (tt, tt); same = Perm.refl _ }

append-two : append low one_field ≡ ok (true, two_fields)
unfolding append lower_bound upper_bound field_by_name text_eq validate_union_member add_member
    insert_at
append-two = refl

append-IsWellFormed_example : IsWellFormed two_fields
append-IsWellFormed_example =
    append-IsWellFormed low one_field two_fields true one_field-IsWellFormed append-two

append_answer_example :
    ((conflicts low one_field ≡ true) × (true ≡ false) × (two_fields ≡ one_field))
    ⊎ ((conflicts low one_field ≡ false)
        × (true ≡ true)
        × ((f : Field) × (two_fields.members ≡ one_field.members ++ f ∷ [])
            × ((f ≡ low) ⊎ (f ≡ relax low))))
append_answer_example =
    append_answer low one_field two_fields true one_field-IsWellFormed append-two

-- The same members in a union: named after they were appended.
abbrev union_of : List Field → List Field → Struct
union_of fs gs = record {
  name = txt "Range";
  is_xception = false;
  is_union = true;
  members_validated = true;
  members_with_value = 1;
  members = fs;
  members_in_id_order = gs;
  doc = none;
  annotations = [];
}

abbrev unnamed_union : Struct
unnamed_union = record {
  name = [];
  is_xception = false;
  is_union = true;
  members_validated = false;
  members_with_value = 0;
  members = high ∷ [];
  members_in_id_order = high ∷ [];
  doc = none;
  annotations = [];
}

abbrev optional_low : Field
optional_low = field 1 (txt "low") t_optional none

set_name-union : set_name (txt "Range") unnamed_union ≡ ok (union_of (high ∷ []) (high ∷ []))
unfolding set_name validate_union_members count_defaults count_default relax req_eq
set_name-union = refl

named_union-IsValidUnion : IsValidUnion (union_of (high ∷ []) (high ∷ []))
named_union-IsValidUnion =
    set_name-IsValidUnion (txt "Range") unnamed_union (union_of (high ∷ []) (high ∷ [])) refl refl
      refl refl set_name-union

append-union :
    append low (union_of (high ∷ []) (high ∷ []))
    ≡ ok (true, union_of (high ∷ optional_low ∷ []) (optional_low ∷ high ∷ []))
unfolding append lower_bound upper_bound field_by_name text_eq validate_union_member add_member
    insert_at relax count_default req_eq
append-union = refl

append-IsValidUnion_example :
    IsValidUnion (union_of (high ∷ optional_low ∷ []) (optional_low ∷ high ∷ []))
append-IsValidUnion_example =
    append-IsValidUnion low (union_of (high ∷ []) (high ∷ []))
      (union_of (high ∷ optional_low ∷ []) (optional_low ∷ high ∷ [])) true
      (record { sorted = (tt, tt); names = (tt, tt); same = Perm.refl _ }) named_union-IsValidUnion
      append-union

-- An enumeration of two values, and a constant of it by its number.
abbrev red : EnumValue
red = record { name = txt "RED"; value = pos 4; doc = none }

abbrev green : EnumValue
green = record { name = txt "GREEN"; value = pos 2; doc = none }

abbrev color : Enum
color = record { name = txt "Color"; constants = red ∷ green ∷ [] }

abbrev store : Store
store = record {
  struct_at = λ a. struct_of [] [] [];
  scope_type = λ p n. none;
  namespaces_at = λ t. [];
}

abbrev named_green : ConstValue
named_green = identifier (txt "Color.GREEN") (some color)

name_value-green : name_value store 3 [] (pos 2) color ≡ ok named_green
unfolding name_value get_constant_by_value
name_value-green = refl

dotless-red : rfind_char b'.' (txt "RED") ≡ none
unfolding rfind_char
dotless-red = refl

dotless-green : rfind_char b'.' (txt "GREEN") ≡ none
unfolding rfind_char
dotless-green = refl

get_integer-name_value_example : get_integer named_green ≡ ok (pos 2)
get_integer-name_value_example =
    get_integer-name_value store 3 [] (pos 2) color named_green (((λ h. cc), tt), (tt, tt))
      (dotless-red, (dotless-green, tt)) name_value-green

-- A list of the enumeration's numbers.
resolve-list :
    resolve_const_value store 3 []
      (list (item (integer (pos 2)) no_items))
      (list_type (enum_type color))
    ≡ ok (list (item named_green no_items))
unfolding resolve_const_value name_value get_constant_by_value
resolve-list = refl

resolve_const_value-again_example :
    resolve_const_value store 3 [] (list (item named_green no_items)) (list_type (enum_type color))
    ≡ ok (list (item named_green no_items))
resolve_const_value-again_example =
    resolve_const_value-again store 3 [] (list (item (integer (pos 2)) no_items))
      (list (item named_green no_items)) (list_type (enum_type color)) resolve-list

get_min_value-get_max_value_example :
    Bounds (red ∷ green ∷ []) (get_min_value color) (get_max_value color)
get_min_value-get_max_value_example = get_min_value-get_max_value color

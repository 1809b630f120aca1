-- ===== src/Tests/Rendering.antt =====
-- The generator on small inputs: constants, the description of a field, an enumeration and a whole
-- program.
use sparsam.Base.{
  ℕ, pos, negsuc, Text, txt, text_key, text_eq, find, ◌≡◌, refl, List, [], ◌∷◌, ◌++◌, true, false,
  none, some, All, find_char, rfind_char, arith,
}
use sparsam.Parse.Error.{ok}
use sparsam.Parse.Enum.{Enum, EnumValue}
use sparsam.Parse.ConstValue.{
  ConstValue, integer, string, identifier, map as map_value, list as list_value, item, no_items,
  pair, no_pairs, get_identifier_name, after_last_dot,
}
use sparsam.Parse.Scope.{get_true_type}
use sparsam.Parse.Types.{
  TType, Field, Struct, Const, Store, Program, base_type, typedef_type, enum_type, list_type,
  type_i32, t_required, t_optional,
}
use sparsam.Parse.Validate.{validate_const_rec, validate_const_type}
use sparsam.Parse.Collisions.{get_namespace}
use sparsam.Generator.Naming.{toupper, capitalize, underscore, tolower, underscore_rest}
use sparsam.Generator.Stream.{Stream}
use sparsam.Generator.Modules.{prefix_loop, last_prefix, rb_namespace_to_path_prefix}
use sparsam.Generator.Enums.{items, value_item}
use sparsam.Generator.Writes.{Writes}
use sparsam.Generator.Constants.{render_const_value}
use sparsam.Generator.Resolution.{IsResolved}
use sparsam.Generator.WellTyped.{render_const_value-validated}
use sparsam.Generator.Described.{IsDescribable}
use sparsam.Generator.Programs.{Generator, generate_program}
use sparsam.Generator.RubyFiles.{
  namespace_dirs, require_prefix, Files, made_dirs, get_out_dir, ruby_generator,
}
use sparsam.Generator.Completes.{FieldFits, ConstFits}
use sparsam.Generator.WholeProgram.{generate_program-completes}
use sparsam.Generator.ValueMap.{read_items, read_items-value_map}

abbrev at_margin : Stream
at_margin = record { written = []; level = pos 1 }

abbrev red : EnumValue
red = record { name = txt "red"; value = pos 4; doc = some (txt "warm\n") }

abbrev blue : EnumValue
blue = record { name = txt "blue"; value = negsuc 1; doc = none }

abbrev colors : List EnumValue
colors = red ∷ blue ∷ []

read_items-value_map_example :
    read_items 3 (items value_item colors ++ b'}' ∷ txt "\n")
    ≡ some ((pos 4, txt "Red") ∷ (negsuc 1, txt "Blue") ∷ [], txt "\n")
unfolding capitalize toupper
read_items-value_map_example = read_items-value_map colors (txt "\n") (ground arith)

-- A struct with a default value, whose address is 0, and a list of colors.
abbrev color : Enum
color = record { name = txt "color"; constants = colors }

abbrev i32 : TType
i32 = base_type (txt "i32") type_i32 false

abbrev size : Field
size = record {
  type = i32;
  name = txt "size";
  key = pos 1;
  req = t_required;
  value = some (integer (pos 3));
  doc = none;
  annotations = [];
}

abbrev tints : Field
tints = record {
  type = typedef_type (txt "tints") (list_type (enum_type color));
  name = txt "tints";
  key = pos 2;
  req = t_optional;
  value = none;
  doc = none;
  annotations = [];
}

abbrev brush : Struct
brush = record {
  name = txt "brush";
  is_xception = false;
  is_union = false;
  members_validated = false;
  members_with_value = 0;
  members = size ∷ tints ∷ [];
  members_in_id_order = size ∷ tints ∷ [];
  doc = none;
  annotations = [];
}

abbrev store : Store
store = record { struct_at = λ a. brush; scope_type = λ p n. none; namespaces_at = λ t. [] }

-- The constant { "size": 5 } of the struct, and a list of one color.
abbrev five : ConstValue
five = map_value (pair (string (txt "size")) (integer (pos 5)) no_pairs)

abbrev one_red : ConstValue
one_red = list_value (item (identifier (txt "color.red") (some color)) no_items)

abbrev no_double : ℕ → Text
no_double d = []

red_validated : validate_const_rec store (txt "reds") (list_type (enum_type color)) one_red ≡ ok tt
unfolding validate_const_rec text_eq find_char get_identifier_name
red_validated = refl

red_resolved : IsResolved store one_red (list_type (enum_type color))
unfolding IsResolved get_identifier_name after_last_dot find_char rfind_char
red_resolved = ((refl, refl), tt)

render_const_value-validated_example :
    Writes (render_const_value store 2 no_double (list_type (enum_type color)) one_red)
render_const_value-validated_example =
    render_const_value-validated store 1 no_double (list_type (enum_type color)) one_red
      (txt "reds") tt red_resolved red_validated

tints_describable : IsDescribable store 4 no_double 3 tints.type
unfolding IsDescribable get_true_type
tints_describable = (_, refl, (_, refl, tt))

abbrev reds : Const
reds = record { type = list_type (enum_type color); name = txt "reds"; value = one_red }

abbrev paint : Program
paint = record {
  path = txt "paint.thrift";
  name = txt "paint";
  out_path = txt "./";
  out_path_is_absolute = false;
  namespaces = (txt "rb", txt "art.Paint") ∷ [];
  includes = [];
  typedefs = [];
  enums = color ∷ [];
  consts = reds ∷ [];
  objects = brush ∷ [];
  structs = brush ∷ [];
  xceptions = [];
  services = [];
}

abbrev unopened : Files
unopened = record {
  types = record { written = []; level = pos 0 };
  consts = record { written = []; level = pos 0 };
  types_name = [];
  consts_name = [];
  made = [];
}

brush-Fits : All (FieldFits store 4 3 no_double) brush.members
unfolding IsDescribable get_true_type validate_const_rec IsResolved
brush-Fits = (((_, refl, tt), (tt, tt, (txt "size", refl))), ((tints_describable, tt), tt))

reds-Fits : ConstFits store 4 3 no_double reds
unfolding validate_const_type
reds-Fits = (tt, red_resolved, red_validated)

abbrev paint_generator : Generator Files
paint_generator = ruby_generator (txt "0.9") true store 5 3 no_double paint

generate_program-completes_example :
    (y : Files) × (generate_program paint_generator paint unopened ≡ ok y)
    × (y.types.level ≡ pos 0)
    × (y.consts.level ≡ pos 0)
    × (y.types_name
        ≡ (made_dirs (txt "0.9") true paint).1 ++ underscore (txt "paint") ++ txt "_types.rb")
    × (y.consts_name
        ≡ (made_dirs (txt "0.9") true paint).1 ++ underscore (txt "paint") ++ txt "_constants.rb")
    × (y.made ≡ [] ++ get_out_dir paint ∷ (made_dirs (txt "0.9") true paint).0)
generate_program-completes_example =
    generate_program-completes (txt "0.9") true paint store 4 3 no_double unopened (brush-Fits, tt)
      (reds-Fits, tt)

abbrev paint_made : List Text
paint_made = txt "./gen-ruby/" ∷ txt "./gen-ruby/art/" ∷ txt "./gen-ruby/art/paint/" ∷ []

directories_of_paint : get_out_dir paint ∷ (made_dirs (txt "0.9") true paint).0 ≡ paint_made
unfolding get_out_dir made_dirs namespace_dirs require_prefix rb_namespace_to_path_prefix
    prefix_loop find_char get_namespace find text_eq underscore tolower underscore_rest last_prefix
directories_of_paint = refl

-- ===== src/Generator/Fields.antt =====
-- compiler/src/generate/t_ruby_generator.cc: the description of a field in FIELDS.
use sparsam.Base.{
  ℕ, zero, suc, Bool, false, if◌then◌else◌, Text, txt, Dict, [], ◌∷◌, ◌++◌, Option, none, some,
  is_empty,
}
use sparsam.Parse.Error.{Fallible, ok, throw, ◌>>=◌, undefined_type, void_type, invalid_type}
use sparsam.Parse.ConstValue.{ConstValue}
use sparsam.Parse.Types.{
  TType, Base, Store, base_type, enum_type, struct_type, list_type, set_type, map_type, type_void,
  type_string, type_bool, type_byte, type_i16, type_i32, type_i64, type_double, get_name,
}
use sparsam.Parse.Scope.{get_true_type}
use sparsam.Generator.Stream.{Out, ◌>>◌, put, begin, line, indented, raise, pass, each, given}
use sparsam.Generator.Constants.{render_const_value, full_type_name}

-- The switch of type_to_enum.
unfoldable pub base_to_enum : Base → Fallible Text
base_to_enum type_void = throw void_type
base_to_enum type_string = ok (txt "::Sparsam::Types::STRING")
base_to_enum type_bool = ok (txt "::Sparsam::Types::BOOL")
base_to_enum type_byte = ok (txt "::Sparsam::Types::BYTE")
base_to_enum type_i16 = ok (txt "::Sparsam::Types::I16")
base_to_enum type_i32 = ok (txt "::Sparsam::Types::I32")
base_to_enum type_i64 = ok (txt "::Sparsam::Types::I64")
base_to_enum type_double = ok (txt "::Sparsam::Types::DOUBLE")

unfoldable pub is_binary : TType → Bool
is_binary (base_type n type_string q) = q
is_binary _ = false

-- The loop over annotations: 'key' => 'value',
unfoldable pub annotation_lines : Dict Text Text → Out
annotation_lines = each (λ a. line (b'\'' ∷ a.0 ++ txt "' => '" ++ a.1 ++ txt "',"))

module _ (st : Store) where
  -- type_to_enum behind get_true_type
  unfoldable pub true_type_to_enum : TType → Fallible Text
  true_type_to_enum (base_type n b q) = base_to_enum b
  true_type_to_enum (enum_type e) = ok (txt "::Sparsam::Types::I32")
  true_type_to_enum (struct_type a) = ok (txt "::Sparsam::Types::STRUCT")
  true_type_to_enum (map_type k w) = ok (txt "::Sparsam::Types::MAP")
  true_type_to_enum (set_type e) = ok (txt "::Sparsam::Types::SET")
  true_type_to_enum (list_type e) = ok (txt "::Sparsam::Types::LIST")
  true_type_to_enum t = throw (invalid_type (get_name st t))

  module _ (fuel : ℕ) (show_double : ℕ → Text) where
    unfoldable pub type_to_enum : TType → Fallible Text
    type_to_enum t = get_true_type st fuel t >>= true_type_to_enum

    -- What the entry has of the types inside: `inner` is the call of generate_field_data on them.
    unfoldable pub inner_entries : (TType → Out) → TType → Out
    inner_entries inner (struct_type a) =
        begin (txt ":class => " ++ full_type_name st (struct_type a)) >> put (txt ",\n")
    inner_entries inner (list_type e) = put (txt ":element => ") >> inner e >> put (txt ",\n")
    inner_entries inner (map_type k w) =
        put (txt ":key => ")
        >> inner k
        >> put (txt ",\n")
        >> put (txt ":value => ")
        >> inner w
        >> put (txt ",\n")
    inner_entries inner (set_type e) = put (txt ":element => ") >> inner e >> put (txt ",\n")
    inner_entries inner t =
        if is_binary t then put (txt ":binary => true") >> put (txt ",\n") else pass

    unfoldable pub enum_entry : TType → Out
    enum_entry (enum_type e) =
        begin (txt ":enum_class => " ++ full_type_name st (enum_type e)) >> begin (txt ",\n")
    enum_entry t = pass

    unfoldable pub name_entry : Text → Out
    name_entry field_name =
        if is_empty field_name then pass else line (txt ":name => '" ++ field_name ++ txt "',")

    unfoldable pub default_entry : TType → Option ConstValue → Out
    default_entry t none = pass
    default_entry t (some v) =
        begin (txt ":default => ") >> render_const_value st fuel show_double t v >> put (txt ",\n")

    unfoldable pub annotations_entry : Option (Dict Text Text) → Out
    annotations_entry none = pass
    annotations_entry (some as_) =
        line (txt ":annotations => {") >> indented (annotation_lines as_) >> line (txt "},")

    unfoldable pub optional_entry : Bool → Out
    optional_entry optional =
        if optional then begin (txt ":optional => true") >> put (txt ",\n") else pass

    -- generate_field_data of a type that is no typedef.
    unfoldable pub true_field_data :
        (TType → Out) → TType → Text → Option ConstValue → Bool → Option (Dict Text Text) → Out
    true_field_data inner t field_name field_value optional annotations =
        put (txt "{\n")
        >> indented (
            given (type_to_enum t) (λ e. line (txt ":type => " ++ e ++ txt ","))
            >> name_entry field_name
            >> default_entry t field_value
            >> inner_entries inner t
            >> optional_entry optional
            >> enum_entry t
            >> annotations_entry annotations)
        >> begin (txt "}")

    -- Its calls are nested as deep as the type is; that many rounds of fuel and one more are enough.
    unfoldable pub generate_field_data :
        ℕ → TType → Text → Option ConstValue → Bool → Option (Dict Text Text) → Out
    generate_field_data zero t field_name field_value optional annotations = raise undefined_type
    generate_field_data (suc depth) t field_name field_value optional annotations =
        given (get_true_type st fuel t) (λ u.
          true_field_data (λ e. generate_field_data depth e [] none false none) u field_name
            field_value optional annotations)

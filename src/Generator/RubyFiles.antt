-- ===== src/Generator/RubyFiles.antt =====
-- compiler/src/generate/t_ruby_generator.cc: t_ruby_generator itself: its two files, the
-- directories that it makes, and what it does for each virtual operation of t_generator.
use sparsam.Base.{
  ℕ, zero, suc, Bool, if◌then◌else◌, Text, txt, List, [], ◌∷◌, ◌++◌, none, some, find_char, take,
  drop, length, is_empty,
}
use sparsam.Parse.Error.{ok, ◌>>=◌}
use sparsam.Parse.Types.{Store, Struct, Program, Included}
use sparsam.Parse.Collisions.{get_namespace}
use sparsam.Generator.Naming.{underscore}
use sparsam.Generator.Modules.{modules, rb_namespace_to_path_prefix}
use sparsam.Generator.Stream.{Stream, Step, Out, ◌>>◌, put, line, indent_up, indent_down, pass}
use sparsam.Generator.Constants.{generate_const}
use sparsam.Generator.Enums.{generate_enum}
use sparsam.Generator.Structs.{generate_rb_struct}
use sparsam.Generator.Programs.{Generator}

-- f_types_ and f_consts_ with their names, and the directories made, in their order.
pub record Files : Type 0 where
  pub types : Stream
  pub consts : Stream
  pub types_name : Text
  pub consts_name : Text
  pub made : List Text

unfoldable pub on_types : Out → Step Files
on_types o f = o f.types >>= λ s. ok (record f { types = s })

unfoldable pub on_consts : Out → Step Files
on_consts o f = o f.consts >>= λ s. ok (record f { consts = s })

-- get_out_dir, with out_dir_base_
unfoldable pub get_out_dir : Program → Text
get_out_dir p =
    if p.out_path_is_absolute then p.out_path ++ txt "/" else p.out_path ++ txt "gen-ruby/"

-- The loop that makes the directories of a namespace, on fuel: the rounds left, which are fewer
-- than the bytes of `dir`. The result is the directories and the last of them.
unfoldable pub namespace_dirs : ℕ → Text → Text → List Text × Text
namespace_dirs zero subdir dir = ([], subdir)
namespace_dirs (suc f) subdir dir = elim (find_char b'/' dir) [
  | none ↦ ([], subdir)
  | some i ↦
      let next = subdir ++ take i dir ++ b'/' ∷ [] in
      let rest = namespace_dirs f next (drop (suc i) dir) in (next ∷ rest.0, rest.1)
]

unfoldable pub begin_namespace : List Text → Out
begin_namespace [] = pass
begin_namespace (m ∷ ms) = line (txt "module " ++ m) >> indent_up >> begin_namespace ms

-- The loop runs over the modules from the last to the first.
unfoldable pub end_namespace : List Text → Out
end_namespace [] = pass
end_namespace (m ∷ ms) = end_namespace ms >> indent_down >> line (txt "end")

abbrev pub program_modules : Program → List Text
program_modules p = modules (get_namespace (txt "rb") p.namespaces)

unfoldable pub close_generator : Program → Step Files
close_generator p =
    on_types (end_namespace (program_modules p)) >> on_consts (end_namespace (program_modules p))

module _ (thrift_version : Text) (namespaced : Bool) where
  unfoldable pub rb_autogen_comment : Text
  rb_autogen_comment =
      txt "#\n# Autogenerated by Thrift Compiler ("
      ++ thrift_version
      ++ txt ")\n#\n"
      ++ txt "# DO NOT EDIT UNLESS YOU ARE SURE THAT YOU KNOW WHAT YOU ARE DOING\n#\n"

  unfoldable pub require_of : Included → Text
  require_of i =
      if namespaced
      then txt "require '"
        ++ rb_namespace_to_path_prefix (get_namespace (txt "rb") i.namespaces)
        ++ underscore i.name
        ++ txt "_types'\n"
      else txt "require '" ++ underscore i.name ++ txt "_types'\n"

  unfoldable pub requires : List Included → Text
  requires [] = []
  requires (i ∷ is_) = require_of i ++ requires is_

  unfoldable pub render_includes : List Included → Text
  render_includes is_ = if is_empty is_ then [] else requires is_ ++ txt "\n"

  -- require_prefix_
  unfoldable pub require_prefix : Program → Text
  require_prefix p =
      if namespaced then rb_namespace_to_path_prefix (get_namespace (txt "rb") p.namespaces) else []

  unfoldable pub made_dirs : Program → List Text × Text
  made_dirs p =
      if namespaced
      then namespace_dirs (length (require_prefix p)) (get_out_dir p) (require_prefix p)
      else ([], get_out_dir p)

  unfoldable pub open_files : Program → Step Files
  open_files p f = ok (record f {
    types_name = (made_dirs p).1 ++ underscore p.name ++ txt "_types.rb";
    consts_name = (made_dirs p).1 ++ underscore p.name ++ txt "_constants.rb";
    made = f.made ++ get_out_dir p ∷ (made_dirs p).0;
  })

  unfoldable pub types_header : Program → Out
  types_header p =
      put (
        rb_autogen_comment ++ txt "\nrequire 'sparsam'\n" ++ render_includes p.includes ++ txt "\n")
      >> begin_namespace (program_modules p)

  unfoldable pub consts_header : Program → Out
  consts_header p =
      put (
        rb_autogen_comment
        ++ txt "\nrequire 'sparsam'\nrequire '"
        ++ require_prefix p
        ++ underscore p.name
        ++ txt "_types'\n\n")
      >> begin_namespace (program_modules p)

  unfoldable pub init_generator : Program → Step Files
  init_generator p = open_files p >> on_types (types_header p) >> on_consts (consts_header p)

  module _ (st : Store) (fuel depth : ℕ) (show_double : ℕ → Text) where
    -- generate_struct, and generate_xception, which t_generator defines by it.
    unfoldable pub generate_struct : Struct → Step Files
    generate_struct s = on_types (generate_rb_struct st fuel depth show_double s)

    unfoldable pub ruby_generator : Program → Generator Files
    ruby_generator p = record {
      init_generator = init_generator p;
      generate_enum = λ e. on_types (generate_enum e);
      generate_typedef = λ t. pass;
      generate_forward_declaration = λ s. pass;
      generate_xception = generate_struct;
      generate_struct = generate_struct;
      generate_const = λ c. on_consts (generate_const st fuel show_double c);
      generate_service = λ s. pass;
      close_generator = close_generator p;
    }

-- ===== src/Generator/Structs.antt =====
-- compiler/src/generate/t_ruby_generator.cc: FIELDS, ANNOTATIONS and the class of a struct, a union
-- or an exception.
use sparsam.Base.{ℕ, if◌then◌else◌, Text, txt, List, [], ◌∷◌, ◌++◌, some, decimal}
use sparsam.Parse.Types.{Field, Struct, Store, req_eq, t_optional}
use sparsam.Generator.Naming.{capitalize}
use sparsam.Generator.Stream.{Out, ◌>>◌, put, begin, line, indented, pass}
use sparsam.Generator.Docs.{generate_rdoc}
use sparsam.Generator.Fields.{generate_field_data, annotation_lines}

-- The superclass, by the tests of generate_rb_struct.
unfoldable pub superclass : Struct → Text
superclass s =
    if s.is_union
    then txt "::Sparsam::Union"
    else if s.is_xception
    then txt "::Sparsam::ApplicationException"
    else txt "::Sparsam::Struct"

unfoldable pub generate_schema_annotations : Struct → Out
generate_schema_annotations s =
    line (txt "ANNOTATIONS = {") >> indented (annotation_lines s.annotations) >> line (txt "}\n")

module _ (st : Store) (fuel depth : ℕ) (show_double : ℕ → Text) where
  unfoldable pub generate_field : Field → Out
  generate_field f =
      generate_rdoc f.doc
      >> begin (decimal f.key ++ txt " => ")
      >> generate_field_data st fuel show_double depth f.type f.name f.value
          (req_eq f.req t_optional) (some f.annotations)

  -- The fields behind the first, each behind a comma.
  unfoldable pub more_fields : List Field → Out
  more_fields [] = pass
  more_fields (f ∷ fs) = put (txt ",\n") >> generate_field f >> more_fields fs

  unfoldable pub field_list : List Field → Out
  field_list [] = pass
  field_list (f ∷ fs) = generate_field f >> more_fields fs

  unfoldable pub generate_field_defns : Struct → Out
  generate_field_defns s =
      line (txt "FIELDS = {")
      >> indented (field_list s.members)
      >> put (txt "\n")
      >> line (txt "}\n")

  unfoldable pub generate_rb_struct : Struct → Out
  generate_rb_struct s =
      generate_rdoc s.doc
      >> line (txt "class " ++ capitalize s.name ++ txt " < " ++ superclass s)
      >> indented (
          generate_field_defns s
          >> generate_schema_annotations s
          >> line (txt "init_thrift_struct(self)"))
      >> line (txt "end\n")

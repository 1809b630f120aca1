-- ===== src/Generator/Completes.antt =====
-- Which enumerations, structs and constants the Ruby generator writes without an exception.
use sparsam.Base.{ℕ, suc, ◌≡◌, Text, List, [], ◌∷◌, All}
use sparsam.Parse.Error.{ok}
use sparsam.Parse.Enum.{Enum, EnumValue}
use sparsam.Parse.Types.{Field, Struct, Const, Store}
use sparsam.Parse.Validate.{validate_const_type}
use sparsam.Generator.Writes.{
  Writes, put-Writes, pass-Writes, seq-Writes, indented-Writes, begin-Writes, line-Writes,
  each-Writes, generate_rdoc-Writes,
}
use sparsam.Generator.Constants.{generate_const}
use sparsam.Generator.Resolution.{IsDirect, IsResolved}
use sparsam.Generator.WellTyped.{render_const_value-validated}
use sparsam.Generator.Described.{
  IsDescribable, DefaultFits, generate_field_data-Writes, annotation_lines-Writes,
}
use sparsam.Generator.Enums.{constant_line, generate_enum}
use sparsam.Generator.Structs.{
  generate_schema_annotations, generate_field, more_fields, field_list, generate_field_defns,
  generate_rb_struct,
}

constant_line-Writes : (c : EnumValue) → Writes (constant_line c)
unfolding constant_line
constant_line-Writes c = search (seq-Writes, generate_rdoc-Writes, line-Writes)

pub generate_enum-Writes : (e : Enum) → Writes (generate_enum e)
unfolding generate_enum
generate_enum-Writes e =
    let constants = each-Writes constant_line e.constants constant_line-Writes in
    search (seq-Writes, line-Writes, indented-Writes, constants, begin-Writes, put-Writes) depth 16

module _ (st : Store) (f depth : ℕ) (show_double : ℕ → Text) where
  -- A field that FIELDS can describe.
  abbrev pub FieldFits : Field → Type 0
  FieldFits g =
      IsDescribable st f show_double depth g.type × DefaultFits st f show_double g.type g.value

  -- A constant that passed the validation.
  abbrev pub ConstFits : Const → Type 0
  ConstFits c = IsDirect c.type × IsResolved st c.value c.type × (validate_const_type st c ≡ ok tt)

  generate_field-Writes :
      (g : Field) → FieldFits g → Writes (generate_field st (suc f) depth show_double g)
  unfolding generate_field
  generate_field-Writes g h =
      seq-Writes _ _ (seq-Writes _ _ (generate_rdoc-Writes g.doc) (begin-Writes _))
        (generate_field_data-Writes st f show_double depth g.type g.name g.value _ _ h.0 h.1)

  more_fields-Writes :
      (gs : List Field) → All FieldFits gs → Writes (more_fields st (suc f) depth show_double gs)
  unfolding more_fields
  more_fields-Writes [] h = pass-Writes
  more_fields-Writes (g ∷ gs) h =
      seq-Writes _ _ (seq-Writes _ _ (put-Writes _) (generate_field-Writes g h.0))
        (more_fields-Writes gs h.1)

  field_list-Writes :
      (gs : List Field) → All FieldFits gs → Writes (field_list st (suc f) depth show_double gs)
  unfolding field_list
  field_list-Writes [] h = pass-Writes
  field_list-Writes (g ∷ gs) h =
      seq-Writes _ _ (generate_field-Writes g h.0) (more_fields-Writes gs h.1)

  generate_field_defns-Writes :
      (s : Struct)
      → All FieldFits s.members
      → Writes (generate_field_defns st (suc f) depth show_double s)
  unfolding generate_field_defns
  generate_field_defns-Writes s h =
      let fields = field_list-Writes s.members h in
      search (seq-Writes, line-Writes, put-Writes, indented-Writes, fields) depth 8

  pub generate_rb_struct-Writes :
      (s : Struct)
      → All FieldFits s.members
      → Writes (generate_rb_struct st (suc f) depth show_double s)
  unfolding generate_rb_struct generate_schema_annotations
  generate_rb_struct-Writes s h =
      let fields = generate_field_defns-Writes s h in
      let annotations = annotation_lines-Writes s.annotations in
      search (seq-Writes, line-Writes, indented-Writes, generate_rdoc-Writes, fields, annotations)
        depth 10

  pub generate_const-Writes :
      (c : Const) → ConstFits c → Writes (generate_const st (suc f) show_double c)
  unfolding generate_const validate_const_type
  generate_const-Writes c h =
      seq-Writes _ _
        (seq-Writes _ _ (begin-Writes _)
          (render_const_value-validated st f show_double c.type c.value c.name h.0 h.1 h.2))
        (put-Writes _)

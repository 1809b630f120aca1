-- ===== src/Generator/WholeProgram.antt =====
-- generate_program on the Ruby generator, from the opening of the two files to their closing.
use sparsam.Base.{ℕ, suc, ◌≡◌, refl, ap, ◌∙◌, Bool, Text, txt, ◌∷◌, ◌++◌, All, length}
use sparsam.Parse.Error.{Fallible, throw, ok, ◌>>=◌}
use sparsam.Parse.Types.{Struct, Store, Program}
use sparsam.Generator.Naming.{underscore}
use sparsam.Generator.Stream.{Step, ◌>>◌, each}
use sparsam.Generator.Writes.{put-Writes}
use sparsam.Generator.Programs.{Generator, generate_object, generate_program}
use sparsam.Generator.RubyFiles.{
  Files, on_types, on_consts, open_files, types_header, consts_header, init_generator,
  close_generator, generate_struct, ruby_generator, program_modules, made_dirs, get_out_dir,
}
use sparsam.Generator.Completes.{
  FieldFits, ConstFits, generate_enum-Writes, generate_rb_struct-Writes, generate_const-Writes,
}
use sparsam.Generator.Shifts.{
  Writes-Shifts, seq-Shifts, raised, lowered, lowered-raised, begin-Shifts, end-Shifts, FilesShift,
  types-Shift, consts-Shift, seq-Shift, Steady, pass-Steady, each-Steady, each-Steady_always,
  branch-Steady, types-Steady, consts-Steady,
}

module _ (thrift_version : Text) (namespaced : Bool) (p : Program) where
  abbrev nested : ℕ
  nested = length (program_modules p)

  headers-Shift : FilesShift (raised nested) (raised nested) (
      on_types (types_header thrift_version namespaced p)
      >> on_consts (consts_header thrift_version namespaced p))
  unfolding types_header consts_header
  headers-Shift =
      seq-Shift (raised nested) (λ l. l) (λ l. l) (raised nested) _ _
        (types-Shift (raised nested) _ (
          seq-Shifts (λ l. l) (raised nested) _ _ (Writes-Shifts _ (put-Writes _))
            (begin-Shifts _)))
        (consts-Shift (raised nested) _ (
          seq-Shifts (λ l. l) (raised nested) _ _ (Writes-Shifts _ (put-Writes _))
            (begin-Shifts _)))

  close-Shift : FilesShift (lowered nested) (lowered nested) (close_generator p)
  unfolding close_generator
  close-Shift =
      seq-Shift (lowered nested) (λ l. l) (λ l. l) (lowered nested) _ _
        (types-Shift (lowered nested) _ (end-Shifts _))
        (consts-Shift (lowered nested) _ (end-Shifts _))

  module _ (st : Store) (f depth : ℕ) (show_double : ℕ → Text) where
    abbrev generator : Generator Files
    generator = ruby_generator thrift_version namespaced st (suc f) depth show_double p

    object-Steady :
        (o : Struct)
        → All (FieldFits st f depth show_double) o.members
        → Steady (generate_object generator o)
    unfolding generate_object ruby_generator generate_struct
    object-Steady o h =
        let wrote = types-Steady _ (generate_rb_struct-Writes st f depth show_double o h) in
        branch-Steady o.is_xception _ _ wrote wrote

    -- What stands between init_generator and close_generator.
    body : Step Files
    body =
        each generator.generate_enum p.enums
        >> each generator.generate_typedef p.typedefs
        >> each generator.generate_forward_declaration p.objects
        >> each (generate_object generator) p.objects
        >> each generator.generate_const p.consts
        >> each generator.generate_service p.services

    body-Steady :
        All (λ o. All (FieldFits st f depth show_double) o.members) p.objects
        → All (ConstFits st f depth show_double) p.consts
        → Steady body
    unfolding body ruby_generator
    body-Steady objects consts =
        let enums = each-Steady_always _ p.enums (λ e. types-Steady _ (generate_enum-Writes e)) in
        let typedefs = each-Steady_always _ p.typedefs (λ t. pass-Steady) in
        let forwards = each-Steady_always _ p.objects (λ o. pass-Steady) in
        let structs = each-Steady _ _ p.objects object-Steady objects in
        let constants =
          each-Steady _ _ p.consts
            (λ c h. consts-Steady _ (generate_const-Writes st f depth show_double c h)) consts in
        let services = each-Steady_always _ p.services (λ s. pass-Steady) in
        seq-Shift _ _ _ _ _ _
          (seq-Shift _ _ _ _ _ _
            (seq-Shift _ _ _ _ _ _
              (seq-Shift _ _ _ _ _ _ (seq-Shift _ _ _ _ _ _ enums typedefs) forwards) structs)
            constants)
          services

    >>=-body :
        (r : Fallible Files)
        → (r
            >>= each generator.generate_enum p.enums
            >>= each generator.generate_typedef p.typedefs
            >>= each generator.generate_forward_declaration p.objects
            >>= each (generate_object generator) p.objects
            >>= each generator.generate_const p.consts
            >>= each generator.generate_service p.services)
          ≡ (r >>= body)
    unfolding body
    >>=-body (throw e) = refl
    >>=-body (ok x) = refl

    -- A program is generated without an exception where FIELDS can describe the type of every field
    -- of its objects, and its constants and default values passed the validation, are of types that
    -- have no typedef in them, nor have those of the fields that they name, and have their
    -- identifiers resolved. At the end
    -- both files are as far indented as they were before, they have the names of the program in the
    -- last of the directories made, and the directories of the program were made.
    pub generate_program-completes :
        (x : Files)
        → All (λ o. All (FieldFits st f depth show_double) o.members) p.objects
        → All (ConstFits st f depth show_double) p.consts
        → (y : Files) × (generate_program generator p x ≡ ok y)
          × (y.types.level ≡ x.types.level)
          × (y.consts.level ≡ x.consts.level)
          × (y.types_name
              ≡ (made_dirs thrift_version namespaced p).1 ++ underscore p.name ++ txt "_types.rb")
          × (y.consts_name
              ≡ (made_dirs thrift_version namespaced p).1
                ++ underscore p.name
                ++ txt "_constants.rb")
          × (y.made ≡ x.made ++ get_out_dir p ∷ (made_dirs thrift_version namespaced p).0)
    unfolding generate_program ruby_generator init_generator open_files FilesShift body
    generate_program-completes x objects consts =
        let opened : Files = record x {
          types_name =
              (made_dirs thrift_version namespaced p).1 ++ underscore p.name ++ txt "_types.rb";
          consts_name =
              (made_dirs thrift_version namespaced p).1 ++ underscore p.name ++ txt "_constants.rb";
          made = x.made ++ get_out_dir p ∷ (made_dirs thrift_version namespaced p).0;
        } in
        let (a, ea, ta, ca, na, ma, da) = headers-Shift opened in
        let (b, eb, tb, cb, nb, mb, db) = body-Steady objects consts a in
        let (c, ec, tc, cc_, nc, mc, dc) = close-Shift b in
        (
          c,
          (ap (λ r. r >>= close_generator p) (>>=-body _ ∙ ap (λ r. r >>= body) ea)
                ∙ ap (λ r. r >>= close_generator p) eb)
              ∙ ec,
          tc ∙ (ap (lowered nested) (tb ∙ ta) ∙ lowered-raised nested _),
          cc_ ∙ (ap (lowered nested) (cb ∙ ca) ∙ lowered-raised nested _),
          nc ∙ (nb ∙ na),
          mc ∙ (mb ∙ ma),
          dc ∙ (db ∙ da),
        )

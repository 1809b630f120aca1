-- ===== src/Generator/Programs.antt =====
-- compiler/src/generate/t_generator.h and t_generator.cc: a generator as its virtual operations on
-- some state, and generate_program over them.
use sparsam.Base.{if◌then◌else◌}
use sparsam.Parse.Enum.{Enum}
use sparsam.Parse.Types.{Typedef, Struct, Const, Service, Program}
use sparsam.Generator.Stream.{Step, ◌>>◌, each}

pub record Generator (S : Type 0) : Type 0 where
  pub init_generator : Step S
  pub generate_enum : Enum → Step S
  pub generate_typedef : Typedef → Step S
  pub generate_forward_declaration : Struct → Step S
  pub generate_xception : Struct → Step S
  pub generate_struct : Struct → Step S
  pub generate_const : Const → Step S
  pub generate_service : Service → Step S
  pub close_generator : Step S

module _ {S : Type 0} (g : Generator S) where
  -- The body of the second loop over the objects.
  unfoldable pub generate_object : Struct → Step S
  generate_object o = if o.is_xception then g.generate_xception o else g.generate_struct o

  unfoldable pub generate_program : Program → Step S
  generate_program p =
      g.init_generator
      >> each g.generate_enum p.enums
      >> each g.generate_typedef p.typedefs
      >> each g.generate_forward_declaration p.objects
      >> each generate_object p.objects
      >> each g.generate_const p.consts
      >> each g.generate_service p.services
      >> g.close_generator

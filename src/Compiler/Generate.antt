-- ===== src/Compiler/Generate.antt =====
-- compiler/src/main.cc: generate. A program is its path and output path over the programs that it
-- includes. The generators are not modelled: a run of one is an event, and it may throw.
use sparsam.Base.{Text, text_eq, Bool, List, [], ◌∷◌, ◌++◌, any, none, some, if◌then◌else◌}
use sparsam.Compiler.Names.{set_out_path}

mutual
  pub data Source : Type 0 where
    source : Text → Includes → Source

  pub data Includes : Type 0 where
    no_includes : Includes
    include : Source → Includes → Includes

abbrev pub path_of : Source → Text
path_of (source path ps) = path

-- One run of a generator: its name, the program's path, and its output path.
pub record Run : Type 0 where
  pub generator : Text
  pub path : Text
  pub out_path : Text

-- generated_files in the order of insertion, and the runs.
pub record Generated : Type 0 where
  pub generated_files : List Text
  pub runs : List Run

unfoldable pub is_generated : Text → List Text → Bool
is_generated path files = any (λ f. text_eq f path) files

-- `known` is a generator that the registry has, `throws` a run of one that ends with an exception.
module _ (known : Text → Bool) (throws : Run → Bool) (gen_recurse : Bool) where
  -- The loop over the generator strings, in its try block.
  unfoldable pub run_generators : List Text → Text → Text → List Run
  run_generators [] path out_path = []
  run_generators (g ∷ gs) path out_path =
      let run : Run = record { generator = g; path = path; out_path = out_path } in
      let rest = run_generators gs path out_path in
      if known g then if throws run then run ∷ [] else run ∷ rest else rest

  module _ (generator_strings : List Text) where
    -- The second half of generate: the runs, and generated_files.insert.
    unfoldable pub generate_one : Text → Text → Generated → Generated
    unfolding run_generators
    generate_one path out_path s = record {
      generated_files =
          if is_generated path s.generated_files
          then s.generated_files
          else s.generated_files ++ path ∷ [];
      runs = s.runs ++ run_generators generator_strings path out_path;
    }

    -- set_out_path of an included program; its exception leaves the path as it is, and never
    -- happens, since an output path is never empty.
    abbrev pub child_out_path : Text → Text
    child_out_path out_path = elim (set_out_path out_path) [ none ↦ out_path | some o ↦ o ]

    -- generate over what the recursion makes of the included programs.
    unfoldable pub generate_after : Text → Text → Generated → Generated → Generated
    unfolding generate_one is_generated
    generate_after path out_path inner s =
        if is_generated path s.generated_files
        then s
        else generate_one path out_path (if gen_recurse then inner else s)

    unfoldable mutual
      unfolding generate_after set_out_path

      pub generate : Source → Text → Generated → Generated
      generate (source path ps) out_path s =
          generate_after path out_path (generate_includes ps (child_out_path out_path) s) s

      pub generate_includes : Includes → Text → Generated → Generated
      generate_includes no_includes out_path s = s
      generate_includes (include p ps) out_path s =
          generate_includes ps out_path (generate p out_path s)

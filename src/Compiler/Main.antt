-- ===== src/Compiler/Main.antt =====
-- compiler/src/main.cc: main behind its options, and audit with its two parses. What the grammar
-- builds of a program, the tree of what it includes and the runs of generators are parameters.
use sparsam.Base.{
  ℕ, Text, txt, Bool, false, ◌&&◌, List, [], ◌∷◌, ◌++◌, is_empty, Option, none, some, if◌then◌else◌,
}
use sparsam.Parse.Types.{Program, Store}
use sparsam.Audit.Log.{Log}
use sparsam.Audit.Run.{audit, exit_status}
use sparsam.Compiler.Names.{set_out_path}
use sparsam.Compiler.Generate.{Includes, source, Run, Generated, generate}
use sparsam.Compiler.ParseFiles
use sparsam.Compiler.ParseFiles.{Scope, Parsing, ProgramScopes, Parser, parse}
use sparsam.Compiler.CommandLine.{
  Options, usage, failure, stop_status, Reading, out_of_fuel, crash, stop, ready, ◌>>=◌,
  read_command_line,
}

-- What becomes of a parse that does not give a program.
unfoldable pub from_parse : {A : Type 0} → Parsing A → Reading A
from_parse ParseFiles.out_of_fuel = out_of_fuel
from_parse ParseFiles.failure = stop failure
from_parse ParseFiles.crash = crash
from_parse (ParseFiles.parsed a) = ready a

-- if (!path.empty()) g_incl_searchpath.push_back(path)
unfoldable pub with_directory : Text → List Text → List Text
with_directory path dirs = if is_empty path then dirs else dirs ++ path ∷ []

-- What main leaves when it returns.
pub record Ended : Type 0 where
  pub status : ℕ
  pub log : Log
  pub generated : Generated

abbrev pub start_log : Options → Log
start_log o = record { g_warn = o.g_warn; printed = []; reported = []; g_return_failure = false }

abbrev pub nothing_generated : Generated
nothing_generated = record { generated_files = []; runs = [] }

-- A crash has none: it is the end by a signal.
unfoldable pub exit_code : Reading Ended → Option ℕ
unfolding stop_status
exit_code out_of_fuel = none
exit_code crash = none
exit_code (stop e) = some (stop_status e)
exit_code (ready r) = some r.status

-- The system, and what is generated from the grammar: the parser finds the included files by the
-- search path; `built` is the program that the grammar's actions make over a scope, in `st`.
pub record World : Type 0 where
  pub real : Text → Option Text
  pub is_directory : Text → Bool
  pub parser : List Text → Parser
  pub built : List Text → Text → Scope → Program
  pub st : Store
  pub includes : List Text → Text → Includes
  pub known : Text → Bool
  pub throws : Run → Bool

module _ (w : World) (f : ℕ) where
  -- parse(program, NULL)
  unfoldable pub load : List Text → Text → ProgramScopes → Reading (Program × ProgramScopes)
  unfolding from_parse
  load dirs path cache = from_parse (parse (w.parser dirs) f path cache) >>= λ r.
      ready (w.built dirs path (r.0).scope, r.1)

  -- audit, with the search path as its callers of parse see it
  unfoldable pub audit_files : Options → Text → Text → Reading Log
  unfolding load with_directory
  audit_files o new_file old_file =
      load (with_directory o.old_thrift_include_path o.g_incl_searchpath) old_file [] >>= λ old.
      load (with_directory o.new_thrift_include_path o.g_incl_searchpath) new_file old.1 >>= λ new.
      ready (audit w.st new.0 old.0 (start_log o))

  -- The generator that main adds where none was asked for.
  unfoldable pub generators : Options → List Text
  generators o =
      if o.namespaced_option then o.generator_strings else o.generator_strings ++ txt "ruby" ∷ []

  -- set_out_path, where an output path was given; it throws for none that is not empty.
  unfoldable pub out_path_of : Text → Text
  out_path_of path = elim (set_out_path path) [ none ↦ txt "./" | some p ↦ p ]

  unfoldable pub generate_file : Options → Text → Reading Generated
  unfolding load generators out_path_of
  generate_file o file = load o.g_incl_searchpath file [] >>= λ r. ready (
      generate w.known w.throws o.gen_recurse (generators o)
        (source file (w.includes o.g_incl_searchpath file)) (out_path_of o.out_path)
        nothing_generated)

  -- The two operations, on the file as realpath names it.
  unfoldable pub operate : Options → Text → Reading Ended
  unfolding audit_files generate_file
  operate o file =
      if o.g_audit
      then audit_files o file o.old_input_file >>= (λ log. ready (record {
        status = exit_status o.g_audit_fatal log;
        log = log;
        generated = nothing_generated;
      }))
      else generate_file o file >>= (λ g. ready (record {
        status = exit_status o.g_audit_fatal (start_log o);
        log = start_log o;
        generated = g;
      }))

  -- main behind its options: argv[i], and its realpath.
  unfoldable pub run_options : Options → Option Text → Reading Ended
  unfolding operate
  run_options o none = stop usage
  run_options o (some file) =
      if o.g_audit && is_empty o.old_input_file
      then stop usage
      else elim (w.real file) [ none ↦ stop failure | some rp ↦ operate o rp ]

  unfoldable pub main : List Text → Reading Ended
  unfolding run_options
  main args = read_command_line w.real w.is_directory args >>= λ r. run_options r.0 r.1

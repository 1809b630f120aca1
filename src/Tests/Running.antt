-- ===== src/Tests/Running.antt =====
-- The compiler from its command line, over two files: the versions of Auditing.
use sparsam.Base.{
  ℕ, ◌≡◌, refl, Text, txt, text_eq, Bool, true, false, ◌&&◌, List, [], ◌∷◌, none, some,
  if◌then◌else◌, text_key, find, arith, All, subst,
}
use sparsam.Audit.Verdict.Program.{program_breaks}
use sparsam.Compiler.Generate.{no_includes}
use sparsam.Compiler.ParseFiles.{
  Parser, done, crashes, parse, scope_of, empty_scope, Parsed, parsed, passed, scan_includes,
  parse_types, declare_all,
}
use sparsam.Compiler.Anew.{IsRanked, included_scope, gathered, parse_anew, meaning}
use sparsam.Compiler.CommandLine.{
  Options, defaults, ready, stop, crash, read_args, last_argument, ◌>>=◌, ending, read_command_line,
}
use sparsam.Compiler.Main.{
  World, exit_code, main, run_options, operate, generate_file, load, from_parse,
}
use sparsam.Compiler.MainExits.{IsDeep}
use sparsam.Compiler.MainAudit.{main-audit}
use sparsam.Compiler.Settings.{
  Setting, audit_of, recurse, include_directory, written, apply_all, read_command_line-written,
}
use sparsam.Tests.Auditing.{
  store, new_program, old_program, new_program-IsSorted, old_program-IsSorted,
}

abbrev files : Parser
files = record {
  opens = λ path. true;
  includes_pass = λ path. done [];
  types_pass = λ path s. done [];
}

abbrev old_file : Text
old_file = txt "old.thrift"

abbrev new_file : Text
new_file = txt "new.thrift"

abbrev world : World
world = record {
  real = λ path. some path;
  is_directory = λ path. false;
  parser = λ dirs. files;
  built = λ dirs path s. if text_eq path old_file then old_program else new_program;
  st = store;
  includes = λ dirs path. no_includes;
  known = λ g. true;
  throws = λ r. false;
}

abbrev no_depth : Text → ℕ
no_depth path = 0

done_injective : {A : Type 0} {a b : A} → done a ≡ done b → a ≡ b
done_injective h = cc

files-IsRanked : IsRanked files no_depth
files-IsRanked path paths h = subst (All _) (done_injective h) tt

world-IsDeep : IsDeep world 1 no_depth
world-IsDeep = (λ dirs. files-IsRanked, λ path. omega arith)

abbrev nothing : Parsed
nothing = record { scope = empty_scope; declarations = [] }

parsed_file : (path : Text) → meaning files no_depth path ≡ parsed nothing
unfolding parse_anew gathered included_scope scan_includes passed parse_types declare_all
parsed_file path = refl

abbrev settings : List (Bool × Setting)
settings = (true, audit_of old_file) ∷ []

abbrev options : Options
options = record defaults { g_audit = true; old_input_file = old_file }

main-audit_example :
    exit_code (main world 1 (written settings (new_file ∷ [])))
    ≡ some (if program_breaks store new_program old_program && true then 2 else 0)
unfolding apply_all ending text_eq
main-audit_example =
    main-audit world 1 no_depth world-IsDeep options new_file nothing nothing (refl, refl)
      (parsed_file old_file) (parsed_file new_file) (new_program-IsSorted, old_program-IsSorted)
      new_file settings refl refl refl refl refl

-- An output directory that is none.
abbrev misdirected : List Text
misdirected = txt "-o" ∷ txt "out" ∷ new_file ∷ []

-- A parser that crashes in its first pass.
abbrev crashing : World
crashing = record world { parser = λ dirs. record files { includes_pass = λ path. crashes } }

crashed : main crashing 1 (new_file ∷ []) ≡ crash
unfolding main run_options operate generate_file load from_parse read_command_line read_args ending
    parse scope_of scan_includes passed find last_argument text_eq
crashed = refl

abbrev several : List (Bool × Setting)
several = (false, recurse) ∷ (true, include_directory (txt "-r")) ∷ []

read_command_line-written_example :
    read_command_line world.real world.is_directory (written several (new_file ∷ [])) ≡ (
      apply_all world.real world.is_directory several defaults >>= λ o. elim (ending new_file) [
        | none ↦ ready (o, some new_file)
        | some e ↦ stop e
      ])
read_command_line-written_example =
    read_command_line-written world.real world.is_directory several new_file

-- ===== src/Tests/Compiling.antt =====
-- A program that includes two others, of which one is generated already, and output directories.
use sparsam.Base.{
  inl, Text, txt, text_eq, ◌≡◌, refl, Bool, true, false, List, [], ◌∷◌, All, some, none, all,
  find_char, ◌⊎◌,
}
use sparsam.Parse.Collisions.{Declared, Named}
use sparsam.Compiler.Names.{set_out_path}
use sparsam.Compiler.Generate.{
  Source, Includes, source, include, no_includes, Run, Generated, generate, is_generated,
}
use sparsam.Compiler.Doctext.{
  clean_up_doctext, clean_lines, lines_loop, first_nonblank, is_blank, remove_cr, scan, scan_text,
  starts_with, star_end, without_stars, least_margin, without_margin, trim_end, last_nonblank,
  drop_empty_first, join_lines, erase_to,
}
use sparsam.Compiler.DocLines.{split_lines, drop_blank_last}
use sparsam.Compiler.Tidy.{is_ignored, IsTidy, clean_up_doctext_lem}
use sparsam.Compiler.DocStatus.{
  Event, doctext_read, header, node_documented, DocState, no_program_doctext, run,
  reset_program_doctext_info,
}
use sparsam.Compiler.ProgramDoc.{outcome, program_doc, run-program_doc}
use sparsam.Compiler.Main.{nothing_generated}
use sparsam.Compiler.Runs.{wanted, IsRun}
use sparsam.Compiler.TreeRuns.{IsAcyclic, occurs, generate-runs}
use sparsam.Compiler.Once.{Keeps, generate-Keeps, included, runs_at}

abbrev is_ruby : Text → Bool
is_ruby g = text_eq g (txt "ruby")

abbrev never_throws : Run → Bool
never_throws r = false

abbrev shared : Source
shared = source (txt "shared.thrift") no_includes

abbrev tree : Includes
tree =
    include shared (include (source (txt "user.thrift") (include shared no_includes)) no_includes)

abbrev before : Generated
before = record { generated_files = txt "shared.thrift" ∷ []; runs = [] }

shared-generated : is_generated (txt "shared.thrift") before.generated_files ≡ true
unfolding is_generated text_eq
shared-generated = refl

generate-Keeps_example :
    Keeps is_ruby never_throws true (txt "ruby" ∷ []) (txt "shared.thrift") before (
      generate is_ruby never_throws true
        (txt "ruby" ∷ [])
        (source (txt "main.thrift") tree)
        (txt "out/")
        before)
generate-Keeps_example =
    generate-Keeps is_ruby never_throws true (txt "ruby" ∷ []) (source (txt "main.thrift") tree)
      (txt "shared.thrift") (txt "out/") before shared-generated

-- No program is generated yet.
nothing_generated-IsRun : IsRun is_ruby never_throws true (txt "ruby" ∷ []) nothing_generated
unfolding is_generated runs_at
nothing_generated-IsRun q = inl (refl, refl)

tree-IsAcyclic : IsAcyclic (source (txt "main.thrift") tree)
unfolding IsAcyclic occurs text_eq
tree-IsAcyclic = (refl, ((refl, tt), ((refl, ((refl, tt), tt)), tt)))

main-new : is_generated (txt "main.thrift") [] ≡ false
unfolding is_generated
main-new = refl

abbrev after : Generated
after =
    generate is_ruby never_throws true (txt "ruby" ∷ []) (source (txt "main.thrift") tree)
      (txt "out/") nothing_generated

generate-runs_example :
    IsRun is_ruby never_throws true (txt "ruby" ∷ []) after
    × All
        (λ q.
          (o : Text) × (runs_at q after.runs
            ≡ wanted is_ruby never_throws true (txt "ruby" ∷ []) q o))
        (txt "main.thrift" ∷ included tree)
generate-runs_example =
    generate-runs is_ruby never_throws true (txt "ruby" ∷ []) (txt "main.thrift") tree (txt "out/")
      nothing_generated refl tree-IsAcyclic nothing_generated-IsRun main-new

out-slash : set_out_path (txt "out") ≡ some (txt "out/")
unfolding set_out_path
out-slash = refl

abbrev named : Named
named = record { address = 1; name = txt "User" }

abbrev this_program : Declared
this_program = record {
  address = 10;
  namespaces = (txt "*", txt "app") ∷ [];
  typedefs = [];
  enums = record { address = 2; name = txt "User" } ∷ [];
  objects = named ∷ [];
  services = [];
}

abbrev has_file : Text → Bool
has_file f = text_eq f (txt "inc/a.thrift")

-- A doc whose lines begin with a star, and one that has nothing in it.
abbrev starred : Text
starred = txt " A user.\n  * Has a name.\n  *   And an id. \n  "

cleaned : clean_up_doctext starred ≡ some (txt "A user.\nHas a name.\n  And an id.\n")
unfolding clean_up_doctext clean_lines lines_loop find_char first_nonblank is_blank remove_cr scan
    scan_text starts_with star_end without_stars least_margin without_margin trim_end last_nonblank
    drop_empty_first join_lines erase_to
cleaned = refl

clean_up_doctext_lem_example :
    ((clean_up_doctext starred ≡ none) × (all is_ignored starred ≡ true))
    ⊎ ((l : Text) × (ls : List Text) × (drop_blank_last (split_lines (remove_cr starred)) ≡ l ∷ ls)
        × (clean_up_doctext starred ≡ some (join_lines (clean_lines l ls)))
        × All IsTidy (clean_lines l ls)
        × (all is_ignored starred ≡ false))
clean_up_doctext_lem_example = clean_up_doctext_lem starred

abbrev headed : List Event
headed = doctext_read starred 4 ∷ header ∷ doctext_read (txt "Another") 9 ∷ node_documented ∷ []

abbrev start : DocState
start = record {
  doctext = none;
  lineno = 0;
  candidate = none;
  program_lineno = 0;
  status = no_program_doctext;
}

run-program_doc_example :
    outcome (run headed (reset_program_doctext_info start)) ≡ program_doc headed
run-program_doc_example = run-program_doc headed start

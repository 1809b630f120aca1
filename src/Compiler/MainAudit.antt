-- ===== src/Compiler/MainAudit.antt =====
-- An audit from its command line to its exit status.
use sparsam.Base.{
  ℕ, ◌≡◌, ◌≢◌, refl, sym, ap, ◌∙◌, Text, Bool, true, false, ◌&&◌, and-true, and-false, List, [],
  ◌∷◌, is_empty, none, some, if◌then◌else◌, find, text_key,
}
use sparsam.Parse.Types.{Program}
use sparsam.Audit.Log.{Log}
use sparsam.Audit.Run.{audit, exit_status}
use sparsam.Audit.Verdict.Program.{IsSortedProgram, program_breaks, exit_status-audit}
use sparsam.Compiler.ParseFiles
use sparsam.Compiler.ParseFiles.{Parsing, Parsed, ProgramScopes, parsed, parse}
use sparsam.Compiler.Anew.{meaning}
use sparsam.Compiler.Memo.{IsCoherent, Agrees, parse-Agrees}
use sparsam.Compiler.CommandLine.{
  Options, failure, Reading, stop, ready, ◌>>=◌, read_command_line, defaults, ending,
}
use sparsam.Compiler.Main.{
  from_parse, with_directory, Ended, start_log, exit_code, World, load, audit_files, operate,
  run_options, main, nothing_generated,
}
use sparsam.Compiler.MainExits.{IsDeep}
use sparsam.Compiler.Settings.{Setting, written, apply_all, read_command_line-written}

failed-parsed : {A : Type 0} {a : A} → ParseFiles.failure ≢ parsed a
failed-parsed = λ h. cc

crashed-parsed : {A : Type 0} {a : A} → ParseFiles.crash ≢ parsed a
crashed-parsed = λ h. cc

parsed_injective : {A : Type 0} {a b : A} → parsed a ≡ parsed b → a ≡ b
parsed_injective h = cc

if-then : {A : Type 0} (b : Bool) (x y : A) → b ≡ true → (if b then x else y) ≡ x
if-then true x y h = refl
if-then false x y h = cc

if-else : {A : Type 0} (b : Bool) (x y : A) → b ≡ false → (if b then x else y) ≡ y
if-else true x y h = cc
if-else false x y h = refl

module _ (w : World) (f : ℕ) (rank : Text → ℕ) (deep : IsDeep w f rank) where
  -- The program of a file, read with the search path `dirs`.
  abbrev pub program_of : List Text → Text → Parsed → Program
  program_of dirs path p = w.built dirs path p.scope

  abbrev loaded : List Text → Text → Parsed × ProgramScopes → Reading (Program × ProgramScopes)
  loaded dirs path t = ready (w.built dirs path (t.0).scope, t.1)

  parsed-load :
      (dirs : List Text) (path : Text) (p : Parsed) (r : Parsing (Parsed × ProgramScopes))
      → meaning (w.parser dirs) rank path ≡ parsed p
      → Agrees (w.parser dirs) rank (meaning (w.parser dirs) rank path) r
      → (c : ProgramScopes) × IsCoherent (w.parser dirs) rank c
        × ((from_parse r >>= loaded dirs path) ≡ ready (program_of dirs path p, c))
  unfolding from_parse
  parsed-load dirs path p ParseFiles.out_of_fuel m h = absurd h
  parsed-load dirs path p ParseFiles.failure m h = absurd (failed-parsed (sym h ∙ m))
  parsed-load dirs path p ParseFiles.crash m h = absurd (crashed-parsed (sym h ∙ m))
  parsed-load dirs path p (ParseFiles.parsed (q, c)) m h =
      (c, h.1, ap (λ x. ready (program_of dirs path x, c)) (parsed_injective (sym h.0 ∙ m)))

  meaning-load :
      (dirs : List Text) (path : Text) (cache : ProgramScopes) (p : Parsed)
      → meaning (w.parser dirs) rank path ≡ parsed p
      → IsCoherent (w.parser dirs) rank cache
      → (c : ProgramScopes) × IsCoherent (w.parser dirs) rank c
        × (load w f dirs path cache ≡ ready (program_of dirs path p, c))
  unfolding load
  meaning-load dirs path cache p m h =
      parsed-load dirs path p (parse (w.parser dirs) f path cache) m
        (parse-Agrees (w.parser dirs) rank (deep.0 dirs) f path cache (deep.1 path) h)

  empty-IsCoherent : (dirs : List Text) → IsCoherent (w.parser dirs) rank []
  unfolding find
  empty-IsCoherent dirs path s h = absurd cc

  fatal_or_not :
      (fatal : Bool) (new old : Program) (o : Options)
      → IsSortedProgram new
      → IsSortedProgram old
      → exit_status fatal (audit w.st new old (start_log o))
        ≡ (if program_breaks w.st new old && fatal then 2 else 0)
  unfolding exit_status
  fatal_or_not true new old o a b =
      exit_status-audit w.st new old (start_log o) a b refl
      ∙ ap (λ c. if c then 2 else 0) (sym (and-true (program_breaks w.st new old)))
  fatal_or_not false new old o a b =
      ap (λ c. if c then 2 else 0)
        (and-false (audit w.st new old (start_log o)).g_return_failure
          ∙ sym (and-false (program_breaks w.st new old)))

  module _ (o : Options) (new_file : Text) (p q : Parsed)
      (plain : (o.old_thrift_include_path ≡ []) × (o.new_thrift_include_path ≡ []))
      (old_parsed : meaning (w.parser o.g_incl_searchpath) rank o.old_input_file ≡ parsed p)
      (new_parsed : meaning (w.parser o.g_incl_searchpath) rank new_file ≡ parsed q)
      (sorted : IsSortedProgram (program_of o.g_incl_searchpath new_file q)
        × IsSortedProgram (program_of o.g_incl_searchpath o.old_input_file p)) where
    -- audit with the two search paths
    abbrev audits : List Text → List Text → Reading Log
    audits dirs dirs' = load w f dirs o.old_input_file [] >>= λ old.
        load w f dirs' new_file old.1 >>= λ new. ready (audit w.st new.0 old.0 (start_log o))

    audit_files-programs :
        audit_files w f o new_file o.old_input_file
        ≡ ready (
            audit w.st
              (program_of o.g_incl_searchpath new_file q)
              (program_of o.g_incl_searchpath o.old_input_file p)
              (start_log o))
    unfolding audit_files with_directory
    audit_files-programs =
        let dirs : List Text = o.g_incl_searchpath in
        let (c, kept, first) =
          meaning-load dirs o.old_input_file [] p old_parsed (empty-IsCoherent dirs) in
        let (d, later, second) = meaning-load dirs new_file c q new_parsed kept in
        ap (λ d. audits (with_directory d dirs) (with_directory o.new_thrift_include_path dirs))
          plain.0
        ∙ ap (λ d. audits dirs (with_directory d dirs)) plain.1
        ∙ ap
            (λ m. m >>= λ old.
              load w f dirs new_file old.1 >>= λ new. ready (audit w.st new.0 old.0 (start_log o)))
            first
        ∙ ap
            (λ m. m >>= λ new.
              ready (audit w.st new.0 (program_of dirs o.old_input_file p) (start_log o)))
            second

    -- What main returns of a log.
    abbrev ended : Log → Reading Ended
    ended log = ready (record {
      status = exit_status o.g_audit_fatal log;
      log = log;
      generated = nothing_generated;
    })

    operate-audits :
        o.g_audit ≡ true
        → operate w f o new_file ≡ (audit_files w f o new_file o.old_input_file >>= ended)
    unfolding operate
    operate-audits audits = if-then o.g_audit _ _ audits

    run-operate :
        (file : Text)
        → is_empty o.old_input_file ≡ false
        → w.real file ≡ some new_file
        → run_options w f o (some file) ≡ operate w f o new_file
    unfolding run_options
    run-operate file named found =
        if-else (o.g_audit && is_empty o.old_input_file) _ _
          (ap (λ e. o.g_audit && e) named ∙ and-false o.g_audit)
        ∙ ap (λ r. elim r [ none ↦ stop failure | some rp ↦ operate w f o rp ]) found

    audit-exit_code :
        (file : Text) (args : List Text)
        → read_command_line w.real w.is_directory args ≡ ready (o, some file)
        → o.g_audit ≡ true
        → is_empty o.old_input_file ≡ false
        → w.real file ≡ some new_file
        → exit_code (main w f args)
          ≡ some (
              if program_breaks w.st
                  (program_of o.g_incl_searchpath new_file q)
                  (program_of o.g_incl_searchpath o.old_input_file p)
                && o.g_audit_fatal
              then 2
              else 0)
    unfolding main exit_code
    audit-exit_code file args read audits named found =
        ap exit_code (
          ap (λ m. m >>= λ r. run_options w f r.0 r.1) read
          ∙ run-operate file named found
          ∙ operate-audits audits
          ∙ ap (λ m. m >>= ended) audit_files-programs)
        ∙ ap some (
            fatal_or_not o.g_audit_fatal (program_of o.g_incl_searchpath new_file q)
              (program_of o.g_incl_searchpath o.old_input_file p) o sorted.0 sorted.1)

    -- A command line of settings that ask for an audit, before the file of the new version: where no
    -- directory is given for one version only, the compiler exits with 2 exactly if the audit is
    -- fatal and the new version breaks the old one, and with 0 otherwise. Both files can be parsed,
    -- each included file read anew, and the members of both programs are sorted by id; no file
    -- includes itself, and the fuel exceeds the depth of the includes.
    pub main-audit :
        (file : Text) (settings : List (Bool × Setting))
        → apply_all w.real w.is_directory settings defaults ≡ ready o
        → ending file ≡ none
        → o.g_audit ≡ true
        → is_empty o.old_input_file ≡ false
        → w.real file ≡ some new_file
        → exit_code (main w f (written settings (file ∷ [])))
          ≡ some (
              if program_breaks w.st
                  (program_of o.g_incl_searchpath new_file q)
                  (program_of o.g_incl_searchpath o.old_input_file p)
                && o.g_audit_fatal
              then 2
              else 0)
    main-audit file settings applied plain_file =
        audit-exit_code file (written settings (file ∷ [])) (
          read_command_line-written w.real w.is_directory settings file
          ∙ ap
              (λ m. m >>= λ t. elim (ending file) [ none ↦ ready (t, some file) | some e ↦ stop e ])
              applied
          ∙ ap (λ e. elim e [ none ↦ ready (o, some file) | some x ↦ stop x ]) plain_file)

-- ===== src/Compiler/MainExits.antt =====
-- Every command line comes to an end.
use sparsam.Base.{ℕ, ◌<◌, ◌≡◌, ◌⊎◌, Text, true, List, Option, some}
use sparsam.Audit.Log.{Log}
use sparsam.Compiler.ParseFiles
use sparsam.Compiler.Ends.{Ends, Crashes}
use sparsam.Compiler.Anew.{IsRanked}
use sparsam.Compiler.CommandLine.{Options, Reading, crash, ready, read_command_line}
use sparsam.Compiler.Main.{Ended, exit_code, World}

-- A main that has read the options `o` returns 0, or 2 from a fatal audit.
abbrev Exits : Options → Ended → Type 0
Exits o e = (e.status ≡ 0) ⊎ ((e.status ≡ 2) × (o.g_audit ≡ true) × (o.g_audit_fatal ≡ true))

-- Whatever the search path, no file includes itself, and the fuel exceeds the depth of the includes.
abbrev pub IsDeep : World → ℕ → (Text → ℕ) → Type 0
IsDeep w f rank =
    ((dirs : List Text) → IsRanked (w.parser dirs) rank) × ((path : Text) → rank path < f)

-- A pass over a file crashes, for some search path.
abbrev pub PassCrashes : World → Type 0
PassCrashes w = (dirs : List Text) × Crashes (w.parser dirs)

module _ (w : World) (f : ℕ) (rank : Text → ℕ) (deep : IsDeep w f rank) where
  -- A command line that audits, and fatally.
  abbrev pub IsFatalAudit : List Text → Type 0
  IsFatalAudit args =
      (o : Options) × (file : Option Text) × (read_command_line w.real w.is_directory args
        ≡ ready (o, file))
      × (o.g_audit ≡ true)
      × (o.g_audit_fatal ≡ true)

  abbrev pub IsStatus : List Text → ℕ → Type 0
  IsStatus args n = (n ≡ 0) ⊎ ((n ≡ 1) ⊎ ((n ≡ 255) ⊎ ((n ≡ 2) × IsFatalAudit args)))

  -- The end with a status, or the crash of a pass.
  abbrev pub ExitsOrCrashes : List Text → Reading Ended → Type 0
  ExitsOrCrashes args r =
      ((n : ℕ) × (exit_code r ≡ some n) × IsStatus args n) ⊎ ((r ≡ crash) × PassCrashes w)

-- ===== src/Audit/Verdict/Program.antt =====
-- The whole audit: the flag, and the exit status that main makes of it.
use sparsam.Base.{
  Text, text_eq, ◌≡◌, refl, ap, ◌∙◌, Bool, true, false, not, ◌||◌, List, [], ◌∷◌, Option, none,
  some, All, or_assoc, and-true, Bool-cases, inl, inr, if◌then◌else◌, Dict, find, index_from,
  text_key,
}
use sparsam.Parse.Types.{Program, Const, Store}
use sparsam.Audit.Log.{Log}
use sparsam.Audit.Types.{compare_type}
use sparsam.Audit.Defaults.{compare_defaults}
use sparsam.Audit.Run.{
  compare_namespace_named, compare_namespaces, compare_namespace, compare_const_named,
  compare_consts, audit, exit_status,
}
use sparsam.Audit.Verdict.Flag.{flagged, flagged-warning, flagged-when_warning}
use sparsam.Audit.Verdict.Structs.{IsSortedStruct, structs_break, flagged-compare_structs}
use sparsam.Audit.Verdict.Services.{IsSortedService, services_break, flagged-compare_services}
use sparsam.Audit.Verdict.Enums.{enums_break, flagged-compare_enums}

flagged-compare_namespace_named :
    (new : Option Text) (language old : Text) (s : Log)
    → flagged (compare_namespace_named new language old s) ≡ flagged s
unfolding compare_namespace_named
flagged-compare_namespace_named none language old s = flagged-warning 1 _ s
flagged-compare_namespace_named (some new) language old s =
    flagged-when_warning (not (text_eq new old)) 1 _ s

flagged-compare_namespaces :
    (news olds : Dict Text Text) (s : Log) → flagged (compare_namespaces news olds s) ≡ flagged s
unfolding compare_namespaces
flagged-compare_namespaces news [] s = refl
flagged-compare_namespaces news ((l, o) ∷ os) s =
    flagged-compare_namespaces news os _ ∙ flagged-compare_namespace_named (find l news) l o s

flagged-compare_namespace :
    (new old : Program) (s : Log) → flagged (compare_namespace new old s) ≡ flagged s
unfolding compare_namespace
flagged-compare_namespace new old s = flagged-compare_namespaces new.namespaces old.namespaces s

-- The member lists of a program are sorted by id, as t_struct::append leaves them.
pub record IsSortedProgram (p : Program) : Type 0 where
  pub structs : All IsSortedStruct p.structs
  pub xceptions : All IsSortedStruct p.xceptions
  pub services : All IsSortedService p.services

module _ (st : Store) where
  flagged-compare_const_named :
      (new : Option Const) (old : Const) (s : Log)
      → flagged (compare_const_named st new old s) ≡ flagged s
  unfolding compare_const_named
  flagged-compare_const_named none old s = flagged-warning 1 _ s
  flagged-compare_const_named (some new) old s =
      elim (Bool-cases (compare_type st new.type old.type)) [
        | inl e ↦
            rw e (
              flagged-when_warning (not (compare_defaults (some new.value) (some old.value))) 1 _ s)
        | inr e ↦ rw e (flagged-warning 1 _ s)
      ]

  flagged-compare_consts :
      (news olds : List Const) (s : Log) → flagged (compare_consts st news olds s) ≡ flagged s
  unfolding compare_consts
  flagged-compare_consts news [] s = refl
  flagged-compare_consts news (o ∷ os) s =
      flagged-compare_consts news os _
      ∙ flagged-compare_const_named (find o.name (index_from (λ n. n.name) [] news)) o s

  -- What the new version of a program breaks for a user of the old one.
  unfoldable pub program_breaks : Program → Program → Bool
  program_breaks new old =
      services_break st new.services old.services
      || (enums_break new.enums old.enums
          || (structs_break st new.structs old.structs
              || structs_break st new.xceptions old.xceptions))

  flagged-audit :
      (new old : Program) (s : Log)
      → IsSortedProgram new
      → IsSortedProgram old
      → flagged (audit st new old s) ≡ (flagged s || program_breaks new old)
  unfolding audit program_breaks
  flagged-audit new old s a b =
      flagged-compare_consts new.consts old.consts _
      ∙ (flagged-compare_structs st new.xceptions old.xceptions _ a.xceptions b.xceptions
          ∙ rw
              (
                flagged-compare_structs st new.structs old.structs _ a.structs b.structs,
                flagged-compare_enums,
                flagged-compare_services st new.services old.services _ a.services b.services,
                flagged-compare_namespace,
              )
              (simp or_assoc))

  -- A fatal audit of two programs whose members are sorted by id, started with the failure flag
  -- down, ends with status 2 if the new version breaks the old one (its services, enumerations,
  -- structs or exceptions do), and with status 0 otherwise; namespaces and constants never count.
  pub exit_status-audit :
      (new old : Program) (s : Log)
      → IsSortedProgram new
      → IsSortedProgram old
      → flagged s ≡ false
      → exit_status true (audit st new old s) ≡ (if program_breaks new old then 2 else 0)
  unfolding exit_status
  exit_status-audit new old s a b h =
      rw (flagged-audit new old s a b, h)
        (ap (λ c. if c then 2 else 0) (and-true (false || program_breaks new old)))

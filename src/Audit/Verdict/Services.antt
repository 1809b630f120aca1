-- ===== src/Audit/Verdict/Services.antt =====
-- compare_functions and compare_services: what breaks a function and a service.
use sparsam.Base.{
  Text, text_eq, ◌≡◌, sym, ◌∙◌, Bool, true, false, not, ◌||◌, List, [], ◌∷◌, Option, none, some,
  any, All, OptAll, find-index, last_named, last_named-All, or_assoc, or-false, or-true,
}
use sparsam.Parse.Types.{Function, Service, Store}
use sparsam.Audit.Log.{Log}
use sparsam.Audit.Types.{compare_type}
use sparsam.Audit.Structs.{bool_ne}
use sparsam.Audit.Services.{
  compare_extends, compare_single_function, compare_function_named, compare_functions,
  compare_service_named, compare_services,
}
use sparsam.Audit.Verdict.Flag.{flagged, flagged-failure, flagged-when_failure}
use sparsam.Audit.Verdict.Members.{members_break}
use sparsam.Audit.Verdict.Structs.{IsSortedStruct, flagged-compare_single_struct}

abbrev pub IsSortedFunction : Function → Type 0
IsSortedFunction f = IsSortedStruct f.arglist × IsSortedStruct f.xceptions

abbrev pub IsSortedService : Service → Type 0
IsSortedService s = All IsSortedFunction s.functions

-- A parent was dropped or exchanged; a parent may be added.
unfoldable pub extends_breaks : Option Text → Option Text → Bool
extends_breaks new none = false
extends_breaks none (some o) = true
extends_breaks (some n) (some o) = not (text_eq n o)

flagged-compare_extends :
    (new old : Option Text) (name : Text) (s : Log)
    → flagged (compare_extends new old name s) ≡ (flagged s || extends_breaks new old)
unfolding compare_extends extends_breaks
flagged-compare_extends none none name s = sym (or-false (flagged s))
flagged-compare_extends (some n) none name s = sym (or-false (flagged s))
flagged-compare_extends none (some o) name s = rw flagged-failure (sym (or-true (flagged s)))
flagged-compare_extends (some n) (some o) name s = flagged-when_failure (not (text_eq n o)) _ s

module _ (st : Store) where
  unfoldable pub function_breaks : Option Function → Function → Bool
  function_breaks none old = true
  function_breaks (some new) old =
      bool_ne new.oneway old.oneway
      || (not (compare_type st new.returntype old.returntype)
          || (members_break st new.arglist.members_in_id_order old.arglist.members_in_id_order
              || members_break st new.xceptions.members_in_id_order
                  old.xceptions.members_in_id_order))

  unfoldable pub functions_break : List Function → List Function → Bool
  functions_break news olds =
      any (λ o. function_breaks (last_named (λ n. n.name) o.name none news) o) olds

  flagged-compare_function_named :
      (new : Option Function) (old : Function) (s : Log)
      → OptAll IsSortedFunction new
      → IsSortedFunction old
      → flagged (compare_function_named st new old s) ≡ (flagged s || function_breaks new old)
  unfolding compare_function_named function_breaks compare_single_function
  flagged-compare_function_named none old s a b = rw flagged-failure (sym (or-true (flagged s)))
  flagged-compare_function_named (some new) old s a b =
      flagged-compare_single_struct st new.xceptions old.xceptions _ _ a.1 b.1
      ∙ rw
          (
            flagged-compare_single_struct st new.arglist old.arglist [] _ a.0 b.0,
            flagged-when_failure,
            flagged-when_failure,
          )
          (simp or_assoc)

  flagged-compare_functions :
      (news olds : List Function) (s : Log)
      → All IsSortedFunction news
      → All IsSortedFunction olds
      → flagged (compare_functions st news olds s) ≡ (flagged s || functions_break news olds)
  unfolding compare_functions functions_break
  flagged-compare_functions news [] s a b = sym (or-false (flagged s))
  flagged-compare_functions news (o ∷ os) s a b =
      flagged-compare_functions news os _ a b.1
      ∙ rw
          (
            find-index (λ (n : Function). n.name) o.name news,
            flagged-compare_function_named (last_named (λ n. n.name) o.name none news) o s
                (last_named-All (λ n. n.name) IsSortedFunction o.name none news a tt) b.0,
          )
          (or_assoc (flagged s) (function_breaks (last_named (λ n. n.name) o.name none news) o)
            (functions_break news os))

  unfoldable pub service_breaks : Option Service → Service → Bool
  service_breaks none old = true
  service_breaks (some new) old =
      extends_breaks new.extends old.extends || functions_break new.functions old.functions

  unfoldable pub services_break : List Service → List Service → Bool
  services_break news olds =
      any (λ o. service_breaks (last_named (λ n. n.name) o.name none news) o) olds

  flagged-compare_service_named :
      (new : Option Service) (old : Service) (s : Log)
      → OptAll IsSortedService new
      → IsSortedService old
      → flagged (compare_service_named st new old s) ≡ (flagged s || service_breaks new old)
  unfolding compare_service_named service_breaks
  flagged-compare_service_named none old s a b = rw flagged-failure (sym (or-true (flagged s)))
  flagged-compare_service_named (some new) old s a b =
      flagged-compare_functions new.functions old.functions _ a b
      ∙ rw flagged-compare_extends (
          or_assoc (flagged s) (extends_breaks new.extends old.extends)
            (functions_break new.functions old.functions))

  -- The comparison of services whose members are sorted by id raises the failure flag, where it was
  -- not up before, exactly when an old service is gone, or its parent was dropped or exchanged, or
  -- one of its functions is gone, changed its oneway attribute or its return type, or breaks in its
  -- arguments or its exceptions.
  pub flagged-compare_services :
      (news olds : List Service) (s : Log)
      → All IsSortedService news
      → All IsSortedService olds
      → flagged (compare_services st news olds s) ≡ (flagged s || services_break news olds)
  unfolding compare_services services_break
  flagged-compare_services news [] s a b = sym (or-false (flagged s))
  flagged-compare_services news (o ∷ os) s a b =
      flagged-compare_services news os _ a b.1
      ∙ rw
          (
            find-index (λ (n : Service). n.name) o.name news,
            flagged-compare_service_named (last_named (λ n. n.name) o.name none news) o s
                (last_named-All (λ n. n.name) IsSortedService o.name none news a tt) b.0,
          )
          (or_assoc (flagged s) (service_breaks (last_named (λ n. n.name) o.name none news) o)
            (services_break news os))

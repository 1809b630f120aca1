-- ===== src/Audit/Run.antt =====
-- compiler/src/audit/t_audit.cpp: compare_namespace and compare_consts; compiler/src/main.cc: the
-- comparisons that audit makes once both programs are parsed, and the exit status of main.
use sparsam.Base.{
  ℕ, Text, text_eq, Bool, ◌&&◌, List, [], ◌∷◌, Option, none, some, if◌then◌else◌, Dict, find,
  index_from, text_key, not,
}
use sparsam.Parse.Types.{Const, Program, Store}
use sparsam.Audit.Log.{
  Log, thrift_audit_warning, when, language_not_found, namespace_changed, constant_missing,
  constant_type_changed, constant_value_changed,
}
use sparsam.Audit.Types.{compare_type}
use sparsam.Audit.Defaults.{compare_defaults}
use sparsam.Audit.Structs.{compare_structs}
use sparsam.Audit.Services.{compare_services}
use sparsam.Audit.Enums.{compare_enums}

unfoldable pub compare_namespace_named : Option Text → Text → Text → Log → Log
compare_namespace_named none language old s = thrift_audit_warning 1 (language_not_found language) s
compare_namespace_named (some new) language old s =
    when (not (text_eq new old)) (thrift_audit_warning 1 (namespace_changed old)) s

unfoldable pub compare_namespaces : Dict Text Text → Dict Text Text → Log → Log
compare_namespaces news [] s = s
compare_namespaces news ((language, old) ∷ os) s =
    compare_namespaces news os (compare_namespace_named (find language news) language old s)

unfoldable pub compare_namespace : Program → Program → Log → Log
unfolding compare_namespaces
compare_namespace new old s = compare_namespaces new.namespaces old.namespaces s

module _ (st : Store) where
  unfoldable pub compare_const_named : Option Const → Const → Log → Log
  compare_const_named none old s = thrift_audit_warning 1 (constant_missing old.name) s
  compare_const_named (some new) old s =
      if not (compare_type st new.type old.type)
      then thrift_audit_warning 1 (constant_type_changed old.name) s
      else when (not (compare_defaults (some new.value) (some old.value)))
          (thrift_audit_warning 1 (constant_value_changed old.name)) s

  unfoldable pub compare_consts : List Const → List Const → Log → Log
  compare_consts news [] s = s
  compare_consts news (o ∷ os) s =
      compare_consts news os
        (compare_const_named (find o.name (index_from (λ n. n.name) [] news)) o s)

  unfoldable pub audit : Program → Program → Log → Log
  audit new old s = compare_consts new.consts old.consts (
      compare_structs st new.xceptions old.xceptions (
        compare_structs st new.structs old.structs (
          compare_enums new.enums old.enums
            (compare_services st new.services old.services (compare_namespace new old s)))))

-- if (g_return_failure && g_audit_fatal) exit(2); return 0;
unfoldable pub exit_status : Bool → Log → ℕ
exit_status g_audit_fatal s = if s.g_return_failure && g_audit_fatal then 2 else 0

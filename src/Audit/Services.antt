-- ===== src/Audit/Services.antt =====
-- compiler/src/audit/t_audit.cpp: compare_single_function, compare_functions, compare_services.
use sparsam.Base.{
  Text, txt, text_eq, not, List, [], ◌∷◌, ◌++◌, Option, none, some, find, index_from, text_key,
}
use sparsam.Parse.Types.{Function, Service, Store}
use sparsam.Audit.Log.{
  Log, thrift_audit_failure, when, oneway_changed, return_type_changed, function_missing,
  service_missing, inheritance_changed,
}
use sparsam.Audit.Types.{compare_type}
use sparsam.Audit.Structs.{bool_ne, compare_single_struct}

-- The three branches on the parents of the old and of the new service.
unfoldable pub compare_extends : Option Text → Option Text → Text → Log → Log
compare_extends new none name s = s
compare_extends none (some o) name s = thrift_audit_failure (inheritance_changed name) s
compare_extends (some n) (some o) name s =
    when (not (text_eq n o)) (thrift_audit_failure (inheritance_changed name)) s

module _ (st : Store) where
  unfoldable pub compare_single_function : Function → Function → Log → Log
  compare_single_function new old s =
      let oneway =
        when (bool_ne new.oneway old.oneway) (thrift_audit_failure (oneway_changed old.name)) s in
      let returned =
        when (not (compare_type st new.returntype old.returntype))
          (thrift_audit_failure (return_type_changed old.name)) oneway in
      compare_single_struct st new.xceptions old.xceptions (old.name ++ txt "_exception")
        (compare_single_struct st new.arglist old.arglist [] returned)

  unfoldable pub compare_function_named : Option Function → Function → Log → Log
  compare_function_named none old s = thrift_audit_failure (function_missing old.name) s
  compare_function_named (some new) old s = compare_single_function new old s

  unfoldable pub compare_functions : List Function → List Function → Log → Log
  compare_functions news [] s = s
  compare_functions news (o ∷ os) s =
      compare_functions news os
        (compare_function_named (find o.name (index_from (λ n. n.name) [] news)) o s)

  unfoldable pub compare_service_named : Option Service → Service → Log → Log
  compare_service_named none old s = thrift_audit_failure (service_missing old.name) s
  compare_service_named (some new) old s =
      compare_functions new.functions old.functions
        (compare_extends new.extends old.extends old.name s)

  unfoldable pub compare_services : List Service → List Service → Log → Log
  compare_services news [] s = s
  compare_services news (o ∷ os) s =
      compare_services news os
        (compare_service_named (find o.name (index_from (λ n. n.name) [] news)) o s)

-- ===== src/Audit/Enums.antt =====
-- compiler/src/audit/t_audit.cpp: compare_enum_values and compare_enums.
use sparsam.Base.{Text, text_eq, not, List, [], ◌∷◌, Option, none, some, find, index_from, text_key}
use sparsam.Parse.Enum.{Enum, EnumValue, get_constant_by_value}
use sparsam.Audit.Log.{
  Log, thrift_audit_warning, thrift_audit_failure, when, value_name_changed, enum_value_missing,
  enum_not_found,
}

-- The body of the loop: the new constant of the old one's value, if there is one.
unfoldable pub compare_enum_value : Option EnumValue → EnumValue → Text → Log → Log
compare_enum_value (some n) o name s =
    when (not (text_eq o.name n.name)) (thrift_audit_warning 1 (value_name_changed o.value name)) s
compare_enum_value none o name s = thrift_audit_failure (enum_value_missing o.value name) s

unfoldable pub compare_constants : Enum → Text → List EnumValue → Log → Log
compare_constants new name [] s = s
compare_constants new name (o ∷ os) s =
    compare_constants new name os (compare_enum_value (get_constant_by_value o.value new) o name s)

unfoldable pub compare_enum_values : Enum → Enum → Log → Log
unfolding compare_constants
compare_enum_values new old s = compare_constants new old.name old.constants s

unfoldable pub compare_enum_named : Option Enum → Enum → Log → Log
compare_enum_named none old s = thrift_audit_warning 1 (enum_not_found old.name) s
compare_enum_named (some new) old s = compare_enum_values new old s

unfoldable pub compare_enums : List Enum → List Enum → Log → Log
compare_enums news [] s = s
compare_enums news (o ∷ os) s =
    compare_enums news os (compare_enum_named (find o.name (index_from (λ n. n.name) [] news)) o s)

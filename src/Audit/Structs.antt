-- ===== src/Audit/Structs.antt =====
-- compiler/src/audit/t_audit.cpp: compare_struct_field, compare_single_struct, compare_structs.
use sparsam.Base.{
  Text, text_eq, is_empty, eqb_ℤ, ltb_ℤ, Bool, true, false, not, ◌||◌, List, [], ◌∷◌, Option, none,
  some, if◌then◌else◌, find, index_from, text_key,
}
use sparsam.Parse.Types.{Field, Struct, Store, req_eq, t_required}
use sparsam.Audit.Log.{
  Log, thrift_audit_warning, thrift_audit_failure, when, field_type_changed,
  field_requiredness_changed, default_value_changed, field_name_changed, field_removed,
  required_field_added, field_added_in_middle, struct_not_found,
}
use sparsam.Audit.Types.{compare_type}
use sparsam.Audit.Defaults.{compare_defaults}

-- get_req() != T_REQUIRED
unfoldable pub is_optional : Field → Bool
unfolding req_eq
is_optional f = not (req_eq f.req t_required)

abbrev pub bool_ne : Bool → Bool → Bool
bool_ne true b = not b
bool_ne false b = b

module _ (st : Store) where
  unfoldable pub compare_struct_field : Field → Field → Text → Log → Log
  compare_struct_field new old name s =
      let typed =
        when (not (compare_type st new.type old.type))
          (thrift_audit_failure (field_type_changed new.key name)) s in
      let required =
        when (bool_ne (is_optional new) (is_optional old))
          (thrift_audit_failure (field_requiredness_changed new.key name)) typed in
      let defaulted =
        when (is_optional new || is_optional old)
          (when (not (compare_defaults new.value old.value))
            (thrift_audit_warning 1 (default_value_changed new.key name)))
          required in
      when (not (text_eq new.name old.name))
        (thrift_audit_warning 1 (field_name_changed new.key name)) defaulted

  -- The while loop over the two member lists in the order of their ids.
  unfoldable pub compare_members : List Field → List Field → Text → Log → Log
  compare_members [] [] name s = s
  compare_members [] (o ∷ os) name s =
      compare_members [] os name (thrift_audit_failure (field_removed o.key name) s)
  compare_members (n ∷ ns) [] name s =
      compare_members ns [] name
        (when (req_eq n.req t_required) (thrift_audit_failure (required_field_added n.key name)) s)
  compare_members (n ∷ ns) (o ∷ os) name s = elim (eqb_ℤ n.key o.key) [
    | true ↦ compare_members ns os name (compare_struct_field n o name s)
    | false ↦ elim (ltb_ℤ n.key o.key) [
      | true ↦
          compare_members ns (o ∷ os) name
            (thrift_audit_failure (field_added_in_middle n.key name) s)
      | false ↦ compare_members (n ∷ ns) os name (thrift_audit_failure (field_removed o.key name) s)
    ]
  ]

  unfoldable pub compare_single_struct : Struct → Struct → Text → Log → Log
  unfolding compare_members
  compare_single_struct new old given s =
      compare_members new.members_in_id_order old.members_in_id_order
        (if is_empty given then old.name else given) s

  -- The body of the loop over the old structs.
  unfoldable pub compare_struct_named : Option Struct → Struct → Log → Log
  compare_struct_named none old s = thrift_audit_failure (struct_not_found old.name) s
  compare_struct_named (some new) old s = compare_single_struct new old [] s

  unfoldable pub compare_structs : List Struct → List Struct → Log → Log
  compare_structs news [] s = s
  compare_structs news (o ∷ os) s =
      compare_structs news os
        (compare_struct_named (find o.name (index_from (λ n. n.name) [] news)) o s)

-- ===== src/Audit/Types.antt =====
-- compiler/src/audit/t_audit.cpp: compare_type.
use sparsam.Base.{text_eq, is_empty, Bool, false, ◌&&◌, if◌then◌else◌}
use sparsam.Parse.Types.{TType, Store, get_name, list_type, set_type, map_type}

module _ (st : Store) where
  -- The names of two containers are both empty, which leads to the comparison of their elements.
  unfoldable pub compare_type : TType → TType → Bool
  unfolding get_name
  compare_type (list_type t) (list_type u) = compare_type t u
  compare_type (set_type t) (set_type u) = compare_type t u
  compare_type (map_type k v) (map_type l w) = compare_type k l && compare_type v w
  compare_type t u =
      if is_empty (get_name st t) && is_empty (get_name st u)
      then false
      else text_eq (get_name st t) (get_name st u)

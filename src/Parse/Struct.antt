-- ===== src/Parse/Struct.antt =====
-- compiler/src/parse/t_struct.h: how a struct takes its members. The two member vectors hold
-- pointers to the same fields, so what a validation writes into a field shows in both.
use sparsam.Base.{
  ℕ, zero, suc, ◌+◌, ◌==◌, ltb, ltb_ℤ, ℤ, Text, text_eq, is_empty, Bool, true, false, not, ◌&&◌,
  List, [], ◌∷◌, ◌++◌, map, Option, none, some, if◌then◌else◌,
}
use sparsam.Parse.Error.{Fallible, ok, throw, ◌>>=◌, second_default}
use sparsam.Parse.Types.{Field, Struct, req_eq, t_required, t_optional}

unfoldable pub new_struct : Text → Struct
new_struct n = record {
  name = n;
  is_xception = false;
  is_union = false;
  members_validated = false;
  members_with_value = 0;
  members = [];
  members_in_id_order = [];
  doc = none;
  annotations = [];
}

-- get_field_by_name
unfoldable pub field_by_name : Text → List Field → Option Field
field_by_name n [] = none
field_by_name n (f ∷ fs) = if text_eq f.name n then some f else field_by_name n fs

-- std::equal_range by key_compare on a range that is sorted by key: its two ends.
unfoldable pub lower_bound : ℤ → List Field → ℕ
lower_bound k [] = 0
lower_bound k (f ∷ fs) = if ltb_ℤ f.key k then suc (lower_bound k fs) else 0

unfoldable pub upper_bound : ℤ → List Field → ℕ
upper_bound k [] = 0
upper_bound k (f ∷ fs) = if ltb_ℤ k f.key then 0 else suc (upper_bound k fs)

-- vector::insert
unfoldable pub insert_at : ℕ → Field → List Field → List Field
insert_at zero e fs = e ∷ fs
insert_at (suc i) e [] = e ∷ []
insert_at (suc i) e (f ∷ fs) = f ∷ insert_at i e fs

-- field->set_req(T_OPTIONAL), where it was T_REQUIRED
unfoldable pub relax : Field → Field
relax f = if req_eq f.req t_required then record f { req = t_optional } else f

-- if (1 < ++members_with_value) throw
unfoldable pub count_default : Text → Field → ℕ → Fallible ℕ
count_default union_name f n = elim f.value [
  | none ↦ ok n
  | some v ↦ if ltb 1 (n + 1) then throw (second_default f.name union_name) else ok (n + 1)
]

-- validate_union_member: the field as it is left, and the count of defaults.
unfoldable pub validate_union_member : Field → Struct → Fallible (Field × ℕ)
validate_union_member f t =
    if t.is_union && not (is_empty t.name)
    then count_default t.name f t.members_with_value >>= (λ n. ok (relax f, n))
    else ok (f, t.members_with_value)

-- The loop of validate_union_members.
unfoldable pub count_defaults : Text → List Field → ℕ → Fallible ℕ
count_defaults union_name [] n = ok n
count_defaults union_name (f ∷ fs) n = count_default union_name f n >>= count_defaults union_name fs

unfoldable pub validate_union_members : Struct → Fallible Struct
validate_union_members t =
    if t.is_union && not (is_empty t.name) && not t.members_validated
    then count_defaults t.name t.members_in_id_order t.members_with_value >>= (λ n. ok (record t {
      members_validated = true;
      members_with_value = n;
      members = map relax t.members;
      members_in_id_order = map relax t.members_in_id_order;
    }))
    else ok t

unfoldable pub set_name : Text → Struct → Fallible Struct
set_name n t = validate_union_members (record t { name = n })

unfoldable pub set_union : Bool → Struct → Fallible Struct
set_union b t = validate_union_members (record t { is_union = b })

unfoldable pub set_xception : Bool → Struct → Struct
set_xception b t = record t { is_xception = b }

-- push_back and insert of the validated element
unfoldable pub add_member : Field → ℕ → Struct → Struct
add_member f n t = record t {
  members_with_value = n;
  members = t.members ++ f ∷ [];
  members_in_id_order = insert_at (upper_bound f.key t.members_in_id_order) f t.members_in_id_order;
}

unfoldable pub append : Field → Struct → Fallible (Bool × Struct)
append e t =
    if not (lower_bound e.key t.members_in_id_order == upper_bound e.key t.members_in_id_order)
    then ok (false, t)
    else elim (field_by_name e.name t.members_in_id_order) [
      | some f ↦ ok (false, t)
      | none ↦ validate_union_member e t >>= (λ (f, n). ok (true, add_member f n t))
    ]

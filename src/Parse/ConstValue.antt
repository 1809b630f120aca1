-- ===== src/Parse/ConstValue.antt =====
-- compiler/src/parse/t_const_value.h. A double is a number that stands for its
-- value: equal doubles, equal numbers (the grammar writes no NaN). The map is in the order in which
-- std::map keeps its keys, which are pointers.
use sparsam.Base.{ℕ, suc, ℤ, Text, [], find_char, rfind_char, drop, Option, none, some}
use sparsam.Parse.Error.{
  Fallible, ok, throw, unset_enum, unknown_enum_value, unqualified, uninitialised,
}
use sparsam.Parse.Enum.{Enum, get_constant_by_name}

mutual
  pub data ConstValue : Type 0 where
    integer : ℤ → ConstValue
    double : ℕ → ConstValue
    string : Text → ConstValue
    map : ConstPairs → ConstValue
    list : ConstItems → ConstValue
    identifier : Text → Option Enum → ConstValue

  pub data ConstItems : Type 0 where
    no_items : ConstItems
    item : ConstValue → ConstItems → ConstItems

  pub data ConstPairs : Type 0 where
    no_pairs : ConstPairs
    pair : ConstValue → ConstValue → ConstPairs → ConstPairs

pub data ConstKind : Type 0 where
  cv_integer cv_double cv_string cv_map cv_list cv_identifier : ConstKind

unfoldable pub get_type : ConstValue → ConstKind
get_type (integer n) = cv_integer
get_type (double d) = cv_double
get_type (string s) = cv_string
get_type (map ps) = cv_map
get_type (list xs) = cv_list
get_type (identifier s e) = cv_identifier

-- identifier.substr(identifier.rfind('.') + 1), where there is a dot
unfoldable pub after_last_dot : Text → Text
after_last_dot s = elim (rfind_char b'.' s) [ none ↦ s | some i ↦ drop (suc i) s ]

unfoldable pub enum_integer : Text → Enum → Fallible ℤ
enum_integer s e = elim (get_constant_by_name s e) [
  | none ↦ throw (unknown_enum_value s e.name)
  | some c ↦ ok c.value
]

unfoldable pub get_integer : ConstValue → Fallible ℤ
unfolding enum_integer after_last_dot
get_integer (integer n) = ok n
get_integer (identifier s none) = throw (unset_enum s)
get_integer (identifier s (some e)) = enum_integer (after_last_dot s) e
get_integer _ = throw uninitialised

-- A string member that was not set is empty, and so is a map or a list.
unfoldable pub get_string : ConstValue → Text
get_string (string s) = s
get_string _ = []

unfoldable pub get_double : ConstValue → Fallible ℕ
get_double (double d) = ok d
get_double _ = throw uninitialised

unfoldable pub get_map : ConstValue → ConstPairs
get_map (map ps) = ps
get_map _ = no_pairs

unfoldable pub get_list : ConstValue → ConstItems
get_list (list xs) = xs
get_list _ = no_items

unfoldable pub get_identifier : ConstValue → Text
get_identifier (identifier s e) = s
get_identifier _ = []

-- What follows the first dot of `s`, if there is one.
unfoldable pub after_dot : Text → Option Text
after_dot s = elim (find_char b'.' s) [ none ↦ none | some i ↦ some (drop (suc i) s) ]

unfoldable pub get_identifier_name : ConstValue → Fallible Text
unfolding after_dot get_identifier
get_identifier_name v = elim (after_dot (get_identifier v)) [
  | none ↦ throw (unqualified (get_identifier v))
  | some ret ↦ elim (after_dot ret) [ none ↦ ok ret | some last ↦ ok last ]
]

unfoldable pub get_identifier_with_parent : ConstValue → Fallible Text
unfolding after_dot get_identifier
get_identifier_with_parent v = elim (after_dot (get_identifier v)) [
  | none ↦ throw (unqualified (get_identifier v))
  | some ret ↦ elim (after_dot ret) [ none ↦ ok (get_identifier v) | some _ ↦ ok ret ]
]

-- ===== src/Audit/Defaults.antt =====
-- compiler/src/audit/t_audit.cpp: compare_defaults and compare_pair.
use sparsam.Base.{ℕ, suc, ◌==◌, eqb_ℤ, text_eq, Bool, true, false, ◌&&◌, Option, none, some}
use sparsam.Parse.ConstValue.{
  ConstValue, ConstItems, ConstPairs, integer, double, string, map, list, identifier, no_items,
  item, no_pairs, pair,
}

-- vector::size and map::size
abbrev pub items_size : ConstItems → ℕ
items_size no_items = 0
items_size (item x xs) = suc (items_size xs)

abbrev pub pairs_size : ConstPairs → ℕ
pairs_size no_pairs = 0
pairs_size (pair k v ps) = suc (pairs_size ps)

-- The switch on the common type; std::equal walks the new container beside the old one.
unfoldable mutual
  pub compare_values : ConstValue → ConstValue → Bool
  compare_values (integer m) (integer n) = eqb_ℤ m n
  compare_values (double c) (double d) = c == d
  compare_values (string s) (string t) = text_eq s t
  compare_values (list xs) (list ys) = (items_size ys == items_size xs) && equal_items xs ys
  compare_values (map ps) (map qs) = (pairs_size qs == pairs_size ps) && equal_pairs ps qs
  compare_values (identifier s e) (identifier t f) = text_eq s t
  compare_values _ _ = false

  pub equal_items : ConstItems → ConstItems → Bool
  equal_items no_items ys = true
  equal_items (item x xs) no_items = false
  equal_items (item x xs) (item y ys) = compare_values x y && equal_items xs ys

  pub equal_pairs : ConstPairs → ConstPairs → Bool
  equal_pairs no_pairs qs = true
  equal_pairs (pair k v ps) no_pairs = false
  equal_pairs (pair k v ps) (pair l w qs) =
      (compare_values k l && compare_values v w) && equal_pairs ps qs

-- The two NULL tests come first.
unfoldable pub compare_defaults : Option ConstValue → Option ConstValue → Bool
unfolding compare_values
compare_defaults none none = true
compare_defaults none (some old) = false
compare_defaults (some new) none = false
compare_defaults (some new) (some old) = compare_values new old

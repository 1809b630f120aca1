-- ===== src/Audit/Erase.antt =====
-- compare_defaults against equality of values, where an identifier counts as its text alone.
use mathlib.Core.Option
use sparsam.Base.{
  ◌==◌, ==_iff, eqb_ℤ_iff, text_eq_iff, ◌≡◌, ◌≢◌, refl, sym, ap, ◌∙◌, ◌↔◌, suc, true, false,
  Bool-cases, inl, inr, ◌&&◌, arith, Option, none, some, and_true_iff,
}
use sparsam.Parse.ConstValue.{
  ConstValue, ConstItems, ConstPairs, integer, double, string, map, list, identifier, no_items,
  item, no_pairs, pair,
}
use sparsam.Audit.Defaults.{
  compare_values, equal_items, equal_pairs, compare_defaults, items_size, pairs_size,
}

-- The value without the enumerations that its identifiers were resolved to.
unfoldable mutual
  pub erase : ConstValue → ConstValue
  erase (map ps) = map (erase_pairs ps)
  erase (list xs) = list (erase_items xs)
  erase (identifier s e) = identifier s none
  erase (integer n) = integer n
  erase (double d) = double d
  erase (string s) = string s

  pub erase_items : ConstItems → ConstItems
  erase_items no_items = no_items
  erase_items (item x xs) = item (erase x) (erase_items xs)

  pub erase_pairs : ConstPairs → ConstPairs
  erase_pairs no_pairs = no_pairs
  erase_pairs (pair k v ps) = pair (erase k) (erase v) (erase_pairs ps)

-- The sizes are tested before the elements; on equal sizes the walk visits every element.
mutual
  unfolding compare_values erase

  compare→erase : (a b : ConstValue) → compare_values a b ≡ true → erase a ≡ erase b
  compare→erase (integer m) (integer n) h = ap integer ((eqb_ℤ_iff m n).0 h)
  compare→erase (double c) (double d) h = ap double ((==_iff c d).0 h)
  compare→erase (string s) (string t) h = ap string ((text_eq_iff s t).0 h)
  compare→erase (identifier s e) (identifier t f) h =
      ap (λ r. identifier r none) ((text_eq_iff s t).0 h)
  compare→erase (list xs) (list ys) h =
      let parts = (and_true_iff (items_size ys == items_size xs) (equal_items xs ys)).0 h in
      ap list (items→erase xs ys ((==_iff (items_size ys) (items_size xs)).0 parts.0) parts.1)
  compare→erase (map ps) (map qs) h =
      let parts = (and_true_iff (pairs_size qs == pairs_size ps) (equal_pairs ps qs)).0 h in
      ap map (pairs→erase ps qs ((==_iff (pairs_size qs) (pairs_size ps)).0 parts.0) parts.1)
  compare→erase a b h = ground arith

  items→erase :
      (xs ys : ConstItems)
      → items_size ys ≡ items_size xs
      → equal_items xs ys ≡ true
      → erase_items xs ≡ erase_items ys
  items→erase no_items no_items s h = refl
  items→erase no_items (item y ys) s h = absurd (omega arith)
  items→erase (item x xs) no_items s h = absurd (omega arith)
  items→erase (item x xs) (item y ys) s h =
      let parts = (and_true_iff (compare_values x y) (equal_items xs ys)).0 h in
      cc (compare→erase x y parts.0, items→erase xs ys (omega arith) parts.1)

  pairs→erase :
      (ps qs : ConstPairs)
      → pairs_size qs ≡ pairs_size ps
      → equal_pairs ps qs ≡ true
      → erase_pairs ps ≡ erase_pairs qs
  pairs→erase no_pairs no_pairs s h = refl
  pairs→erase no_pairs (pair l w qs) s h = absurd (omega arith)
  pairs→erase (pair k v ps) no_pairs s h = absurd (omega arith)
  pairs→erase (pair k v ps) (pair l w qs) s h =
      let parts =
        (and_true_iff (compare_values k l && compare_values v w) (equal_pairs ps qs)).0 h in
      let ends = (and_true_iff (compare_values k l) (compare_values v w)).0 parts.0 in
      cc (
        compare→erase k l ends.0,
        compare→erase v w ends.1,
        pairs→erase ps qs (omega arith) parts.1,
      )

-- The other direction: a value is compared with what erases to the same value.
items_size-erase : (xs : ConstItems) → items_size (erase_items xs) ≡ items_size xs
unfolding erase
items_size-erase no_items = refl
items_size-erase (item x xs) = ap suc (items_size-erase xs)

pairs_size-erase : (ps : ConstPairs) → pairs_size (erase_pairs ps) ≡ pairs_size ps
unfolding erase
pairs_size-erase no_pairs = refl
pairs_size-erase (pair k v ps) = ap suc (pairs_size-erase ps)

mutual
  unfolding compare_values erase

  compare_self : (a : ConstValue) → compare_values a a ≡ true
  compare_self (integer m) = (eqb_ℤ_iff m m).1 refl
  compare_self (double c) = (==_iff c c).1 refl
  compare_self (string s) = (text_eq_iff s s).1 refl
  compare_self (identifier s e) = (text_eq_iff s s).1 refl
  compare_self (list xs) =
      (and_true_iff (items_size xs == items_size xs) (equal_items xs xs)).1
        ((==_iff (items_size xs) (items_size xs)).1 refl, items_self xs)
  compare_self (map ps) =
      (and_true_iff (pairs_size ps == pairs_size ps) (equal_pairs ps ps)).1
        ((==_iff (pairs_size ps) (pairs_size ps)).1 refl, pairs_self ps)

  items_self : (xs : ConstItems) → equal_items xs xs ≡ true
  items_self no_items = refl
  items_self (item x xs) =
      (and_true_iff (compare_values x x) (equal_items xs xs)).1 (compare_self x, items_self xs)

  pairs_self : (ps : ConstPairs) → equal_pairs ps ps ≡ true
  pairs_self no_pairs = refl
  pairs_self (pair k v ps) =
      (and_true_iff (compare_values k k && compare_values v v) (equal_pairs ps ps)).1 (
        (and_true_iff (compare_values k k) (compare_values v v)).1 (compare_self k, compare_self v),
        pairs_self ps,
      )

-- Erasing an operand does not change the comparison.
mutual
  unfolding compare_values erase

  compare-erase : (a b : ConstValue) → compare_values (erase a) (erase b) ≡ compare_values a b
  compare-erase (list xs) (list ys) =
      rw (items_size-erase xs, items_size-erase ys, items-erase xs ys)
  compare-erase (map ps) (map qs) = rw (pairs_size-erase ps, pairs_size-erase qs, pairs-erase ps qs)
  compare-erase (integer m) (integer n) = refl
  compare-erase (integer m) _ = refl
  compare-erase (double m) (integer n) = refl
  compare-erase (double m) _ = refl
  compare-erase (string m) (integer n) = refl
  compare-erase (string m) _ = refl
  compare-erase (identifier m e) (integer n) = refl
  compare-erase (identifier m e) _ = refl
  compare-erase (list xs) (integer n) = refl
  compare-erase (list xs) _ = refl
  compare-erase (map xs) (integer n) = refl
  compare-erase (map xs) _ = refl

  items-erase :
      (xs ys : ConstItems) → equal_items (erase_items xs) (erase_items ys) ≡ equal_items xs ys
  items-erase no_items ys = refl
  items-erase (item x xs) no_items = refl
  items-erase (item x xs) (item y ys) = rw (compare-erase x y, items-erase xs ys)

  pairs-erase :
      (ps qs : ConstPairs) → equal_pairs (erase_pairs ps) (erase_pairs qs) ≡ equal_pairs ps qs
  pairs-erase no_pairs qs = refl
  pairs-erase (pair k v ps) no_pairs = refl
  pairs-erase (pair k v ps) (pair l w qs) =
      rw (compare-erase k l, compare-erase v w, pairs-erase ps qs)

erase→compare : (a b : ConstValue) → erase a ≡ erase b → compare_values a b ≡ true
erase→compare a b h =
    sym (compare-erase a b)
    ∙ (ap (λ c. compare_values (erase a) c) (sym h) ∙ compare_self (erase a))

some_inj : (a b : ConstValue) → some a ≡ some b → a ≡ b
some_inj a b h = cc

-- compare_defaults holds exactly of two absent defaults, and of two present ones that are the same
-- value up to the enumerations of their identifiers (maps: the same pairs in the same order).
pub compare_defaults_iff :
    (new old : Option ConstValue)
    → (compare_defaults new old ≡ true) ↔ (Option.map erase new ≡ Option.map erase old)
unfolding compare_defaults
compare_defaults_iff none none = (λ _. refl, λ _. refl)
compare_defaults_iff none (some b) = (λ h. cc, λ h. cc)
compare_defaults_iff (some a) none = (λ h. cc, λ h. cc)
compare_defaults_iff (some a) (some b) =
    (λ h. ap some (compare→erase a b h), λ h. erase→compare a b (some_inj (erase a) (erase b) h))

-- compare_defaults is false of two maps that hold the same two pairs in opposite orders, where the
-- two keys are different constants: the verdict depends on the order of the keys' pointers.
pub compare_defaults_map_order :
    (k l v w : ConstValue)
    → erase k ≢ erase l
    → compare_defaults
        (some (map (pair k v (pair l w no_pairs))))
        (some (map (pair l w (pair k v no_pairs))))
      ≡ false
unfolding compare_defaults
compare_defaults_map_order k l v w h = elim (Bool-cases (compare_values k l)) [
  | inl same ↦ absurd (h (compare→erase k l same))
  | inr differ ↦ rw differ
]

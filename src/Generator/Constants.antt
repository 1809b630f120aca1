-- ===== src/Generator/Constants.antt =====
-- compiler/src/generate/t_ruby_generator.cc: the names of types and render_const_value.
use sparsam.Base.{
  ℕ, zero, suc, ℤ, pos, negsuc, Text, txt, text_key, List, [], ◌∷◌, ◌++◌, none, some, decimal,
  last_named,
}
use sparsam.Parse.Error.{no_const_of_base, type_has_no_field, no_constant_for}
use sparsam.Parse.ConstValue.{
  ConstValue, ConstItems, ConstPairs, integer, map as map_value, list as list_value, no_items, item,
  no_pairs, pair, get_integer, get_string, get_double,
}
use sparsam.Parse.Types.{
  TType, Base, Field, Struct, Const, Store, base_type, enum_type, struct_type, list_type, set_type,
  map_type, type_void, type_string, type_bool, type_double, get_name,
}
use sparsam.Parse.Scope.{get_true_type}
use sparsam.Parse.Collisions.{get_namespace}
use sparsam.Generator.Naming.{capitalize}
use sparsam.Generator.Escape.{escape_string}
use sparsam.Generator.Stream.{Out, ◌>>◌, put, indent, indented, begin, raise, given, pass}
use sparsam.Generator.Modules.{modules}

-- value->get_integer() > 0
unfoldable pub truth : ℤ → Text
truth (pos zero) = txt "false"
truth (pos (suc n)) = txt "true"
truth (negsuc n) = txt "false"

-- The branch of TYPE_STRING.
unfoldable pub render_string : ConstValue → Out
render_string v = put (txt "%q\"" ++ escape_string (get_string v) ++ b'"' ∷ [])

-- `opening`, the lines of `body` one level further in, and `closing`.
unfoldable pub block : Text → Text → Out → Out
block opening closing body = put (opening ++ b'\n' ∷ []) >> indented body >> begin closing

module _ (st : Store) where
  unfoldable pub type_name : TType → Text
  type_name (struct_type a) = capitalize (get_name st (struct_type a))
  type_name (enum_type e) = capitalize (get_name st (enum_type e))
  type_name t = get_name st t

  -- The loop of full_type_name.
  unfoldable pub qualify : Text → List Text → Text
  qualify prefix [] = prefix
  qualify prefix (m ∷ ms) = qualify (prefix ++ m ++ txt "::") ms

  unfoldable pub full_type_name : TType → Text
  full_type_name t =
      qualify (txt "::") (modules (get_namespace (txt "rb") (st.namespaces_at t))) ++ type_name t

  module _ (fuel : ℕ) (show_double : ℕ → Text) where
    -- The branch of TYPE_DOUBLE.
    unfoldable pub render_double : ConstValue → Out
    render_double (integer n) = put (decimal n)
    render_double v = given (get_double v) (λ d. put (show_double d))

    -- The switch on the base.
    unfoldable pub render_base : Base → ConstValue → Out
    render_base type_void v = raise (no_const_of_base (txt "void"))
    render_base type_string v = render_string v
    render_base type_bool v = given (get_integer v) (λ n. put (truth n))
    render_base type_double v = render_double v
    render_base b v = given (get_integer v) (λ n. put (decimal n))

    -- The type of the last field that has the key's name.
    unfoldable pub at_field : Struct → ConstValue → (Field → Out) → Out
    at_field s key k = elim (last_named (λ f. f.name) (get_string key) none s.members) [
      | none ↦ raise (type_has_no_field s.name (get_string key))
      | some f ↦ k f
    ]

    -- render_const_value behind get_true_type, and its loops.
    unfoldable mutual
      pub render_at : ConstValue → TType → Out
      render_at v (base_type n b q) = render_base b v
      render_at v (enum_type e) = indent >> given (get_integer v) (λ n. put (decimal n))
      render_at (map_value ps) (struct_type a) =
          block (full_type_name (struct_type a) ++ txt ".new({") (txt "})")
            (render_fields ps (st.struct_at a))
      render_at v (struct_type a) =
          block (full_type_name (struct_type a) ++ txt ".new({") (txt "})") pass
      render_at (map_value ps) (map_type k w) = block (txt "{") (txt "}") (render_pairs ps k w)
      render_at v (map_type k w) = block (txt "{") (txt "}") pass
      render_at (list_value xs) (list_type e) = block (txt "[") (txt "]") (render_items xs e)
      render_at v (list_type e) = block (txt "[") (txt "]") pass
      render_at (list_value xs) (set_type e) =
          block (txt "Set.new([") (txt "])") (render_items xs e)
      render_at v (set_type e) = block (txt "Set.new([") (txt "])") pass
      render_at v t = raise (no_constant_for (get_name st t))

      pub render_fields : ConstPairs → Struct → Out
      render_fields no_pairs s = pass
      render_fields (pair x y ps) s =
          at_field s x (λ f.
            indent
            >> render_string x
            >> put (txt " => ")
            >> given (get_true_type st fuel f.type) (λ t. render_at y t)
            >> put (txt ",\n"))
          >> render_fields ps s

      pub render_pairs : ConstPairs → TType → TType → Out
      render_pairs no_pairs k w = pass
      render_pairs (pair x y ps) k w =
          indent
          >> given (get_true_type st fuel k) (λ t. render_at x t)
          >> put (txt " => ")
          >> given (get_true_type st fuel w) (λ t. render_at y t)
          >> put (txt ",\n")
          >> render_pairs ps k w

      pub render_items : ConstItems → TType → Out
      render_items no_items e = pass
      render_items (item x xs) e =
          indent
          >> given (get_true_type st fuel e) (λ t. render_at x t)
          >> put (txt ",\n")
          >> render_items xs e

    unfoldable pub render_const_value : TType → ConstValue → Out
    render_const_value t v = given (get_true_type st fuel t) (λ u. render_at v u)

    -- name[0] = toupper(name[0])
    unfoldable pub generate_const : Const → Out
    generate_const c =
        begin (capitalize c.name ++ txt " = ")
        >> render_const_value c.type c.value
        >> put (txt "\n\n")

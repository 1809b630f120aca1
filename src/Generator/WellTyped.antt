-- ===== src/Generator/WellTyped.antt =====
-- Constants that the validation lets through, before render_const_value.
use sparsam.Base.{ℕ, suc, ◌≡◌, Text, txt, txt, ◌++◌, none, some, Option-cases, inl, inr, last_named}
use sparsam.Parse.Error.{ok, >>=-eq-ok}
use sparsam.Parse.ConstValue.{
  ConstValue, ConstItems, ConstPairs, integer, double, string, map, list, no_items, item, no_pairs,
  pair, get_integer, get_string, get_double, get_type,
}
use sparsam.Parse.Types.{
  TType, Base, Field, Struct, Store, base_type, enum_type, struct_type, list_type, set_type,
  map_type, type_void, type_string, type_double,
}
use sparsam.Parse.Scope.{get_true_type}
use sparsam.Parse.Validate.{
  validate_base, validate_const_rec, validate_fields, validate_pairs, validate_items,
  validate_member,
}
use sparsam.Generator.Stream.{Out, given}
use sparsam.Generator.Writes.{
  Writes, put-Writes, pass-Writes, seq-Writes, indented-Writes, indent-Writes, begin-Writes,
  given-Writes,
}
use sparsam.Generator.Constants.{
  block, render_string, render_double, render_base, at_field, render_at, render_fields,
  render_pairs, render_items, render_const_value,
}
use sparsam.Generator.Resolution.{
  IsDirect, get_true_type-direct, get_integer-validated, IsResolved, ItemsAreResolved,
  PairsAreResolved, FieldsAreResolved,
}

render_string-Writes : (v : ConstValue) → Writes (render_string v)
unfolding render_string
render_string-Writes v = put-Writes _

-- The base types, one kind of value after another.
render_base-Writes :
    (st : Store) (f : ℕ) (show_double : ℕ → Text) (name : Text) (b : Base) (v : ConstValue)
    → validate_base name b (get_type v) ≡ ok tt
    → Writes (render_base st f show_double b v)
unfolding validate_base get_type render_base render_double render_string get_integer get_double
render_base-Writes st f show_double name type_void v went = absurd cc
render_base-Writes st f show_double name type_string v went = put-Writes _
render_base-Writes st f show_double name type_double (double d) went = put-Writes _
render_base-Writes st f show_double name b (integer n) went = put-Writes _
render_base-Writes st f show_double name b v went = absurd cc

block-Writes :
    (opening closing : Text) (body : Out) → Writes body → Writes (block opening closing body)
unfolding block
block-Writes opening closing body h =
    seq-Writes _ _ (seq-Writes _ _ (put-Writes _) (indented-Writes _ h)) (begin-Writes closing)

module _ (st : Store) (f : ℕ) (show_double : ℕ → Text) where
  at_field-Writes :
      (s : Struct) (key : ConstValue) (k : Field → Out) (g : Field)
      → last_named (λ h. h.name) (get_string key) none s.members ≡ some g
      → Writes (k g)
      → Writes (at_field st (suc f) show_double s key k)
  unfolding at_field
  at_field-Writes s key k g e h = rw (e, at_field) h

  -- A part behind get_true_type.
  part-Writes :
      (t : TType) (k : TType → Out)
      → IsDirect t
      → Writes (k t)
      → Writes (given (get_true_type st (suc f) t) k)
  part-Writes t k d h = given-Writes _ k (get_true_type-direct st f t d) h

  mutual
    unfolding render_at render_fields render_pairs render_items validate_const_rec validate_fields
        validate_pairs validate_items IsResolved ItemsAreResolved PairsAreResolved FieldsAreResolved

    render_at-Writes :
        (v : ConstValue) (t : TType) (name : Text)
        → IsDirect t
        → IsResolved st v t
        → validate_const_rec st name t v ≡ ok tt
        → Writes (render_at st (suc f) show_double v t)
    render_at-Writes v (base_type n b q) name d r went =
        render_base-Writes st (suc f) show_double name b v went
    render_at-Writes v (enum_type e) name d r went =
        let (c, found) = get_integer-validated name e v r went in
        seq-Writes _ _ indent-Writes (given-Writes _ _ found (put-Writes _))
    render_at-Writes (map ps) (struct_type a) name d r went =
        block-Writes _ _ _ (fields-Writes ps (st.struct_at a) name r went)
    render_at-Writes (map ps) (map_type k w) name d r went =
        block-Writes _ _ _ (pairs-Writes ps k w name d r went)
    render_at-Writes (list xs) (list_type e) name d r went =
        block-Writes _ _ _ (items-Writes xs e name d r went)
    render_at-Writes (list xs) (set_type e) name d r went =
        block-Writes _ _ _ (items-Writes xs e name d r went)
    render_at-Writes v (struct_type a) name d r went = absurd cc
    render_at-Writes v (map_type k w) name d r went = block-Writes _ _ _ pass-Writes
    render_at-Writes v (list_type e) name d r went = block-Writes _ _ _ pass-Writes
    render_at-Writes v (set_type e) name d r went = block-Writes _ _ _ pass-Writes
    render_at-Writes v t name d r went = absurd d

    items-Writes :
        (xs : ConstItems) (e : TType) (name : Text)
        → IsDirect e
        → ItemsAreResolved st xs e
        → validate_items st name e xs ≡ ok tt
        → Writes (render_items st (suc f) show_double xs e)
    items-Writes no_items e name d r went = pass-Writes
    items-Writes (item x xs) e name d r went =
        let step =
          >>=-eq-ok (validate_const_rec st (name ++ txt "<elem>") e x)
            (λ _. validate_items st name e xs) went in
        seq-Writes _ _
          (seq-Writes _ _
            (seq-Writes _ _ indent-Writes (part-Writes e _ d (render_at-Writes x e _ d r.0 step.1)))
            (put-Writes _))
          (items-Writes xs e name d r.1 step.2)

    pairs-Writes :
        (ps : ConstPairs) (k w : TType) (name : Text)
        → IsDirect k × IsDirect w
        → PairsAreResolved st ps k w
        → validate_pairs st name k w ps ≡ ok tt
        → Writes (render_pairs st (suc f) show_double ps k w)
    pairs-Writes no_pairs k w name d r went = pass-Writes
    pairs-Writes (pair x y ps) k w name d r went =
        let first = >>=-eq-ok (validate_const_rec st (name ++ txt "<key>") k x) _ went in
        let second = >>=-eq-ok (validate_const_rec st (name ++ txt "<val>") w y) _ first.2 in
        seq-Writes _ _
          (seq-Writes _ _
            (seq-Writes _ _
              (seq-Writes _ _
                (seq-Writes _ _ indent-Writes
                  (part-Writes k _ d.0 (render_at-Writes x k _ d.0 r.0 first.1)))
                (put-Writes _))
              (part-Writes w _ d.1 (render_at-Writes y w _ d.1 r.1 second.1)))
            (put-Writes _))
          (pairs-Writes ps k w name d r.2 second.2)

    fields-Writes :
        (ps : ConstPairs) (s : Struct) (name : Text)
        → FieldsAreResolved st ps s
        → validate_fields st name s ps ≡ ok tt
        → Writes (render_fields st (suc f) show_double ps s)
    fields-Writes no_pairs s name r went = pass-Writes
    fields-Writes (pair (string key) y ps) s name r went =
        let step = >>=-eq-ok (validate_member s key _) (λ _. validate_fields st name s ps) went in
        elim (Option-cases (last_named (λ g. g.name) key none s.members)) [
          | inl missing ↦ absurd (cc (rw (missing, validate_member) at step.1))
          | inr (g, found) ↦
              let r' = rw found at r.0 in
              let went' = rw (found, validate_member) at step.1 in
              seq-Writes _ _
                (at_field-Writes s (string key) _ g found (
                  seq-Writes _ _
                    (seq-Writes _ _
                      (seq-Writes _ _
                        (seq-Writes _ _ indent-Writes (render_string-Writes (string key)))
                        (put-Writes _))
                      (part-Writes g.type _ r'.0 (render_at-Writes y g.type _ r'.0 r'.1 went')))
                    (put-Writes _)))
                (fields-Writes ps s name r.1 step.2)
        ]
    fields-Writes (pair x y ps) s name r went = absurd cc

  -- A constant that passed validate_const_rec is rendered without an exception, onto the end of the
  -- file and with the indentation left as it was, where its type and those of the fields that it names
  -- have no typedef in them and its identifiers are resolved.
  pub render_const_value-validated :
      (t : TType) (v : ConstValue) (name : Text)
      → IsDirect t
      → IsResolved st v t
      → validate_const_rec st name t v ≡ ok tt
      → Writes (render_const_value st (suc f) show_double t v)
  unfolding render_const_value
  render_const_value-validated t v name d r went =
      part-Writes t _ d (render_at-Writes v t name d r went)

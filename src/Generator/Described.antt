-- ===== src/Generator/Described.antt =====
-- The entries of FIELDS: which types generate_field_data describes.
use sparsam.Base.{
  ℕ, zero, suc, ◌≡◌, refl, sym, subst, ◌∙◌, Bool, true, false, Text, txt, Dict, ◌++◌, Option, none,
  some, [], ◌∷◌, if◌then◌else◌,
}
use sparsam.Parse.Error.{ok-injective, ok}
use sparsam.Parse.ConstValue.{ConstValue}
use sparsam.Parse.Types.{
  TType, Store, base_type, typedef_type, forward_typedef, enum_type, struct_type, service_type,
  list_type, set_type, map_type, type_void,
}
use sparsam.Parse.Scope.{get_true_type}
use sparsam.Parse.Validate.{validate_const_rec}
use sparsam.Generator.Stream.{Out, line, pass}
use sparsam.Generator.Writes.{
  Writes, put-Writes, pass-Writes, seq-Writes, indented-Writes, begin-Writes, line-Writes,
  given-Writes, each-Writes,
}
use sparsam.Generator.Resolution.{IsDirect, get_true_type-direct, IsResolved}
use sparsam.Generator.WellTyped.{render_const_value-validated}
use sparsam.Generator.Fields.{
  base_to_enum, is_binary, annotation_lines, true_type_to_enum, type_to_enum, inner_entries,
  enum_entry, name_entry, default_entry, annotations_entry, optional_entry, true_field_data,
  generate_field_data,
}

-- A base type other than void, an enumeration, a struct or a container, whose parts are `P`.
abbrev pub PartsAre : (TType → Type 0) → TType → Type 0
PartsAre P (base_type n type_void q) = ⊥
PartsAre P (base_type n b q) = Unit
PartsAre P (enum_type e) = Unit
PartsAre P (struct_type a) = Unit
PartsAre P (list_type e) = P e
PartsAre P (set_type e) = P e
PartsAre P (map_type k w) = P k × P w
PartsAre P t = ⊥

pub annotation_lines-Writes : (as_ : Dict Text Text) → Writes (annotation_lines as_)
unfolding annotation_lines
annotation_lines-Writes as_ = each-Writes _ as_ (λ a. line-Writes _)

module _ (st : Store) (f : ℕ) (show_double : ℕ → Text) where
  -- Behind its typedefs the type is one that FIELDS can describe, and so are its parts, nested less
  -- than `depth` deep.
  unfoldable pub IsDescribable : ℕ → TType → Type 0
  IsDescribable zero t = ⊥
  IsDescribable (suc depth) t =
      (u : TType) × (get_true_type st (suc f) t ≡ ok u) × PartsAre (IsDescribable depth) u

  -- A default value as the validation lets it through.
  abbrev pub DefaultFits : TType → Option ConstValue → Type 0
  DefaultFits t none = Unit
  DefaultFits t (some v) =
      IsDirect t × IsResolved st v t × ((name : Text) × (validate_const_rec st name t v ≡ ok tt))

  type_to_enum-ok :
      (P : TType → Type 0) (u : TType)
      → PartsAre P u
      → (e : Text) × (type_to_enum st (suc f) show_double u ≡ ok e)
  unfolding type_to_enum get_true_type true_type_to_enum base_to_enum
  type_to_enum-ok P (base_type n type_void q) h = absurd h
  type_to_enum-ok P (typedef_type n t) h = absurd h
  type_to_enum-ok P (forward_typedef p n) h = absurd h
  type_to_enum-ok P (service_type n) h = absurd h
  type_to_enum-ok P _ h = (_, refl)

  flag-Writes : (b : Bool) (o : Out) → Writes o → Writes (if b then o else pass)
  flag-Writes true o h = h
  flag-Writes false o h = pass-Writes

  name_entry-Writes : (n : Text) → Writes (name_entry st (suc f) show_double n)
  unfolding name_entry
  name_entry-Writes [] = pass-Writes
  name_entry-Writes (c ∷ n) = line-Writes _

  optional_entry-Writes : (b : Bool) → Writes (optional_entry st (suc f) show_double b)
  unfolding optional_entry
  optional_entry-Writes b = flag-Writes b _ (search (seq-Writes, begin-Writes, put-Writes))

  annotations_entry-Writes :
      (as_ : Option (Dict Text Text)) → Writes (annotations_entry st (suc f) show_double as_)
  unfolding annotations_entry
  annotations_entry-Writes none = pass-Writes
  annotations_entry-Writes (some as_) =
      search (seq-Writes, line-Writes, indented-Writes, annotation_lines-Writes)

  enum_entry-Writes : (u : TType) → Writes (enum_entry st (suc f) show_double u)
  unfolding enum_entry
  enum_entry-Writes (enum_type e) = search (seq-Writes, begin-Writes)
  enum_entry-Writes _ = pass-Writes

  default_entry-Writes :
      (t : TType) (value : Option ConstValue)
      → DefaultFits t value
      → Writes (default_entry st (suc f) show_double t value)
  unfolding default_entry
  default_entry-Writes t none h = pass-Writes
  default_entry-Writes t (some v) h =
      let shown = render_const_value-validated st f show_double t v h.2.0 h.0 h.1 h.2.1 in
      search (seq-Writes, begin-Writes, put-Writes, shown)

  inner_entries-Writes :
      (P : TType → Type 0) (inner : TType → Out) (u : TType)
      → ((e : TType) → P e → Writes (inner e))
      → PartsAre P u
      → Writes (inner_entries st (suc f) show_double inner u)
  unfolding inner_entries
  inner_entries-Writes P inner (struct_type a) h parts =
      search (seq-Writes, begin-Writes, put-Writes)
  inner_entries-Writes P inner (list_type e) h parts = search (seq-Writes, put-Writes, h e parts)
  inner_entries-Writes P inner (set_type e) h parts = search (seq-Writes, put-Writes, h e parts)
  inner_entries-Writes P inner (map_type k w) h parts =
      search (seq-Writes, put-Writes, h k parts.0, h w parts.1) depth 9
  inner_entries-Writes P inner u h parts =
      flag-Writes (is_binary u) _ (search (seq-Writes, put-Writes))

  true_field_data-Writes :
      (P : TType → Type 0) (inner : TType → Out) (u : TType) (name : Text)
      (value : Option ConstValue) (optional : Bool) (annotations : Option (Dict Text Text))
      → ((e : TType) → P e → Writes (inner e))
      → PartsAre P u
      → DefaultFits u value
      → Writes (true_field_data st (suc f) show_double inner u name value optional annotations)
  unfolding true_field_data
  true_field_data-Writes P inner u name value optional annotations h parts fits =
      let (e, found) = type_to_enum-ok P u parts in
      let head =
        given-Writes (type_to_enum st (suc f) show_double u)
          (λ e. line (txt ":type => " ++ e ++ txt ",")) found (line-Writes _) in
      let inside = inner_entries-Writes P inner u h parts in
      let default = default_entry-Writes u value fits in
      search
        (
          seq-Writes, put-Writes, indented-Writes, head, name_entry-Writes, default, inside,
          optional_entry-Writes, enum_entry-Writes, annotations_entry-Writes, begin-Writes,
        )
        depth 14

  -- A default fits the type behind the typedefs of a type that has none.
  DefaultFits-true :
      (t u : TType) (value : Option ConstValue)
      → get_true_type st (suc f) t ≡ ok u
      → DefaultFits t value
      → DefaultFits u value
  DefaultFits-true t u none e fits = tt
  DefaultFits-true t u (some v) e fits =
      subst (λ x. DefaultFits x (some v))
        (ok-injective (sym (get_true_type-direct st f t fits.0) ∙ e)) fits

  -- generate_field_data goes through for every type that FIELDS can describe, with a default value
  -- that passed the validation: it appends one entry and leaves the indentation as it was.
  pub generate_field_data-Writes :
      (depth : ℕ) (t : TType) (name : Text) (value : Option ConstValue) (optional : Bool)
      (annotations : Option (Dict Text Text))
      → IsDescribable depth t
      → DefaultFits t value
      → Writes (generate_field_data st (suc f) show_double depth t name value optional annotations)
  unfolding generate_field_data IsDescribable
  generate_field_data-Writes zero t name value optional annotations h fits = absurd h
  generate_field_data-Writes (suc depth) t name value optional annotations (u, e, parts) fits =
      given-Writes _ _ e (
        true_field_data-Writes (IsDescribable depth) _ u name value optional annotations
          (λ x hx. generate_field_data-Writes depth x [] none false none hx tt) parts
          (DefaultFits-true t u value e fits))

-- ===== src/Serializer/RoundTrip/Main.antt =====
-- readAny against writeAny, by cases on the type of the field and by induction on the writer's fuel,
-- and serializer_readStruct against serializer_writeStruct.
use sparsam.Base.{
  ℕ, zero, suc, ◌==◌, ◌<◌, ℤ, Text, ◌≡◌, ap, List, ◌++◌, Bool, true, All, length, Bool-cases, inl,
  inr, if◌then◌else◌, int_key,
}
use sparsam.Serializer.Ruby
use sparsam.Serializer.Ruby.{Klass, Value, Values, Ivars, Api, IsExact}
use sparsam.Serializer.Outcome
use sparsam.Serializer.Outcome.{Outcome, ok, >>=-eq-ok, ok-injective}
use sparsam.Serializer.Fields.{
  Entry, FieldInfo, FieldInfoMap, InfoRef, info, ftype, WireType, t_bool, t_byte, t_double, t_i16,
  t_i32, t_i64, t_string, t_struct, t_map, t_set, t_list, create_field_info_map,
}
use sparsam.Serializer.Protocol.{Reader, Call, Delivers, Events}
use sparsam.Serializer.Write.{write_struct, write_step, write_any, serialize}
use sparsam.Serializer.Read
use sparsam.Serializer.Read.{
  RState, read_struct, read_step, read_any, is_union, deserialize, read_union, read_elements,
}
use sparsam.Serializer.RoundTrip.Gives.{At}
use sparsam.Serializer.RoundTrip.Revive.{
  revive_fields, revive_step, revive, is_readable, is_readable_type, revive_object,
}
use sparsam.Serializer.RoundTrip.Results.{Results, Results-same}
use sparsam.Serializer.RoundTrip.Containers.{read_elements-Results, read_map-Results}
use sparsam.Serializer.RoundTrip.Scalars.{
  Nested, Step, i16-Gives, i32-Gives, i64-Gives, byte-Gives, bool-Gives, double-Gives, string-Gives,
}
use sparsam.Serializer.RoundTrip.Bodies
use sparsam.Serializer.RoundTrip.Bodies.{
  readable_refs, unions-known, body-Results, object-Results, framed-Results,
}

module _ (p : Reader) (d : Delivers p) (api : Api) (fields : Klass → List (ℤ × Entry))
    (warm : Klass → Bool) (exact : IsExact api) where
  abbrev field_map : Klass → FieldInfoMap
  field_map = Bodies.field_map p d api fields warm exact

  module _ (budget : ℕ)
      (readable : (k : Klass)
        → All (λ e. is_readable api warm e.1 ≡ true) (create_field_info_map (fields k)))
      (enough : (k : Klass) → length (create_field_info_map (fields k)) < budget) where
    module _ (write : FieldInfo → Value → Klass → Text → Outcome Events)
        (read : WireType → FieldInfo → Call (RState p.State) Value)
        (r : FieldInfo → Value → Outcome Value)
        (ih : Nested p d api fields warm exact field_map budget write read r) where
      abbrev StepOf : FieldInfo → Type 0
      StepOf = Step p d api fields warm exact field_map budget write read r

      list-Results :
          (k : Klass) (n : Text) (o b : Bool) (e m : InfoRef) → StepOf (info t_list k n o b e m)
      unfolding write_step read_step revive_step
      list-Results k n o b e m ok_i outer field (Ruby.array vs) es w s rest h =
          read_elements-Results p d api fields warm (λ j v. write j v outer field) read r
            (λ i ok_j. ih i ok_j outer field) e vs es
            (readable_refs api warm t_list k n o b e m ok_i).0 w p.read_list_begin p.read_list_end
            d.list_begins d.list_ends Ruby.array s rest h
      list-Results k n o b e m ok_i outer field _ es w s rest h = cc

      set-Results :
          (k : Klass) (n : Text) (o b : Bool) (e m : InfoRef) → StepOf (info t_set k n o b e m)
      unfolding write_step read_step revive_step
      set-Results k n o b e m ok_i outer field (Ruby.set vs) es w s rest h =
          read_elements-Results p d api fields warm (λ j v. write j v outer field) read r
            (λ i ok_j. ih i ok_j outer field) e vs es
            (readable_refs api warm t_set k n o b e m ok_i).0 w p.read_set_begin p.read_set_end
            d.set_begins d.set_ends api.set_new s rest h
      set-Results k n o b e m ok_i outer field _ es w s rest h = cc

      map-Results :
          (k : Klass) (n : Text) (o b : Bool) (e m : InfoRef) → StepOf (info t_map k n o b e m)
      unfolding write_step read_step revive_step
      map-Results k n o b e m ok_i outer field (Ruby.hash ps) es w s rest h =
          let refs = readable_refs api warm t_map k n o b e m ok_i in
          read_map-Results p d api fields warm (λ j v. write j v outer field) read r
            (λ i ok_j. ih i ok_j outer field) m e ps es refs.1 refs.0 w s rest h
      map-Results k n o b e m ok_i outer field _ es w s rest h = cc

      -- What is_union decides on, and what follows it.
      abbrev by_unions : Klass → Bool → Call (RState p.State) Value
      by_unions k u =
          if u then read_union api fields p read k else read_struct api fields p read budget k

      abbrev closed : Call (RState p.State) Value → Call (RState p.State) Value
      closed m = Read.◌>>=◌ api fields p m (λ x.
          Read.◌>>◌ api fields p (Read.call api fields p p.read_struct_end)
            (Read.pure api fields p x))

      asked :
          (k : Klass) (s : RState p.State)
          → s.cache.unions k ≡ api.inherits_union k
          → Read.◌>>=◌ api fields p (is_union api fields p k) (λ u. closed (by_unions k u)) s
            ≡ closed (by_unions k (api.inherits_union k)) s
      unfolding is_union
      asked k s h = ap (λ u. closed (by_unions k u) s) h

      struct-Results :
          (k : Klass) (n : Text) (o b : Bool) (e m : InfoRef) → StepOf (info t_struct k n o b e m)
      unfolding write_step read_step revive_step is_union
      struct-Results k n o b e m ok_i outer field (Ruby.object j vs) es w s rest h =
          let known = (readable_refs api warm t_struct k n o b e m ok_i).2 in
          elim (Bool-cases (j == k)) [
            | inl same ↦
                framed-Results p d api fields warm exact
                  (write_struct api (λ i v f. write i v j f) k (field_map k) vs) es (rw same at w)
                  (by_unions k (api.inherits_union k)) (revive_object api field_map r k vs)
                  (object-Results p d api fields warm exact budget readable enough write read r ih k
                    j vs)
                  _
                  (λ s₁ fs at g.
                    Results-same p d api fields warm (closed (by_unions k (api.inherits_union k)))
                      (Read.◌>>=◌ api fields p (is_union api fields p k)
                        (λ u. closed (by_unions k u)))
                      s₁ (revive_object api field_map r k vs) fs
                      (asked k s₁ (
                        unions-known p d api fields warm exact budget readable enough s₁.cache k
                          known at))
                      g)
                  s rest h
            | inr differ ↦ cc (rw differ at w)
          ]
      struct-Results k n o b e m ok_i outer field _ es w s rest h = cc

      step-Results : (i : FieldInfo) → StepOf i
      unfolding is_readable is_readable_type
      step-Results (info t_i16 k n o b e m) =
          i16-Gives p d api fields warm exact field_map budget write read r k n o b e m
      step-Results (info t_i32 k n o b e m) =
          i32-Gives p d api fields warm exact field_map budget write read r k n o b e m
      step-Results (info t_i64 k n o b e m) =
          i64-Gives p d api fields warm exact field_map budget write read r k n o b e m
      step-Results (info t_byte k n o b e m) =
          byte-Gives p d api fields warm exact field_map budget write read r k n o b e m
      step-Results (info t_bool k n o b e m) =
          bool-Gives p d api fields warm exact field_map budget write read r k n o b e m
      step-Results (info t_double k n o b e m) =
          double-Gives p d api fields warm exact field_map budget write read r k n o b e m
      step-Results (info t_string k n o b e m) =
          string-Gives p d api fields warm exact field_map budget write read r k n o b e m
      step-Results (info t_list k n o b e m) = list-Results k n o b e m
      step-Results (info t_set k n o b e m) = set-Results k n o b e m
      step-Results (info t_map k n o b e m) = map-Results k n o b e m
      step-Results (info t_struct k n o b e m) = struct-Results k n o b e m
      step-Results (info _ k n o b e m) = λ ok_i outer field v es w s rest h. cc

    -- Whatever the depth of the value.
    pub any-Results :
        (f : ℕ)
        → Nested p d api fields warm exact field_map budget
            (λ i v outer field. write_any api field_map f (ftype i) i v outer field)
            (read_any api fields p budget f)
            (revive api field_map f)
    unfolding write_any read_any revive
    any-Results zero i ok_i outer field v es w s rest h = cc
    any-Results (suc f) i ok_i outer field v es w s rest h =
        step-Results (λ j v' o n. write_any api field_map f (ftype j) j v' o n)
          (read_any api fields p budget f) (revive api field_map f) (any-Results f) i ok_i outer
          field v es w s rest h

    -- Where serializer_writeStruct makes the calls `es` for an object that is no union,
    -- serializer_readStruct, from a protocol that stands at `es` and then `rest` and from any
    -- coherent cache, returns the object rebuilt from klass.new by its fields that are not nil, and
    -- leaves the protocol at `rest` and the cache coherent; a union inside it, at any depth, arrives
    -- as serializer_readUnion answers it, and if one has more than one field set, UnionException is
    -- raised. Every field has types that readAny reads, the cache has the classes of the nested
    -- unions, the conversions of Ruby are exact, and the budget exceeds the number of fields of
    -- each class.
    pub deserialize-serialize :
        (f : ℕ) (k : Klass) (vs : Ivars) (es : Events)
        → serialize api (λ j. create_field_info_map (fields j)) f k (Ruby.object k vs) ≡ ok es
        → (s : RState p.State) (rest : Events) → At p d api fields warm s (es ++ rest)
        → Results p d api fields warm
            (deserialize api fields p budget f k)
            s
            (Outcome.◌>>=◌
              (revive_fields api
                (revive api (λ j. create_field_info_map (fields j)) f)
                (create_field_info_map (fields k))
                vs
                (api.new_ivars k))
              (λ us. ok (Ruby.object k us)))
            rest
    unfolding serialize deserialize Bodies.field_map
    deserialize-serialize f k vs es w s rest h = elim (Bool-cases (k == k)) [
      | inl same ↦
          framed-Results p d api fields warm exact
            (write_struct api (λ i v n. write_any api field_map f (ftype i) i v k n) k (field_map k)
              vs)
            es (rw same at w) (read_struct api fields p (read_any api fields p budget f) budget k) _
            (body-Results p d api fields warm exact budget readable enough
              (λ i v o n. write_any api field_map f (ftype i) i v o n)
              (read_any api fields p budget f) (revive api field_map f) (any-Results f) k k vs)
            _ (λ s₁ fs at g. g) s rest h
      | inr differ ↦ cc (rw differ at w)
    ]

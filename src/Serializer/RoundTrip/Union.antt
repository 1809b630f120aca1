-- ===== src/Serializer/RoundTrip/Union.antt =====
-- serializer_readUnion against serializer_writeStruct, which writes a union like any other object.
use sparsam.Base.{
  ℕ, ◌==◌, ◌<◌, ℤ, ◌≡◌, List, ◌++◌, Bool, true, All, length, Bool-cases, inl, inr, int_key,
}
use sparsam.Serializer.Ruby
use sparsam.Serializer.Ruby.{Klass, Value, Values, Ivars, Api, IsExact}
use sparsam.Serializer.Outcome.{ok}
use sparsam.Serializer.Fields.{Entry, FieldInfoMap, ftype, create_field_info_map}
use sparsam.Serializer.Protocol.{Reader, Delivers, Events}
use sparsam.Serializer.Write.{write_struct, write_any, serialize}
use sparsam.Serializer.Read.{RState, read_any, read_union}
use sparsam.Serializer.RoundTrip.Gives.{At}
use sparsam.Serializer.RoundTrip.Revive.{revive, is_readable}
use sparsam.Serializer.RoundTrip.Results.{Results}
use sparsam.Serializer.RoundTrip.SetFields.{set_fields, read_back}
use sparsam.Serializer.Read.{deserialize_union}
use sparsam.Serializer.RoundTrip.Bodies
use sparsam.Serializer.RoundTrip.Bodies.{union_body-Results, framed-Results}
use sparsam.Serializer.RoundTrip.Main.{any-Results}

module _ (p : Reader) (d : Delivers p) (api : Api) (fields : Klass → List (ℤ × Entry))
    (warm : Klass → Bool) (exact : IsExact api) (budget : ℕ)
    (readable : (k : Klass)
      → All (λ e. is_readable api warm e.1 ≡ true) (create_field_info_map (fields k)))
    (enough : (k : Klass) → length (create_field_info_map (fields k)) < budget) where
  abbrev field_map : Klass → FieldInfoMap
  field_map = Bodies.field_map p d api fields warm exact

  -- Where serializer_writeStruct makes the calls `es` for an object, serializer_readUnion, from a
  -- protocol that stands at `es` and then `rest` and from any coherent cache, returns klass.new if
  -- no field of the object is set; if one is, klass.new with that field and its name in @setfield,
  -- unless the value arrives as nil; and raises UnionException if more are set, or if a union inside
  -- the one that is set has more. Where it returns, the protocol stands at `rest`. The conditions
  -- are those of the round trip of structs.
  pub deserialize_union-serialize :
      (f : ℕ) (k : Klass) (vs : Ivars) (es : Events)
      → serialize api (λ j. create_field_info_map (fields j)) f k (Ruby.object k vs) ≡ ok es
      → (s : RState p.State) (rest : Events) → At p d api fields warm s (es ++ rest)
      → Results p d api fields warm
          (deserialize_union api fields p budget f k)
          s
          (read_back api k
            (revive api (λ j. create_field_info_map (fields j)) f)
            (set_fields (create_field_info_map (fields k)) vs)
            vs)
          rest
  unfolding serialize deserialize_union Bodies.field_map
  deserialize_union-serialize f k vs es w s rest h = elim (Bool-cases (k == k)) [
    | inr differ ↦ cc (rw differ at w)
    | inl same ↦
        framed-Results p d api fields warm exact
          (write_struct api (λ i v n. write_any api field_map f (ftype i) i v k n) k (field_map k)
            vs)
          es (rw same at w) (read_union api fields p (read_any api fields p budget f) k) _
          (union_body-Results p d api fields warm exact budget readable enough
            (λ i v o n. write_any api field_map f (ftype i) i v o n)
            (read_any api fields p budget f) (revive api field_map f)
            (any-Results p d api fields warm exact budget readable enough f) k k vs)
          _ (λ s₁ fs at g. g) s rest h
  ]

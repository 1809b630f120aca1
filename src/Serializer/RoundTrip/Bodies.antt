-- ===== src/Serializer/RoundTrip/Bodies.antt =====
-- The bodies of structs and unions, and their frame.
use sparsam.Base.{
  ℕ, ◌<◌, ℤ, Text, ◌≡◌, refl, sym, ap, subst, ◌∙◌, List, [], ◌∷◌, ◌++◌, append_assoc, Bool, true,
  All, length, Bool-cases, inl, inr, and_true_iff, if◌then◌else◌, int_key,
}
use sparsam.Serializer.Ruby
use sparsam.Serializer.Ruby.{Klass, Value, Values, Ivars, Api, IsExact}
use sparsam.Serializer.Outcome
use sparsam.Serializer.Outcome.{Outcome, ok, >>=-eq-ok, ok-injective}
use sparsam.Serializer.Fields.{
  Entry, FieldInfo, FieldInfoMap, InfoRef, Cache, info, WireType, t_struct, sym_name,
  create_field_info_map,
}
use sparsam.Serializer.FieldMap.{IsReady, IsSortedMap-Finds, create_field_info_map-IsSortedMap}
use sparsam.Serializer.Protocol.{
  Reader, Call, Delivers, Events, struct_begin, struct_end, field_stop,
}
use sparsam.Serializer.Write.{check_required_fields, write_fields, write_struct, framed}
use sparsam.Serializer.Read
use sparsam.Serializer.Read.{
  RState, read_struct, read_step, read_any, is_union, deserialize, read_union, read_elements,
}
use sparsam.Serializer.RoundTrip.Gives.{At, Gives-bind, Gives-call, Gives-pure}
use sparsam.Serializer.RoundTrip.Revive.{
  revive_fields, is_readable, is_readable_ref, is_readable_type, is_known, revive_object,
}
use sparsam.Serializer.RoundTrip.Results.{Results, Results-bind, Results-then}
use sparsam.Serializer.RoundTrip.SetFields.{
  set_fields, read_back, write_fields-set_fields, set_fields-All, set_fields-HaveValues,
}
use sparsam.Serializer.RoundTrip.UnionSteps.{set-Results}
use sparsam.Serializer.RoundTrip.Structs.{read_struct-Results}
use sparsam.Serializer.RoundTrip.Scalars.{Nested}

pub readable_refs :
    (api : Api) (warm : Klass → Bool) (t : WireType) (k : Klass) (n : Text) (o b : Bool)
    (e m : InfoRef)
    → is_readable api warm (info t k n o b e m) ≡ true
    → (is_readable_ref api warm e ≡ true)
      × (is_readable_ref api warm m ≡ true)
      × (is_known api warm t k ≡ true)
unfolding is_readable
readable_refs api warm t k n o b e m h =
    let refs =
      (and_true_iff (is_readable_ref api warm e) _).0
        (((and_true_iff (is_readable_type t) _).0 h).1) in
    let more = (and_true_iff (is_readable_ref api warm m) _).0 refs.1 in (refs.0, more.0, more.1)

-- A union that is known is among `warm`.
known-warm :
    (api : Api) (warm : Klass → Bool) (k : Klass)
    → is_known api warm t_struct k ≡ true
    → api.inherits_union k ≡ true
    → warm k ≡ true
unfolding is_known
known-warm api warm k h union = rw union at h

module _ (p : Reader) (d : Delivers p) (api : Api) (fields : Klass → List (ℤ × Entry))
    (warm : Klass → Bool) (exact : IsExact api) where
  unfoldable pub field_map : Klass → FieldInfoMap
  field_map k = create_field_info_map (fields k)

  module _ (budget : ℕ)
      (readable : (k : Klass)
        → All (λ e. is_readable api warm e.1 ≡ true) (create_field_info_map (fields k)))
      (enough : (k : Klass) → length (create_field_info_map (fields k)) < budget) where
    -- What `unions` has of a struct's class, or of a known union's.
    pub unions-known :
        (c : Cache) (k : Klass)
        → is_known api warm t_struct k ≡ true
        → IsReady api fields warm c
        → c.unions k ≡ api.inherits_union k
    unions-known c k known h = elim (Bool-cases (api.inherits_union k)) [
      | inl union ↦ h.warmed k (known-warm api warm k known union)
      | inr plain ↦ elim (Bool-cases (c.unions k)) [
        | inl u ↦ cc (sym plain ∙ h.coherent.members k u)
        | inr u ↦ u ∙ sym plain
      ]
    ]

    module _ (write : FieldInfo → Value → Klass → Text → Outcome Events)
        (read : WireType → FieldInfo → Call (RState p.State) Value)
        (r : FieldInfo → Value → Outcome Value)
        (ih : Nested p d api fields warm exact field_map budget write read r) where
      -- A struct without its frame.
      pub body-Results :
          (k outer : Klass) (vs : Ivars) (es : Events)
          → write_struct api (λ j w s. write j w outer s) k (field_map k) vs ≡ ok es
          → (s : RState p.State) (rest : Events)
          → At p d api fields warm s (es ++ field_stop ∷ rest)
          → Results p d api fields warm
              (read_struct api fields p read budget k)
              s
              (Outcome.◌>>=◌
                (revive_fields api r (field_map k) vs (api.new_ivars k))
                (λ us. ok (Ruby.object k us)))
              rest
      unfolding field_map
      body-Results k outer vs es w s rest h =
          read_struct-Results p d api fields warm (λ j v n. write j v outer n) read r
            (λ i ok_i. ih i ok_i outer (sym_name i)) k (field_map k) refl
            (IsSortedMap-Finds (field_map k) (create_field_info_map-IsSortedMap (fields k)))
            (readable k) vs budget (enough k) es w s rest h

      -- A union without its frame.
      pub union_body-Results :
          (k outer : Klass) (vs : Ivars) (es : Events)
          → write_struct api (λ j w s. write j w outer s) k (field_map k) vs ≡ ok es
          → (s : RState p.State) (rest : Events)
          → At p d api fields warm s (es ++ field_stop ∷ rest)
          → Results p d api fields warm
              (read_union api fields p read k)
              s
              (read_back api k r (set_fields (field_map k) vs) vs)
              rest
      unfolding write_struct field_map
      union_body-Results k outer vs es w s rest h =
          let m : FieldInfoMap = create_field_info_map (fields k) in
          let writer : FieldInfo → Value → Text → Outcome Events = λ j v n. write j v outer n in
          let step =
            >>=-eq-ok (check_required_fields api k m vs) (λ _. write_fields api writer m vs) w in
          set-Results p d api fields warm writer read r (λ i ok_i. ih i ok_i outer (sym_name i)) k m
            refl (set_fields m vs) vs es
            (set_fields-All _ m vs
              (IsSortedMap-Finds m (create_field_info_map-IsSortedMap (fields k))))
            (set_fields-All _ m vs (readable k)) (set_fields-HaveValues m vs)
            (sym (write_fields-set_fields api writer m vs) ∙ step.2) s rest h

      -- The one or the other, as `unions` has it.
      pub object-Results :
          (k outer : Klass) (vs : Ivars) (es : Events)
          → write_struct api (λ j w s. write j w outer s) k (field_map k) vs ≡ ok es
          → (s : RState p.State) (rest : Events)
          → At p d api fields warm s (es ++ field_stop ∷ rest)
          → Results p d api fields warm
              (if api.inherits_union k
                then read_union api fields p read k
                else read_struct api fields p read budget k)
              s
              (revive_object api field_map r k vs)
              rest
      unfolding revive_object
      object-Results k outer vs es w s rest h = elim (Bool-cases (api.inherits_union k)) [
        | inl union ↦ rw union (union_body-Results k outer vs es w s rest h)
        | inr plain ↦ rw plain (body-Results k outer vs es w s rest h)
      ]

  -- An object in its frame; `whole` is what follows the first call of the reader.
  pub framed-Results :
      (m : Outcome Events) (es : Events)
      → framed api m ≡ ok es
      → (read : Call (RState p.State) Value) (o : Outcome Value)
      → ((ms : Events)
          → m ≡ ok ms
          → (s : RState p.State) (rest : Events)
          → At p d api fields warm s (ms ++ field_stop ∷ rest)
          → Results p d api fields warm read s o rest)
      → (whole : Unit {0} → Call (RState p.State) Value)
      → ((s : RState p.State) (rest : Events)
          → IsReady api fields warm s.cache
          → Results p d api fields warm
              (Read.◌>>=◌ api fields p read (λ x.
                Read.◌>>◌ api fields p
                  (Read.call api fields p p.read_struct_end)
                  (Read.pure api fields p x)))
              s
              o
              rest
          → Results p d api fields warm (whole tt) s o rest)
      → (s : RState p.State) (rest : Events) → At p d api fields warm s (es ++ rest)
      → Results p d api fields warm
          (Read.◌>>=◌ api fields p (Read.call api fields p p.read_struct_begin) whole)
          s
          o
          rest
  unfolding framed
  framed-Results m es w read o inside whole same s rest h =
      let step = >>=-eq-ok m (λ fs. ok (struct_begin ∷ (fs ++ field_stop ∷ struct_end ∷ []))) w in
      let split : At p d api fields warm s
          (struct_begin ∷ (step.0 ++ field_stop ∷ struct_end ∷ rest)) =
        subst (At p d api fields warm s)
          (ap (λ e. e ++ rest) (sym (ok-injective step.2))
            ∙ ap (λ e. struct_begin ∷ e) (append_assoc step.0 (field_stop ∷ struct_end ∷ []) rest))
          h in
      Results-bind p d api fields warm (Read.call api fields p p.read_struct_begin) whole s tt o
        (step.0 ++ field_stop ∷ struct_end ∷ rest) rest
        (Gives-call p d api fields warm p.read_struct_begin s tt _ _ (λ x. d.struct_begins x _)
          split)
        λ s₁ h₁. same s₁ rest h₁.1 (
          Results-then p d api fields warm read _ s₁ o (struct_end ∷ rest) rest
            (inside step.0 step.1 s₁ (struct_end ∷ rest) h₁)
            λ v s₂ h₂.
              Gives-bind p d api fields warm (Read.call api fields p p.read_struct_end)
                (λ _. Read.pure api fields p v) s₂ tt v rest rest
                (Gives-call p d api fields warm p.read_struct_end s₂ tt _ rest
                  (λ x. d.struct_ends x rest) h₂)
                λ s₃ h₃. Gives-pure p d api fields warm v s₃ rest h₃)

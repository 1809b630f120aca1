-- ===== src/Serializer/RoundTrip/Structs.antt =====
-- Structs: the loop of writeStruct over the fields against the loop of readStruct.
use sparsam.Base.{
  ℕ, zero, suc, ℤ, ◌<◌, Text, ◌≡◌, refl, sym, ap, subst, ◌∙◌, List, [], ◌∷◌, ◌++◌, append_assoc,
  Bool, true, false, some, All, find, int_key, length, Bool-cases, inl, inr, arith, and_true_iff,
}
use sparsam.Serializer.Ruby
use sparsam.Serializer.Ruby.{Klass, Value, Ivars, Api, ivar_get, is_nil}
use sparsam.Serializer.Outcome
use sparsam.Serializer.Outcome.{Outcome, ok, >>=-eq-ok, ok-injective}
use sparsam.Serializer.Fields.{
  Entry, FieldInfo, FieldInfoMap, info, ftype, ivar_name, sym_name, same_type, same_type_self,
  WireType, t_stop, wire_id, t_bool, find_or_create, create_field_info_map,
}
use sparsam.Serializer.FieldMap.{Finds, find_or_create_lem, find_or_create-IsReady}
use sparsam.Serializer.Protocol.{Reader, Call, Delivers, Events, field_begin, field_end, field_stop}
use sparsam.Serializer.Write.{check_required_fields, write_fields, write_struct}
use sparsam.Serializer.Read
use sparsam.Serializer.Read.{RState, read_field, read_fields, read_struct, cached_fields}
use sparsam.Serializer.RoundTrip.Gives.{At, Gives, Gives-bind, Gives-call, Gives-pure}
use sparsam.Serializer.RoundTrip.Results.{Results, Results-bind, Results-chain}
use sparsam.Serializer.RoundTrip.Revive.{revive_fields, store, is_readable, is_readable_type}
use sparsam.Serializer.RoundTrip.Containers.{Reads}

pub readable-ne-stop : (t : WireType) → is_readable_type t ≡ true → same_type t t_stop ≡ false
unfolding is_readable_type same_type wire_id
readable-ne-stop t_bool h = refl
readable-ne-stop t h = ground arith

pub readable-ftype :
    (api : Api) (warm : Klass → Bool) (i : FieldInfo)
    → is_readable api warm i ≡ true
    → is_readable_type (ftype i) ≡ true
unfolding is_readable
readable-ftype api warm (info t k n o b e m) h = ((and_true_iff (is_readable_type t) _).0 h).0

module _ (p : Reader) (d : Delivers p) (api : Api) (fields : Klass → List (ℤ × Entry))
    (warm : Klass → Bool) where
  -- readAny and writeAny of the fields of a struct; the writer is told the field's name.
  abbrev pub ReadsFields :
      (FieldInfo → Value → Text → Outcome Events)
      → (WireType → FieldInfo → Call (RState p.State) Value)
      → (FieldInfo → Value → Outcome Value)
      → Type 0
  ReadsFields write read r =
      (i : FieldInfo)
      → is_readable api warm i ≡ true
      → Reads p d api fields warm (λ v. write i v (sym_name i)) (read (ftype i) i) (r i)

  module _ (write : FieldInfo → Value → Text → Outcome Events)
      (read : WireType → FieldInfo → Call (RState p.State) Value)
      (r : FieldInfo → Value → Outcome Value) (ih : ReadsFields write read r) (k : Klass)
      (m : FieldInfoMap) where
    -- One field that is not nil, then the rest of the loop.
    read_one-Results :
        (fid : ℤ) (i : FieldInfo) (v : Value) (acc : Ivars) (g : ℕ) (e : Events)
        (out : Value → Outcome Ivars)
        → find fid m ≡ some i
        → is_readable api warm i ≡ true
        → write i v (sym_name i) ≡ ok e
        → (s : RState p.State) (more rest : Events)
        → At p d api fields warm s (field_begin (ftype i) fid ∷ (e ++ field_end ∷ more))
        → ((a : Value) (s' : RState p.State)
            → At p d api fields warm s' more
            → Results p d api fields warm
                (read_fields api fields p read k m g (store api acc i a))
                s'
                (out a)
                rest)
        → Results p d api fields warm
            (read_fields api fields p read k m (suc g) acc)
            s
            (Outcome.◌>>=◌ (r i v) out)
            rest
    unfolding read_fields
    read_one-Results fid i v acc g e out found readable w s more rest h next =
        Results-bind p d api fields warm (Read.call api fields p p.read_field_begin) _ s
          (ftype i, fid) _ (e ++ field_end ∷ more) rest
          (Gives-call p d api fields warm p.read_field_begin s _ _ _
            (λ x. d.field_begins (ftype i) fid x _) h)
          λ s₁ h₁.
            rw
              (
                readable-ne-stop (ftype i) (readable-ftype api warm i readable),
                found,
                same_type_self (ftype i),
              )
              (Results-chain p d api fields warm (read (ftype i) i) _ s₁ (r i v) out
                (field_end ∷ more) rest (ih i readable v e w s₁ (field_end ∷ more) h₁)
                λ a s₂ h₂.
                  Results-bind p d api fields warm (Read.call api fields p p.read_field_end) _ s₂ tt
                    (out a) more rest
                    (Gives-call p d api fields warm p.read_field_end s₂ tt _ more
                      (λ x. d.field_ends x more) h₂)
                    (next a))

    -- The end of the fields.
    read_stop-Gives :
        (acc : Ivars) (g : ℕ) (s : RState p.State) (rest : Events)
        → At p d api fields warm s (field_stop ∷ rest)
        → Gives p d api fields warm (read_fields api fields p read k m (suc g) acc) s acc rest
    unfolding read_fields
    read_stop-Gives acc g s rest h =
        let (at, s₁, e, h₁) = d.field_stops s.proto rest h.0 in
        Gives-bind p d api fields warm (Read.call api fields p p.read_field_begin) _ s (t_stop, at)
          acc rest rest (record s { proto = s₁ }, rw e refl, (h₁, h.1))
          λ s₂ h₂. rw (same_type_self t_stop) (Gives-pure p d api fields warm acc s₂ rest h₂)

    -- The loop reads every field that the loop of the writer wrote.
    pub read_fields-Results :
        (n : FieldInfoMap)
        → Finds m n
        → All (λ e. is_readable api warm e.1 ≡ true) n
        → (vs acc : Ivars) (g : ℕ) → length n < g
        → (es : Events) → write_fields api write n vs ≡ ok es
        → (s : RState p.State) (rest : Events) → At p d api fields warm s (es ++ field_stop ∷ rest)
        → Results p d api fields warm
            (read_fields api fields p read k m g acc)
            s
            (revive_fields api r n vs acc)
            rest
    unfolding write_fields revive_fields
    read_fields-Results n f a vs acc zero lt es w s rest h = absurd (omega arith)
    read_fields-Results [] f a vs acc (suc g) lt es w s rest h =
        read_stop-Gives acc g s rest
          (subst (λ e. At p d api fields warm s (e ++ field_stop ∷ rest)) (sym (ok-injective w)) h)
    read_fields-Results ((fid, i) ∷ n) f a vs acc (suc g) lt es w s rest h =
        elim (Bool-cases (is_nil (ivar_get vs (ivar_name i)))) [
          | inl absent ↦ rw absent (
              read_fields-Results n f.1 a.1 vs acc (suc g) (omega arith) es (rw absent at w) s rest
                h)
          | inr there ↦
              let v : Value = ivar_get vs (ivar_name i) in
              let one = >>=-eq-ok (write i v (sym_name i)) _ (rw there at w) in
              let more =
                >>=-eq-ok (write_fields api write n vs)
                  (λ fs. ok (field_begin (ftype i) fid ∷ (one.0 ++ field_end ∷ fs))) one.2 in
              let split : At p d api fields warm s (
                  field_begin (ftype i) fid
                  ∷ (one.0 ++ field_end ∷ (more.0 ++ field_stop ∷ rest))) =
                subst (At p d api fields warm s)
                  (ap (λ e. e ++ field_stop ∷ rest) (sym (ok-injective more.2))
                    ∙ ap (λ e. field_begin (ftype i) fid ∷ e)
                        (append_assoc one.0 (field_end ∷ more.0) (field_stop ∷ rest)))
                  h in
              rw there (
                read_one-Results fid i v acc g one.0 _ f.0 a.0 one.1 s (more.0 ++ field_stop ∷ rest)
                  rest split
                  λ u s₁ h₁.
                    read_fields-Results n f.1 a.1 vs (store api acc i u) g (omega arith) more.0
                      more.1 s₁ rest h₁)
        ]

    pub cached_fields-Gives :
        (s : RState p.State) (es : Events)
        → m ≡ create_field_info_map (fields k)
        → At p d api fields warm s es
        → Gives p d api fields warm (cached_fields api fields p k) s m es
    unfolding cached_fields
    cached_fields-Gives s es same h =
        let found = find_or_create_lem api fields k s.cache h.1.coherent in
        (
          record s { cache = (find_or_create api fields k s.cache).1 },
          ap (λ n. ok (n, record s { cache = (find_or_create api fields k s.cache).1 }))
              (found.0 ∙ sym same),
          (h.0, find_or_create-IsReady api fields warm k s.cache h.1),
        )

    -- A struct whose field map is in the cache.
    pub read_struct-Results :
        m ≡ create_field_info_map (fields k)
        → Finds m m
        → All (λ e. is_readable api warm e.1 ≡ true) m
        → (vs : Ivars) (budget : ℕ) → length m < budget
        → (es : Events) → write_struct api write k m vs ≡ ok es
        → (s : RState p.State) (rest : Events) → At p d api fields warm s (es ++ field_stop ∷ rest)
        → Results p d api fields warm
            (read_struct api fields p read budget k)
            s
            (Outcome.◌>>=◌
              (revive_fields api r m vs (api.new_ivars k))
              (λ us. ok (Ruby.object k us)))
            rest
    unfolding write_struct read_struct
    read_struct-Results cached f a vs budget lt es w s rest h =
        let step =
          >>=-eq-ok (check_required_fields api k m vs) (λ _. write_fields api write m vs) w in
        Results-bind p d api fields warm (cached_fields api fields p k)
          (λ x.
            Read.◌>>=◌ api fields p (read_fields api fields p read k x budget (api.new_ivars k))
              (λ us. Read.pure api fields p (Ruby.object k us)))
          s m _ (es ++ field_stop ∷ rest) rest (cached_fields-Gives s _ cached h)
          λ s₁ h₁.
            Results-chain p d api fields warm
              (read_fields api fields p read k m budget (api.new_ivars k))
              (λ us. Read.pure api fields p (Ruby.object k us)) s₁
              (revive_fields api r m vs (api.new_ivars k)) _ rest rest
              (read_fields-Results m f a vs (api.new_ivars k) budget lt es step.2 s₁ rest h₁)
              λ us s₂ h₂. Gives-pure p d api fields warm _ s₂ rest h₂

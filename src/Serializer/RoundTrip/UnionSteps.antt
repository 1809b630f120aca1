-- ===== src/Serializer/RoundTrip/UnionSteps.antt =====
-- readUnion against the loop of writeStruct.
use sparsam.Base.{
  Bool, ℤ, Text, ◌≡◌, refl, sym, ap, subst, ◌∙◌, List, [], ◌∷◌, ◌++◌, append_assoc, true, false,
  some, All, find, int_key, if◌then◌else◌,
}
use sparsam.Serializer.Ruby
use sparsam.Serializer.Ruby.{Klass, Value, Ivars, Api, IsExact, ivar_get, ivar_set, is_nil}
use sparsam.Serializer.Outcome
use sparsam.Serializer.Outcome.{
  Outcome, ok, raise, out_of_fuel, Exception, union_exception, >>=-eq-ok, ok-injective,
}
use sparsam.Serializer.Fields.{
  Entry, FieldInfo, FieldInfoMap, ftype, ivar_name, sym_name, same_type, same_type_self, WireType,
  t_stop, create_field_info_map,
}
use sparsam.Serializer.FieldMap.{Finds}
use sparsam.Serializer.Protocol.{Reader, Call, Delivers, Events, field_begin, field_end, field_stop}
use sparsam.Serializer.Write.{write_fields}
use sparsam.Serializer.Read
use sparsam.Serializer.Read.{
  RState, read_union_field, read_union, read_any, cached_fields, deserialize_union, store,
}
use sparsam.Serializer.RoundTrip.Gives.{At, Gives, Gives-bind, Gives-call, Gives-pure}
use sparsam.Serializer.RoundTrip.Revive.{is_readable}
use sparsam.Serializer.RoundTrip.Structs.{
  ReadsFields, readable-ne-stop, readable-ftype, cached_fields-Gives,
}
use sparsam.Serializer.RoundTrip.SetFields.{union_ivars, union_fields, read_back}
use sparsam.Serializer.RoundTrip.Results.{Results, Results-bind, Results-map, Results-chain}

module _ (p : Reader) (d : Delivers p) (api : Api) (fields : Klass → List (ℤ × Entry))
    (warm : Klass → Bool) where
  module _ (write : FieldInfo → Value → Text → Outcome Events)
      (read : WireType → FieldInfo → Call (RState p.State) Value)
      (r : FieldInfo → Value → Outcome Value) (ih : ReadsFields p d api fields warm write read r)
      (k : Klass) (m : FieldInfoMap) (cached : m ≡ create_field_info_map (fields k)) where
    -- The field begins after the one that was read.
    abbrev second : FieldInfo → Value → Call (RState p.State) Ivars
    second i v = Read.◌>>=◌ api fields p (Read.call api fields p p.read_field_begin) (λ b.
        if same_type b.0 t_stop
        then Read.pure api fields p (union_ivars api k i v)
        else Read.fail api fields p union_exception)

    second-stop :
        (i : FieldInfo) (v : Value) (s : RState p.State) (rest : Events)
        → At p d api fields warm s (field_stop ∷ rest)
        → Gives p d api fields warm (second i v) s (union_ivars api k i v) rest
    second-stop i v s rest h =
        let (at, s₁, e, h₁) = d.field_stops s.proto rest h.0 in
        Gives-bind p d api fields warm (Read.call api fields p p.read_field_begin) _ s (t_stop, at)
          _ rest rest (record s { proto = s₁ }, rw e refl, (h₁, h.1))
          λ s₂ h₂. rw (same_type_self t_stop) (Gives-pure p d api fields warm _ s₂ rest h₂)

    second-raises :
        (i j : FieldInfo) (v : Value) (fid : ℤ) (s : RState p.State) (more rest : Events)
        → is_readable api warm j ≡ true
        → At p d api fields warm s (field_begin (ftype j) fid ∷ more)
        → Results p d api fields warm (second i v) s (raise union_exception) rest
    second-raises i j v fid s more rest readable h =
        let (s₁, e, h₁) = d.field_begins (ftype j) fid s.proto more h.0 in
        rw (e, readable-ne-stop (ftype j) (readable-ftype api warm j readable)) refl

    -- The field that was announced.
    field-Results :
        (i : FieldInfo) (v : Value) (e more rest : Events) (o : Value → Outcome Ivars)
        → is_readable api warm i ≡ true
        → write i v (sym_name i) ≡ ok e
        → ((a : Value) (s : RState p.State)
            → At p d api fields warm s more
            → Results p d api fields warm (second i a) s (o a) rest)
        → (s : RState p.State) → At p d api fields warm s (e ++ field_end ∷ more)
        → Results p d api fields warm
            (read_union_field api fields p read (some i) (ftype i) (api.new_ivars k))
            s
            (Outcome.◌>>=◌ (r i v) o)
            rest
    unfolding read_union_field
    field-Results i v e more rest o readable w next s h =
        Results-chain p d api fields warm (read (ftype i) i) _ s (r i v) o (field_end ∷ more) rest
          (ih i readable v e w s (field_end ∷ more) h)
          λ a s₁ h₁.
            Results-bind p d api fields warm (Read.call api fields p p.read_field_end) _ s₁ tt (o a)
              more rest
              (Gives-call p d api fields warm p.read_field_end s₁ tt _ more
                (λ x. d.field_ends x more) h₁)
              (next a)

    -- readUnion behind the first call of readFieldBegin.
    abbrev behind : FieldInfoMap → WireType × ℤ → Call (RState p.State) Value
    behind n b =
        Read.◌>>=◌ api fields p
          (if same_type b.0 t_stop
            then Read.pure api fields p (api.new_ivars k)
            else read_union_field api fields p read (find b.1 n) b.0 (api.new_ivars k))
          (λ us. Read.pure api fields p (Ruby.object k us))

    -- readUnion up to its first field.
    first-Results :
        (fid : ℤ) (i : FieldInfo) (more rest : Events) (o : Outcome Ivars)
        → find fid m ≡ some i
        → is_readable api warm i ≡ true
        → ((s : RState p.State)
            → At p d api fields warm s more
            → Results p d api fields warm
                (read_union_field api fields p read (some i) (ftype i) (api.new_ivars k))
                s
                o
                rest)
        → (s : RState p.State) → At p d api fields warm s (field_begin (ftype i) fid ∷ more)
        → Results p d api fields warm
            (read_union api fields p read k)
            s
            (Outcome.◌>>=◌ o (λ us. ok (Ruby.object k us)))
            rest
    unfolding read_union
    first-Results fid i more rest o found readable next s h =
        Results-bind p d api fields warm (cached_fields api fields p k)
          (λ n. Read.◌>>=◌ api fields p (Read.call api fields p p.read_field_begin) (behind n)) s m
          _ (field_begin (ftype i) fid ∷ more) rest
          (cached_fields-Gives p d api fields warm write read r ih k m s _ cached h)
          λ s₁ h₁.
            Results-bind p d api fields warm (Read.call api fields p p.read_field_begin) (behind m)
              s₁ (ftype i, fid) _ more rest
              (Gives-call p d api fields warm p.read_field_begin s₁ _ _ _
                (λ x. d.field_begins (ftype i) fid x _) h₁)
              λ s₂ h₂.
                rw (readable-ne-stop (ftype i) (readable-ftype api warm i readable), found)
                  (Results-map p d api fields warm
                    (read_union_field api fields p read (some i) (ftype i) (api.new_ivars k))
                    (Ruby.object k) s₂ o rest (next s₂ h₂))

    -- readUnion on an object without fields.
    empty-Gives :
        (s : RState p.State) (rest : Events)
        → At p d api fields warm s (field_stop ∷ rest)
        → Gives p d api fields warm
            (read_union api fields p read k)
            s
            (Ruby.object k (api.new_ivars k))
            rest
    unfolding read_union
    empty-Gives s rest h =
        Gives-bind p d api fields warm (cached_fields api fields p k)
          (λ n. Read.◌>>=◌ api fields p (Read.call api fields p p.read_field_begin) (behind n)) s m
          _ (field_stop ∷ rest) rest
          (cached_fields-Gives p d api fields warm write read r ih k m s _ cached h)
          λ s₁ h₁.
            let (at, s₂, e, h₂) = d.field_stops s₁.proto rest h₁.0 in
            Gives-bind p d api fields warm (Read.call api fields p p.read_field_begin) (behind m) s₁
              (t_stop, at) _ rest rest (record s₁ { proto = s₂ }, rw e refl, (h₂, h₁.1))
              λ s₃ h₃. rw (same_type_self t_stop) (Gives-pure p d api fields warm _ s₃ rest h₃)

    abbrev HaveValues : Ivars → FieldInfoMap → Type 0
    HaveValues vs n = All (λ e. is_nil (ivar_get vs (ivar_name e.1)) ≡ false) n

    -- The events of a field that is set, and of those behind it.
    set-writes :
        (fid : ℤ) (i : FieldInfo) (n : FieldInfoMap) (vs : Ivars) (es : Events)
        → is_nil (ivar_get vs (ivar_name i)) ≡ false
        → write_fields api write ((fid, i) ∷ n) vs ≡ ok es
        → (e : Events) × (fs : Events) × (write i (ivar_get vs (ivar_name i)) (sym_name i) ≡ ok e)
          × (write_fields api write n vs ≡ ok fs)
          × (field_begin (ftype i) fid ∷ (e ++ field_end ∷ fs) ≡ es)
    unfolding write_fields
    set-writes fid i n vs es there w =
        let one = >>=-eq-ok (write i (ivar_get vs (ivar_name i)) (sym_name i)) _ (rw there at w) in
        let more =
          >>=-eq-ok (write_fields api write n vs)
            (λ fs. ok (field_begin (ftype i) fid ∷ (one.0 ++ field_end ∷ fs))) one.2 in
        (one.0, more.0, one.1, more.1, ok-injective more.2)

    none-writes : (vs : Ivars) (es : Events) → write_fields api write [] vs ≡ ok es → es ≡ []
    unfolding write_fields
    none-writes vs es w = sym (ok-injective w)

    set-At :
        (s : RState p.State) (fid : ℤ) (i : FieldInfo) (e fs es tail : Events)
        → field_begin (ftype i) fid ∷ (e ++ field_end ∷ fs) ≡ es
        → At p d api fields warm s (es ++ tail)
        → At p d api fields warm s (field_begin (ftype i) fid ∷ (e ++ field_end ∷ (fs ++ tail)))
    set-At s fid i e fs es tail same h =
        subst (At p d api fields warm s)
          (ap (λ l. l ++ tail) (sym same)
            ∙ ap (λ l. field_begin (ftype i) fid ∷ l) (append_assoc e (field_end ∷ fs) tail))
          h

    pub set-Results :
        (n : FieldInfoMap) (vs : Ivars) (es : Events)
        → Finds m n
        → All (λ e. is_readable api warm e.1 ≡ true) n
        → HaveValues vs n
        → write_fields api write n vs ≡ ok es
        → (s : RState p.State) (rest : Events) → At p d api fields warm s (es ++ field_stop ∷ rest)
        → Results p d api fields warm
            (read_union api fields p read k)
            s
            (read_back api k r n vs)
            rest
    set-Results [] vs es f a set w s rest h =
        empty-Gives s rest
          (subst (λ l. At p d api fields warm s (l ++ field_stop ∷ rest)) (none-writes vs es w) h)
    set-Results ((fid, i) ∷ []) vs es f a set w s rest h =
        let (e, fs, we, wfs, whole) = set-writes fid i [] vs es set.0 w in
        first-Results fid i _ rest (union_fields api k r ((fid, i) ∷ []) vs) f.0 a.0
          (λ s₁ h₁.
            field-Results i (ivar_get vs (ivar_name i)) e _ rest (λ v. ok (union_ivars api k i v))
              a.0 we
              (λ v s₂ h₂. second-stop i v s₂ rest (
                subst (λ l. At p d api fields warm s₂ (l ++ field_stop ∷ rest))
                  (none-writes vs fs wfs) h₂))
              s₁ h₁)
          s (set-At s fid i e fs es _ whole h)
    set-Results ((fid, i) ∷ (gid, j) ∷ n) vs es f a set w s rest h =
        let (e, fs, we, wfs, whole) = set-writes fid i ((gid, j) ∷ n) vs es set.0 w in
        let (e₂, gs, we₂, wgs, whole₂) = set-writes gid j n vs fs set.1.0 wfs in
        first-Results fid i _ rest (union_fields api k r ((fid, i) ∷ (gid, j) ∷ n) vs) f.0 a.0
          (λ s₁ h₁.
            field-Results i (ivar_get vs (ivar_name i)) e _ rest (λ v. raise union_exception) a.0 we
              (λ v s₂ h₂.
                second-raises i j v gid s₂ _ rest a.1.0 (set-At s₂ gid j e₂ gs fs _ whole₂ h₂))
              s₁ h₁)
          s (set-At s fid i e fs es _ whole h)

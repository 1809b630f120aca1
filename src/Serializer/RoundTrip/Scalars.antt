-- ===== src/Serializer/RoundTrip/Scalars.antt =====
-- The numbers and the strings: one call of the writer against one call of the reader.
use sparsam.Base.{
  ℕ, ℤ, Text, ◌≡◌, refl, sym, ap, subst, List, [], ◌∷◌, ◌++◌, Bool, true, false, inl, inr,
}
use sparsam.Serializer.Ruby
use sparsam.Serializer.Ruby.{Klass, Value, Values, Ivars, Api, IsExact}
use sparsam.Serializer.Outcome.{Outcome, ok, >>=-eq-ok, ok-injective}
use sparsam.Serializer.Fields.{
  Entry, FieldInfo, FieldInfoMap, InfoRef, info, ftype, WireType, t_bool, t_byte, t_double, t_i16,
  t_i32, t_i64, t_string,
}
use sparsam.Serializer.Protocol.{
  Reader, Call, Delivers, Event, Events, write_bool, write_byte, write_i16, write_i32, write_i64,
  write_double, write_string, write_binary,
}
use sparsam.Serializer.Write.{
  write_step, convert_fixnum, convert_i64, convert_float, convert_bool, byte_convert, int_convert,
  short_convert,
}
use sparsam.Serializer.Read
use sparsam.Serializer.Read.{
  RState, read_struct, read_step, read_any, is_union, deserialize, read_union,
}
use sparsam.Serializer.RoundTrip.Gives.{At, Gives-bind, Gives-call, Gives-pure}
use sparsam.Serializer.RoundTrip.Results.{Results}
use sparsam.Serializer.RoundTrip.Revive.{revive_step, is_readable}
use sparsam.Serializer.RoundTrip.Convert.{
  convert_fixnum-eq, convert_float-eq, convert_bool-eq, convert_i64-eq, short_convert-eq,
  int_convert-eq, byte_convert-eq,
}
use sparsam.Serializer.RoundTrip.Containers.{Reads}

module _ (p : Reader) (d : Delivers p) (api : Api) (fields : Klass → List (ℤ × Entry))
    (warm : Klass → Bool) where
  -- A value of one call.
  read_scalar-Results :
      {A : Type 0} (read : Call p.State A) (make : A → Value) (a : A) (e : Event) (es : Events)
      (o : Outcome Value)
      → o ≡ ok (make a)
      → ok (e ∷ []) ≡ ok es
      → ((s : p.State) (fs : Events)
          → d.Holds s (e ∷ fs)
          → (s' : p.State) × (read s ≡ ok (a, s')) × d.Holds s' fs)
      → (s : RState p.State) (rest : Events) → At p d api fields warm s (es ++ rest)
      → Results p d api fields warm
          (Read.◌>>=◌ api fields p
            (Read.call api fields p read)
            (λ x. Read.pure api fields p (make x)))
          s
          o
          rest
  read_scalar-Results read make a e es o same w reads s rest h =
      let split : At p d api fields warm s (e ∷ rest) =
        subst (λ fs. At p d api fields warm s (fs ++ rest)) (sym (ok-injective w)) h in
      rw same (
        Gives-bind p d api fields warm (Read.call api fields p read)
          (λ x. Read.pure api fields p (make x)) s a (make a) rest rest
          (Gives-call p d api fields warm read s a _ rest (λ x. reads x rest) split)
          λ s₁ h₁. Gives-pure p d api fields warm (make a) s₁ rest h₁)

  module _ (exact : IsExact api) (field_map : Klass → FieldInfoMap) (budget : ℕ) where
    -- readAny and writeAny of the values nested in a value.
    abbrev pub Nested :
        (FieldInfo → Value → Klass → Text → Outcome Events)
        → (WireType → FieldInfo → Call (RState p.State) Value)
        → (FieldInfo → Value → Outcome Value)
        → Type 0
    Nested write read r =
        (i : FieldInfo)
        → is_readable api warm i ≡ true
        → (outer : Klass) (field : Text)
        → Reads p d api fields warm (λ v. write i v outer field) (read (ftype i) i) (r i)

    module _ (write : FieldInfo → Value → Klass → Text → Outcome Events)
        (read : WireType → FieldInfo → Call (RState p.State) Value)
        (r : FieldInfo → Value → Outcome Value) where
      -- The body of readAny against the body of writeAny.
      abbrev pub Step : FieldInfo → Type 0
      Step i =
          is_readable api warm i ≡ true
          → (outer : Klass) (field : Text)
          → Reads p d api fields warm
              (λ v. write_step api field_map write (ftype i) i v outer field)
              (read_step api fields p budget read (ftype i) i)
              (revive_step api field_map r (ftype i) i)

      -- The integers.
      pub i16-Gives :
          (k : Klass) (n : Text) (o b : Bool) (e m : InfoRef) → Step (info t_i16 k n o b e m)
      unfolding write_step read_step revive_step
      i16-Gives k n o b e m ok_i outer field v es w =
          let step = >>=-eq-ok (convert_fixnum api (short_convert api) t_i16 v outer field) _ w in
          read_scalar-Results p.read_i16 Ruby.fixnum step.0 (write_i16 step.0) es (ok v)
            (ap ok (
              convert_fixnum-eq api (short_convert api) t_i16 v outer field step.0
                (short_convert-eq api exact) step.1))
            step.2 (d.i16s step.0)

      pub i32-Gives :
          (k : Klass) (n : Text) (o b : Bool) (e m : InfoRef) → Step (info t_i32 k n o b e m)
      unfolding write_step read_step revive_step
      i32-Gives k n o b e m ok_i outer field v es w =
          let step = >>=-eq-ok (convert_fixnum api (int_convert api) t_i32 v outer field) _ w in
          read_scalar-Results p.read_i32 Ruby.fixnum step.0 (write_i32 step.0) es (ok v)
            (ap ok (
              convert_fixnum-eq api (int_convert api) t_i32 v outer field step.0
                (int_convert-eq api exact) step.1))
            step.2 (d.i32s step.0)

      pub byte-Gives :
          (k : Klass) (n : Text) (o b : Bool) (e m : InfoRef) → Step (info t_byte k n o b e m)
      unfolding write_step read_step revive_step
      byte-Gives k n o b e m ok_i outer field v es w =
          let step = >>=-eq-ok (convert_fixnum api (byte_convert api) t_byte v outer field) _ w in
          read_scalar-Results p.read_byte Ruby.fixnum step.0 (write_byte step.0) es (ok v)
            (ap ok (
              convert_fixnum-eq api (byte_convert api) t_byte v outer field step.0
                (byte_convert-eq api exact) step.1))
            step.2 (d.bytes step.0)

      pub i64-Gives :
          (k : Klass) (n : Text) (o b : Bool) (e m : InfoRef) → Step (info t_i64 k n o b e m)
      unfolding write_step read_step revive_step
      i64-Gives k n o b e m ok_i outer field v es w =
          let step = >>=-eq-ok (convert_i64 api v outer field) _ w in
          let revived : revive_step api field_map r t_i64 (info t_i64 k n o b e m) v
              ≡ ok (api.ll2num step.0) =
            elim (convert_i64-eq api exact v outer field step.0 step.1) [
              | inl same ↦ ap (revive_step api field_map r t_i64 (info t_i64 k n o b e m)) same
              | inr same ↦ ap (revive_step api field_map r t_i64 (info t_i64 k n o b e m)) same
            ] in
          read_scalar-Results p.read_i64 api.ll2num step.0 (write_i64 step.0) es _ revived step.2
            (d.i64s step.0)

      pub bool-Gives :
          (k : Klass) (n : Text) (o b : Bool) (e m : InfoRef) → Step (info t_bool k n o b e m)
      unfolding write_step read_step revive_step
      bool-Gives k n o b e m ok_i outer field v es w =
          let step = >>=-eq-ok (convert_bool api v outer field) _ w in
          read_scalar-Results p.read_bool Ruby.bool step.0 (write_bool step.0) es (ok v)
            (ap ok (convert_bool-eq api v outer field step.0 step.1)) step.2 (d.bools step.0)

      pub double-Gives :
          (k : Klass) (n : Text) (o b : Bool) (e m : InfoRef) → Step (info t_double k n o b e m)
      unfolding write_step read_step revive_step
      double-Gives k n o b e m ok_i outer field v es w =
          let step = >>=-eq-ok (convert_float api v outer field) _ w in
          read_scalar-Results p.read_double Ruby.float step.0 (write_double step.0) es (ok v)
            (ap ok (convert_float-eq api v outer field step.0 step.1)) step.2 (d.doubles step.0)

      pub string-Gives :
          (k : Klass) (n : Text) (o b : Bool) (e m : InfoRef) → Step (info t_string k n o b e m)
      unfolding write_step read_step revive_step
      string-Gives k n o true e m ok_i outer field (Ruby.string utf8 s) es w =
          read_scalar-Results p.read_binary (Ruby.string false) s (write_binary s) es _ refl w
            (d.binaries s)
      string-Gives k n o false e m ok_i outer field (Ruby.string utf8 s) es w =
          read_scalar-Results p.read_string (Ruby.string true) s (write_string s) es _ refl w
            (d.strings s)
      string-Gives k n o b e m ok_i outer field _ es w = λ s rest h. cc

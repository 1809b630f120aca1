-- ===== src/Serializer/RoundTrip/Results.antt =====
-- A reader's run that may end in an exception: its rules.
use sparsam.Base.{ℤ, Bool, ◌≡◌, ◌∙◌, refl, List, int_key}
use sparsam.Serializer.Ruby.{Klass, Api}
use sparsam.Serializer.Outcome
use sparsam.Serializer.Outcome.{
  Outcome, ok, raise, out_of_fuel, Exception, union_exception, >>=-eq-ok, ok-injective,
}
use sparsam.Serializer.Fields.{Entry}
use sparsam.Serializer.Protocol.{Reader, Call, Delivers, Events}
use sparsam.Serializer.Read
use sparsam.Serializer.Read.{
  RState, read_union_field, read_union, read_any, cached_fields, deserialize_union, store,
}
use sparsam.Serializer.RoundTrip.Gives.{At, Gives, Gives-bind}

module _ (p : Reader) (d : Delivers p) (api : Api) (fields : Klass → List (ℤ × Entry))
    (warm : Klass → Bool) where
  -- From a reader at `s`, `m` returns and leaves the reader at `es`, or raises.
  abbrev pub Results :
      {A : Type 0} → Call (RState p.State) A → RState p.State → Outcome A → Events → Type 0
  Results m s out_of_fuel es = ⊥
  Results m s (raise e) es = m s ≡ raise e
  Results m s (ok a) es = Gives p d api fields warm m s a es

  pub Results-bind :
      {A B : Type 0} (m : Call (RState p.State) A) (f : A → Call (RState p.State) B)
      (s : RState p.State) (a : A) (o : Outcome B) (es fs : Events)
      → Gives p d api fields warm m s a es
      → ((s' : RState p.State) → At p d api fields warm s' es → Results (f a) s' o fs)
      → Results (Read.◌>>=◌ api fields p m f) s o fs
  Results-bind m f s a out_of_fuel es fs (s', e, h) next = absurd (next s' h)
  Results-bind m f s a (raise x) es fs (s', e, h) next = rw e (next s' h)
  Results-bind m f s a (ok b) es fs given next =
      Gives-bind p d api fields warm m f s a b es fs given next

  pub Results-chain :
      {A B : Type 0} (m : Call (RState p.State) A) (f : A → Call (RState p.State) B)
      (s : RState p.State) (o : Outcome A) (g : A → Outcome B) (es fs : Events)
      → Results m s o es
      → ((a : A) (s' : RState p.State) → At p d api fields warm s' es → Results (f a) s' (g a) fs)
      → Results (Read.◌>>=◌ api fields p m f) s (Outcome.◌>>=◌ o g) fs
  Results-chain m f s out_of_fuel g es fs h next = absurd h
  Results-chain m f s (raise x) g es fs h next = rw h refl
  Results-chain m f s (ok a) g es fs h next = Results-bind m f s a (g a) es fs h (next a)

  -- Only the call at `s` counts.
  pub Results-same :
      {A : Type 0} (m n : Call (RState p.State) A) (s : RState p.State) (o : Outcome A)
      (es : Events)
      → n s ≡ m s
      → Results m s o es
      → Results n s o es
  Results-same m n s out_of_fuel es e h = h
  Results-same m n s (raise x) es e h = e ∙ h
  Results-same m n s (ok a) es e (s', f, h) = (s', e ∙ f, h)

  pub Results-map :
      {A B : Type 0} (m : Call (RState p.State) A) (g : A → B) (s : RState p.State) (o : Outcome A)
      (es : Events)
      → Results m s o es
      → Results
          (Read.◌>>=◌ api fields p m (λ a. Read.pure api fields p (g a)))
          s
          (Outcome.◌>>=◌ o (λ a. ok (g a)))
          es
  Results-map m g s out_of_fuel es h = absurd h
  Results-map m g s (raise x) es h = rw h refl
  Results-map m g s (ok a) es (s', e, h) = (s', rw e refl, h)

  pub Results-then :
      {A : Type 0} (m : Call (RState p.State) A) (g : A → Call (RState p.State) A)
      (s : RState p.State) (o : Outcome A) (es rest : Events)
      → Results m s o es
      → ((a : A) (s' : RState p.State)
          → At p d api fields warm s' es
          → Gives p d api fields warm (g a) s' a rest)
      → Results (Read.◌>>=◌ api fields p m g) s o rest
  Results-then m g s out_of_fuel es rest h next = absurd h
  Results-then m g s (raise x) es rest h next = rw h refl
  Results-then m g s (ok a) es rest h next =
      Gives-bind p d api fields warm m g s a a es rest h (next a)

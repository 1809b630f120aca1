-- ===== src/Serializer/RoundTrip/Gives.antt =====
-- A reader's run over the calls of a writer, with a cache that may fill up: its rules for each call.
use sparsam.Base.{ℤ, Bool, List, ◌≡◌, refl}
use sparsam.Serializer.Ruby.{Klass, Api}
use sparsam.Serializer.Outcome.{ok}
use sparsam.Serializer.Fields.{Entry}
use sparsam.Serializer.FieldMap.{IsReady}
use sparsam.Serializer.Protocol.{Reader, Call, Delivers, Events}
use sparsam.Serializer.Read.{RState}
use sparsam.Serializer.Read

module _ (p : Reader) (d : Delivers p) (api : Api) (fields : Klass → List (ℤ × Entry))
    (warm : Klass → Bool) where
  -- The protocol stands at the calls `es`, and the cache is coherent and has the union classes
  -- among `warm`.
  abbrev pub At : RState p.State → Events → Type 0
  At s es = d.Holds s.proto es × IsReady api fields warm s.cache

  -- From a reader at `s`, `m` returns `a` and leaves the reader at the calls `es`.
  abbrev pub Gives : {A : Type 0} → Call (RState p.State) A → RState p.State → A → Events → Type 0
  Gives m s a es = (s' : RState p.State) × (m s ≡ ok (a, s')) × At s' es

  pub Gives-bind :
      {A B : Type 0} (m : Call (RState p.State) A) (f : A → Call (RState p.State) B)
      (s : RState p.State) (a : A) (b : B) (es fs : Events)
      → Gives m s a es
      → ((s' : RState p.State) → At s' es → Gives (f a) s' b fs)
      → Gives (Read.◌>>=◌ api fields p m f) s b fs
  Gives-bind m f s a b es fs (s', e, h) k = let (s'', e', h') = k s' h in (s'', rw e e', h')

  pub Gives-call :
      {A : Type 0} (m : Call p.State A) (s : RState p.State) (a : A) (es fs : Events)
      → ((s' : p.State) → d.Holds s' es → (s'' : p.State) × (m s' ≡ ok (a, s'')) × d.Holds s'' fs)
      → At s es
      → Gives (Read.call api fields p m) s a fs
  Gives-call m s a es fs law h =
      let (s', e, h') = law s.proto h.0 in (record s { proto = s' }, rw e refl, (h', h.1))

  pub Gives-pure :
      {A : Type 0} (a : A) (s : RState p.State) (es : Events)
      → At s es
      → Gives (Read.pure api fields p a) s a es
  Gives-pure a s es h = (s, refl, h)

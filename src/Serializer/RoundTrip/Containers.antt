-- ===== src/Serializer/RoundTrip/Containers.antt =====
-- Lists, sets and maps: the loops of the writer against those of the reader.
use sparsam.Base.{ℕ, ℤ, ◌≡◌, sym, ap, subst, ◌∙◌, List, Bool, [], ◌∷◌, ◌++◌, append_assoc, true}
use sparsam.Serializer.Ruby
use sparsam.Serializer.Ruby.{Klass, Value, Values, Pairs, Api}
use sparsam.Serializer.Outcome
use sparsam.Serializer.Outcome.{Outcome, ok, >>=-eq-ok, ok-injective}
use sparsam.Serializer.Fields.{
  Entry, FieldInfo, InfoRef, null, ref, ftype, same_type_self, WireType,
}
use sparsam.Serializer.Protocol.{
  Reader, Call, Delivers, Events, list_begin, list_end, map_begin, map_end,
}
use sparsam.Serializer.Write.{
  values_length, pairs_length, write_values, write_pairs, write_list, write_map,
}
use sparsam.Serializer.Read
use sparsam.Serializer.Read.{RState, read_values, read_pairs, read_elements, read_map}
use sparsam.Serializer.RoundTrip.Gives.{At, Gives-bind, Gives-call, Gives-pure}
use sparsam.Serializer.RoundTrip.Results.{Results, Results-bind, Results-chain}
use sparsam.Serializer.RoundTrip.Revive.{
  revive_values, revive_pairs, revive_list, revive_map, is_readable, is_readable_ref,
}

module _ (p : Reader) (d : Delivers p) (api : Api) (fields : Klass → List (ℤ × Entry))
    (warm : Klass → Bool) where
  -- `read` reads what `write` writes, and returns what `r` makes of the value.
  abbrev pub Reads :
      (Value → Outcome Events) → Call (RState p.State) Value → (Value → Outcome Value) → Type 0
  Reads write read r =
      (v : Value) (es : Events)
      → write v ≡ ok es
      → (s : RState p.State) (rest : Events) → At p d api fields warm s (es ++ rest)
      → Results p d api fields warm read s (r v) rest

  pub read_values-Results :
      (write : Value → Outcome Events) (read : Call (RState p.State) Value)
      (r : Value → Outcome Value)
      → Reads write read r
      → (vs : Values) (es : Events) → write_values api write vs ≡ ok es
      → (s : RState p.State) (rest : Events) → At p d api fields warm s (es ++ rest)
      → Results p d api fields warm
          (read_values api fields p (values_length vs) read)
          s
          (revive_values api r vs)
          rest
  unfolding write_values read_values values_length revive_values
  read_values-Results write read r ih Ruby.no_values es w s rest h =
      Gives-pure p d api fields warm Ruby.no_values s rest
        (subst (λ e. At p d api fields warm s (e ++ rest)) (sym (ok-injective w)) h)
  read_values-Results write read r ih (Ruby.value v vs) es w s rest h =
      let one = >>=-eq-ok (write v) _ w in
      let more = >>=-eq-ok (write_values api write vs) (λ fs. ok (one.0 ++ fs)) one.2 in
      let split : At p d api fields warm s (one.0 ++ (more.0 ++ rest)) =
        subst (At p d api fields warm s)
          (ap (λ e. e ++ rest) (sym (ok-injective more.2)) ∙ append_assoc one.0 more.0 rest) h in
      Results-chain p d api fields warm read _ s (r v) _ (more.0 ++ rest) rest
        (ih v one.0 one.1 s (more.0 ++ rest) split)
        λ a s₁ h₁.
          Results-chain p d api fields warm (read_values api fields p (values_length vs) read) _ s₁
            (revive_values api r vs) _ rest rest
            (read_values-Results write read r ih vs more.0 more.1 s₁ rest h₁)
            λ ws s₂ h₂. Gives-pure p d api fields warm _ s₂ rest h₂

  pub read_pairs-Results :
      (write_key write_value : Value → Outcome Events)
      (read_key read_value : Call (RState p.State) Value) (rk rv : Value → Outcome Value)
      → Reads write_key read_key rk
      → Reads write_value read_value rv
      → (ps : Pairs) (acc : Pairs) (es : Events) → write_pairs api write_key write_value ps ≡ ok es
      → (s : RState p.State) (rest : Events) → At p d api fields warm s (es ++ rest)
      → Results p d api fields warm
          (read_pairs api fields p (pairs_length ps) read_key read_value acc)
          s
          (revive_pairs api rk rv ps acc)
          rest
  unfolding write_pairs read_pairs pairs_length revive_pairs
  read_pairs-Results wk wv readk readv rk rv ihk ihv Ruby.no_pairs acc es w s rest h =
      Gives-pure p d api fields warm acc s rest
        (subst (λ e. At p d api fields warm s (e ++ rest)) (sym (ok-injective w)) h)
  read_pairs-Results wk wv readk readv rk rv ihk ihv (Ruby.pair k v ps) acc es w s rest h =
      let one = >>=-eq-ok (wk k) _ w in
      let two = >>=-eq-ok (wv v) _ one.2 in
      let more = >>=-eq-ok (write_pairs api wk wv ps) (λ fs. ok (one.0 ++ (two.0 ++ fs))) two.2 in
      let split : At p d api fields warm s (one.0 ++ (two.0 ++ (more.0 ++ rest))) =
        subst (At p d api fields warm s)
          (ap (λ e. e ++ rest) (sym (ok-injective more.2))
            ∙ (append_assoc one.0 (two.0 ++ more.0) rest
                ∙ ap (λ e. one.0 ++ e) (append_assoc two.0 more.0 rest)))
          h in
      Results-chain p d api fields warm readk _ s (rk k) _ (two.0 ++ (more.0 ++ rest)) rest
        (ihk k one.0 one.1 s _ split)
        λ a s₁ h₁.
          Results-chain p d api fields warm readv _ s₁ (rv v) _ (more.0 ++ rest) rest
            (ihv v two.0 two.1 s₁ _ h₁)
            λ b s₂ h₂.
              read_pairs-Results wk wv readk readv rk rv ihk ihv ps (api.hash_aset acc a b) more.0
                more.1 s₂ rest h₂

  -- readAny and writeAny of the values nested in a container, with one outer struct and field.
  abbrev pub ReadsAll :
      (FieldInfo → Value → Outcome Events)
      → (WireType → FieldInfo → Call (RState p.State) Value)
      → (FieldInfo → Value → Outcome Value)
      → Type 0
  ReadsAll write read r =
      (i : FieldInfo) → is_readable api warm i ≡ true → Reads (write i) (read (ftype i) i) (r i)

  -- The second half of T_LIST and T_SET: `end` reads the end of the container.
  pub read_elements-Results :
      (write : FieldInfo → Value → Outcome Events)
      (read : WireType → FieldInfo → Call (RState p.State) Value)
      (r : FieldInfo → Value → Outcome Value)
      → ReadsAll write read r
      → (e : InfoRef) (vs : Values) (es : Events) → is_readable_ref api warm e ≡ true
      → write_list api write e vs ≡ ok es
      → (begin : Call p.State (WireType × ℕ)) (end : Call p.State (Unit {0}))
      → ((t : WireType) (n : ℕ) (s : p.State) (fs : Events)
          → d.Holds s (list_begin t n ∷ fs)
          → (s' : p.State) × (begin s ≡ ok ((t, n), s')) × d.Holds s' fs)
      → ((s : p.State) (fs : Events)
          → d.Holds s (list_end ∷ fs)
          → (s' : p.State) × (end s ≡ ok (tt, s')) × d.Holds s' fs)
      → (make : Values → Value) (s : RState p.State) (rest : Events)
      → At p d api fields warm s (es ++ rest)
      → Results p d api fields warm
          (Read.◌>>=◌ api fields p
            (Read.call api fields p begin)
            (λ b. read_elements api fields p read e b (Read.call api fields p end) make))
          s
          (Outcome.◌>>=◌ (revive_list api r e vs) (λ ws. ok (make ws)))
          rest
  unfolding write_list read_elements revive_list is_readable
  read_elements-Results write read r ih null vs es ok_e w begin end begins ends make s rest h = cc
  read_elements-Results write read r ih (ref i) vs es ok_e w begin end begins ends make s rest h =
      let inner =
        >>=-eq-ok (write_values api (write i) vs)
          (λ fs. ok (list_begin (ftype i) (values_length vs) ∷ (fs ++ list_end ∷ []))) w in
      let split : At p d api fields warm s
          (list_begin (ftype i) (values_length vs) ∷ (inner.0 ++ list_end ∷ rest)) =
        subst (At p d api fields warm s)
          (ap (λ e. e ++ rest) (sym (ok-injective inner.2))
            ∙ ap (λ e. list_begin (ftype i) (values_length vs) ∷ e)
                (append_assoc inner.0 (list_end ∷ []) rest))
          h in
      Results-bind p d api fields warm (Read.call api fields p begin) _ s
        (ftype i, values_length vs) _ (inner.0 ++ list_end ∷ rest) rest
        (Gives-call p d api fields warm begin s _ _ _ (λ x. begins (ftype i) (values_length vs) x _)
          split)
        λ s₁ h₁. rw (same_type_self (ftype i)) (
          Results-chain p d api fields warm
            (read_values api fields p (values_length vs) (read (ftype i) i)) _ s₁
            (revive_values api (r i) vs) _ (list_end ∷ rest) rest
            (read_values-Results (write i) (read (ftype i) i) (r i) (ih i ok_e) vs inner.0 inner.1
              s₁ _ h₁)
            λ ws s₂ h₂.
              Gives-bind p d api fields warm (Read.call api fields p end) _ s₂ tt _ rest rest
                (Gives-call p d api fields warm end s₂ tt _ rest (λ x. ends x rest) h₂)
                λ s₃ h₃. Gives-pure p d api fields warm _ s₃ rest h₃)

  pub read_map-Results :
      (write : FieldInfo → Value → Outcome Events)
      (read : WireType → FieldInfo → Call (RState p.State) Value)
      (r : FieldInfo → Value → Outcome Value)
      → ReadsAll write read r
      → (k e : InfoRef) (ps : Pairs) (es : Events) → is_readable_ref api warm k ≡ true
      → is_readable_ref api warm e ≡ true
      → write_map api write k e ps ≡ ok es
      → (s : RState p.State) (rest : Events) → At p d api fields warm s (es ++ rest)
      → Results p d api fields warm
          (Read.◌>>=◌ api fields p
            (Read.call api fields p p.read_map_begin)
            (λ b. read_map api fields p read k e b))
          s
          (Outcome.◌>>=◌ (revive_map api r k e ps) (λ qs. ok (Ruby.hash qs)))
          rest
  unfolding write_map read_map revive_map is_readable
  read_map-Results write read r ih null e ps es ok_k ok_e w s rest h = cc
  read_map-Results write read r ih (ref ki) null ps es ok_k ok_e w s rest h = cc
  read_map-Results write read r ih (ref ki) (ref vi) ps es ok_k ok_e w s rest h =
      let inner =
        >>=-eq-ok (write_pairs api (write ki) (write vi) ps)
          (λ fs. ok (map_begin (ftype ki) (ftype vi) (pairs_length ps) ∷ (fs ++ map_end ∷ []))) w in
      let split : At p d api fields warm s
          (map_begin (ftype ki) (ftype vi) (pairs_length ps) ∷ (inner.0 ++ map_end ∷ rest)) =
        subst (At p d api fields warm s)
          (ap (λ e. e ++ rest) (sym (ok-injective inner.2))
            ∙ ap (λ e. map_begin (ftype ki) (ftype vi) (pairs_length ps) ∷ e)
                (append_assoc inner.0 (map_end ∷ []) rest))
          h in
      Results-bind p d api fields warm (Read.call api fields p p.read_map_begin) _ s
        (ftype ki, ftype vi, pairs_length ps) _ (inner.0 ++ map_end ∷ rest) rest
        (Gives-call p d api fields warm p.read_map_begin s _ _ _ (λ x. d.map_begins _ _ _ x _)
          split)
        λ s₁ h₁.
          Results-chain p d api fields warm
            (read_pairs api fields p (pairs_length ps) (read (ftype ki) ki) (read (ftype vi) vi)
              Ruby.no_pairs)
            _ s₁ (revive_pairs api (r ki) (r vi) ps Ruby.no_pairs) _ (map_end ∷ rest) rest
            (read_pairs-Results (write ki) (write vi) _ _ (r ki) (r vi) (ih ki ok_k) (ih vi ok_e) ps
              Ruby.no_pairs inner.0 inner.1 s₁ _ h₁)
            λ qs s₂ h₂.
              Gives-bind p d api fields warm (Read.call api fields p p.read_map_end) _ s₂ tt _ rest
                rest
                (Gives-call p d api fields warm p.read_map_end s₂ tt _ rest (λ x. d.map_ends x rest)
                  h₂)
                λ s₃ h₃. Gives-pure p d api fields warm _ s₃ rest h₃

-- ===== src/Serializer/FieldMap.antt =====
-- The field map of a class: sorted by id, and every field found by its id; and the cache.
use sparsam.Base.{
  ◌==◌, ==_self, ==_iff, ℤ, ◌<ℤ◌, eqb_ℤ, ltb_ℤ, ◌≡◌, refl, sym, ap, ◌∙◌, Bool, true, false, ◌&&◌,
  ◌||◌, List, [], ◌∷◌, none, some, if◌then◌else◌, All, All-map, Bool-cases, Option-cases, inl, inr,
  ◌⊎◌, find, insert, int_key, arith,
}
use sparsam.Serializer.Ruby.{Klass, Api}
use sparsam.Serializer.Fields.{
  FieldInfo, Entry, FieldInfoMap, Cache, to_field_id, create_field_info, fill_field_map,
  create_field_info_map, find_or_create,
}

-- Strictly rising ids, as std::map keeps its keys.
abbrev pub IsSortedMap : FieldInfoMap → Type 0
IsSortedMap [] = Unit {0}
IsSortedMap ((k, i) ∷ m) = All (λ e. k <ℤ e.0) m × IsSortedMap m

above_trans : (j k : ℤ) (m : FieldInfoMap) → j <ℤ k → All (λ e. k <ℤ e.0) m → All (λ e. j <ℤ e.0) m
above_trans j k m h = All-map (λ e r. omega arith) m

insert-above :
    (j k : ℤ) (i : FieldInfo) (m : FieldInfoMap)
    → j <ℤ k
    → All (λ e. j <ℤ e.0) m
    → All (λ e. j <ℤ e.0) (insert k i m)
unfolding insert
insert-above j k i [] h a = (h, tt)
insert-above j k i ((l, x) ∷ m) h a = elim (Bool-cases (eqb_ℤ l k)) [
  | inl same ↦ rw same (h, a.1)
  | inr differ ↦ rw differ (elim (Bool-cases (ltb_ℤ k l)) [
    | inl less ↦ rw less (h, a)
    | inr more ↦ rw more (a.0, insert-above j k i m h a.1)
  ])
]

insert-IsSortedMap :
    (k : ℤ) (i : FieldInfo) (m : FieldInfoMap) → IsSortedMap m → IsSortedMap (insert k i m)
unfolding insert
insert-IsSortedMap k i [] s = (tt, tt)
insert-IsSortedMap k i ((l, x) ∷ m) s = elim (Bool-cases (eqb_ℤ l k)) [
  | inl same ↦ rw same (All-map (λ e h. ground arith) m s.0, s.1)
  | inr differ ↦ rw differ (elim (Bool-cases (ltb_ℤ k l)) [
    | inl less ↦ rw less ((ground arith, above_trans k l m (ground arith) s.0), s)
    | inr more ↦ rw more (insert-above l k i m (ground arith) s.0, insert-IsSortedMap k i m s.1)
  ])
]

fill-IsSortedMap :
    (m : FieldInfoMap) (es : List (ℤ × Entry)) → IsSortedMap m → IsSortedMap (fill_field_map m es)
unfolding fill_field_map
fill-IsSortedMap m [] s = s
fill-IsSortedMap m ((k, e) ∷ es) s =
    fill-IsSortedMap (insert (to_field_id k) (create_field_info e) m) es
      (insert-IsSortedMap (to_field_id k) (create_field_info e) m s)

-- The field map of a class is sorted by id, whatever the order of the entries in FIELDS.
pub create_field_info_map-IsSortedMap :
    (es : List (ℤ × Entry)) → IsSortedMap (create_field_info_map es)
unfolding create_field_info_map
create_field_info_map-IsSortedMap es = fill-IsSortedMap [] es tt

-- A field of a map, and what find answers there.
abbrev pub Finds : FieldInfoMap → FieldInfoMap → Type 0
Finds m = All (λ e. find e.0 m ≡ some e.1)

find-skip :
    (k : ℤ) (i : FieldInfo) (m : FieldInfoMap) (j : ℤ) → k <ℤ j → find j ((k, i) ∷ m) ≡ find j m
unfolding find
find-skip k i m j h = ground arith

find_self : (k : ℤ) (i : FieldInfo) (m : FieldInfoMap) → find k ((k, i) ∷ m) ≡ some i
unfolding find
find_self k i m = ground arith

-- In a sorted map every field is found by its id.
pub IsSortedMap-Finds : (m : FieldInfoMap) → IsSortedMap m → Finds m m
IsSortedMap-Finds [] s = tt
IsSortedMap-Finds ((k, i) ∷ m) s = (find_self k i m, together m (IsSortedMap-Finds m s.1) s.0)
  where
    together : (n : FieldInfoMap) → Finds m n → All (λ e. k <ℤ e.0) n → Finds ((k, i) ∷ m) n
    together [] f a = tt
    together (e ∷ n) f a = (find-skip k i m e.0 a.0 ∙ f.0, together n f.1 a.1)

some_inj : (m n : FieldInfoMap) → some m ≡ some n → m ≡ n
some_inj m n h = cc

-- The cache holds field maps of the classes that it has, and knows their unions.
module _ (api : Api) (fields : Klass → List (ℤ × Entry)) where
  pub record IsCoherent (c : Cache) : Type 0 where
    pub maps :
        (k : Klass)
        → (c.klass_cache k ≡ none) ⊎ (c.klass_cache k ≡ some (create_field_info_map (fields k)))
    pub members : (k : Klass) → c.unions k ≡ true → api.inherits_union k ≡ true
    pub complete :
        (k : Klass) (m : FieldInfoMap)
        → c.klass_cache k ≡ some m
        → c.unions k ≡ api.inherits_union k

  fresh_cache : Klass → Cache → Cache
  fresh_cache k c = record {
    klass_cache = λ j. if j == k then some (create_field_info_map (fields k)) else c.klass_cache j;
    unions = λ j. (j == k && api.inherits_union k) || c.unions j;
  }

  find_or_create-cases :
      (k : Klass) (c : Cache)
      → ((c.klass_cache k ≡ none)
          × (find_or_create api fields k c ≡ (create_field_info_map (fields k), fresh_cache k c)))
        ⊎ ((m : FieldInfoMap) × (c.klass_cache k ≡ some m)
            × (find_or_create api fields k c ≡ (m, c)))
  unfolding find_or_create fresh_cache
  find_or_create-cases k c = elim (Option-cases (c.klass_cache k)) [
    | inl e ↦ inl (e, rw (e, find_or_create))
    | inr (m, e) ↦ inr (m, e, rw (e, find_or_create))
  ]

  inherits-same :
      (j k : Klass) (b : Bool)
      → (j == k) ≡ true
      → api.inherits_union k ≡ b
      → api.inherits_union j ≡ b
  inherits-same j k b same h = ap api.inherits_union ((==_iff j k).0 same) ∙ h

  fresh_cache-IsCoherent :
      (k : Klass) (c : Cache) → IsCoherent c → c.klass_cache k ≡ none → IsCoherent (fresh_cache k c)
  unfolding fresh_cache
  fresh_cache-IsCoherent k c h e = record {
    maps = λ j. elim (Bool-cases (j == k)) [
      | inl same ↦ inr (rw (same, (==_iff j k).0 same))
      | inr differ ↦ rw differ (h.maps j)
    ];
    members = λ j u. elim (Bool-cases (j == k)) [
      | inl same ↦ elim (Bool-cases (api.inherits_union k)) [
        | inl union ↦ inherits-same j k true same union
        | inr plain ↦ h.members j (rw (same, plain) at u)
      ]
      | inr differ ↦ h.members j (rw differ at u)
    ];
    complete = λ j m f. elim (Bool-cases (j == k)) [
      | inl same ↦ elim (Bool-cases (api.inherits_union k)) [
        | inl union ↦ rw (same, union) (sym (inherits-same j k true same union))
        | inr plain ↦
            rw (same, plain)
              (elim (Bool-cases (c.unions j)) [
                | inl u ↦ u ∙ sym (h.members j u)
                | inr u ↦ u ∙ sym (inherits-same j k false same plain)
              ])
      ]
      | inr differ ↦ rw differ (h.complete j m (rw differ at f))
    ];
  }

  fresh_cache-has :
      (k : Klass) (c : Cache)
      → (fresh_cache k c).klass_cache k ≡ some (create_field_info_map (fields k))
  unfolding fresh_cache
  fresh_cache-has k c = rw (==_self k)

  -- From a coherent cache, FindOrCreateFieldInfoMap answers the field map of the class, keeps the
  -- cache coherent, and leaves the class in it: from then on `unions` says of the class whether it
  -- inherits from Union.
  pub find_or_create_lem :
      (k : Klass) (c : Cache)
      → IsCoherent c
      → let r = find_or_create api fields k c in
        (r.0 ≡ create_field_info_map (fields k))
        × IsCoherent r.1
        × (r.1.klass_cache k ≡ some (create_field_info_map (fields k)))
        × (r.1.unions k ≡ api.inherits_union k)
  find_or_create_lem k c h = elim (find_or_create-cases k c) [
    | inl (e, r) ↦
        let fresh = fresh_cache-IsCoherent k c h e in
        rw r (
          refl,
          fresh,
          fresh_cache-has k c,
          fresh.complete k (create_field_info_map (fields k)) (fresh_cache-has k c),
        )
    | inr (m, e, r) ↦ elim (h.maps k) [
      | inl missing ↦ cc (sym e ∙ missing)
      | inr there ↦ rw r (some_inj m _ (sym e ∙ there), h, there, h.complete k m e)
    ]
  ]

  -- A class that is in the cache is answered from there.
  pub find_or_create-cached :
      (k : Klass) (c : Cache) (m : FieldInfoMap)
      → c.klass_cache k ≡ some m
      → find_or_create api fields k c ≡ (m, c)
  unfolding find_or_create
  find_or_create-cached k c m e = rw (e, find_or_create)

  -- A coherent cache that has the union classes among `warm`.
  pub record IsReady (warm : Klass → Bool) (c : Cache) : Type 0 where
    pub coherent : IsCoherent c
    pub warmed : (k : Klass) → warm k ≡ true → c.unions k ≡ api.inherits_union k

  fresh_cache-unions :
      (j k : Klass) (c : Cache)
      → c.unions j ≡ api.inherits_union j
      → (fresh_cache k c).unions j ≡ api.inherits_union j
  unfolding fresh_cache
  fresh_cache-unions j k c h = elim (Bool-cases (j == k)) [
    | inl same ↦ elim (Bool-cases (api.inherits_union k)) [
      | inl union ↦ rw (same, union) (sym (inherits-same j k true same union))
      | inr plain ↦ rw (same, plain) h
    ]
    | inr differ ↦ rw differ h
  ]

  pub find_or_create-IsReady :
      (warm : Klass → Bool) (k : Klass) (c : Cache)
      → IsReady warm c
      → IsReady warm (find_or_create api fields k c).1
  find_or_create-IsReady warm k c h = record {
    coherent = (find_or_create_lem k c h.coherent).1;
    warmed = λ j w. elim (find_or_create-cases k c) [
      | inl (e, r) ↦ rw r (fresh_cache-unions j k c (h.warmed j w))
      | inr (m, e, r) ↦ rw r (h.warmed j w)
    ];
  }

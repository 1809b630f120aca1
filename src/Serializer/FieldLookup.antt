-- ===== src/Serializer/FieldLookup.antt =====
-- What the field map of a class answers for an id.
use sparsam.Base.{
  ℕ, ◌-◌, ◌%◌, ◌==◌, ltb, ◌&&◌, ◌≡◌, refl, sym, ap, subst, ◌∙◌, ℤ, pos, negsuc, eqb_ℤ, Bool, true,
  false, List, [], ◌∷◌, Option, none, some, if◌then◌else◌, find, insert, find-insert, int_key,
  arith,
}
use sparsam.Serializer.Fields.{
  FieldInfo, InfoRef, null, ref, ftype, sym_name, is_optional, is_binary_string, klass,
  element_type, key_type, Entry, EntryRef, entry, absent, present, FieldInfoMap, to_field_id,
  create_field_info, create_ref, fill_field_map, create_field_info_map, t_string, t_struct, t_list,
  t_set, t_map,
}

unfoldable mutual
  -- The info has what the entry says: its type, its name, whether it is optional, and what the
  -- type needs besides, with the entries inside it.
  pub Describes : Entry → FieldInfo → Type 0
  Describes (entry t opt name binary k e m v) x =
      (ftype x ≡ t)
      × (sym_name x ≡ name)
      × (is_optional x ≡ opt)
      × (t ≡ t_string → is_binary_string x ≡ binary)
      × (t ≡ t_struct → klass x ≡ k)
      × (t ≡ t_list → RefDescribes e (element_type x))
      × (t ≡ t_set → RefDescribes e (element_type x))
      × (t ≡ t_map → RefDescribes m (key_type x) × RefDescribes v (element_type x))

  pub RefDescribes : EntryRef → InfoRef → Type 0
  RefDescribes absent r = r ≡ null
  RefDescribes (present e) null = ⊥
  RefDescribes (present e) (ref x) = Describes e x

mutual
  unfolding Describes create_field_info

  create_field_info-Describes : (e : Entry) → Describes e (create_field_info e)
  create_field_info-Describes (entry t_string opt name binary k e m v) =
      (refl, refl, refl, λ h. refl, λ h. absurd cc, λ h. absurd cc, λ h. absurd cc, λ h. absurd cc)
  create_field_info-Describes (entry t_struct opt name binary k e m v) =
      (refl, refl, refl, λ h. absurd cc, λ h. refl, λ h. absurd cc, λ h. absurd cc, λ h. absurd cc)
  create_field_info-Describes (entry t_list opt name binary k e m v) = (
    refl,
    refl,
    refl,
    λ h. absurd cc,
    λ h. absurd cc,
    λ h. create_ref-Describes e,
    λ h. absurd cc,
    λ h. absurd cc,
  )
  create_field_info-Describes (entry t_set opt name binary k e m v) = (
    refl,
    refl,
    refl,
    λ h. absurd cc,
    λ h. absurd cc,
    λ h. absurd cc,
    λ h. create_ref-Describes e,
    λ h. absurd cc,
  )
  create_field_info-Describes (entry t_map opt name binary k e m v) = (
    refl,
    refl,
    refl,
    λ h. absurd cc,
    λ h. absurd cc,
    λ h. absurd cc,
    λ h. absurd cc,
    λ h. (create_ref-Describes m, create_ref-Describes v),
  )
  create_field_info-Describes (entry t opt name binary k e m v) = (
    refl,
    refl,
    refl,
    λ h. absurd cc,
    λ h. absurd cc,
    λ h. absurd cc,
    λ h. absurd cc,
    λ h. absurd cc,
  )

  create_ref-Describes : (e : EntryRef) → RefDescribes e (create_ref e)
  create_ref-Describes absent = refl
  create_ref-Describes (present e) = create_field_info-Describes e

-- The number modulo 2 ^ 16.
abbrev pub residue : ℤ → ℕ
residue (pos n) = n % 65536
residue (negsuc n) = 65535 - n % 65536

-- 16 bits with a sign hold it.
abbrev pub fits : ℤ → Bool
fits (pos n) = ltb n 32768
fits (negsuc n) = ltb n 32768

-- An id that the key comes out as.
abbrev pub stands_for : ℤ → ℤ → Bool
stands_for k i = fits i && residue k == residue i

to_field_id-eq : (k i : ℤ) → eqb_ℤ (to_field_id k) i ≡ stands_for k i
unfolding to_field_id
to_field_id-eq (pos n) (pos m) = ground arith
to_field_id-eq (pos n) (negsuc m) = ground arith
to_field_id-eq (negsuc n) (pos m) = ground arith
to_field_id-eq (negsuc n) (negsuc m) = ground arith

-- The last entry for an id, or the one there was.
abbrev pub last_entry : ℤ → Option Entry → List (ℤ × Entry) → Option Entry
last_entry i o [] = o
last_entry i o ((k, e) ∷ es) = last_entry i (if stands_for k i then some e else o) es

-- An info for the entry, or none for none.
abbrev pub Answers : Option Entry → Option FieldInfo → Type 0
Answers none x = x ≡ none
Answers (some e) none = ⊥
Answers (some e) (some x) = Describes e x

Answers-insert :
    (b : Bool) (e : Entry) (o : Option Entry) (x : Option FieldInfo)
    → Answers o x
    → Answers (if b then some e else o) (if b then some (create_field_info e) else x)
Answers-insert true e o x h = create_field_info-Describes e
Answers-insert false e o x h = h

fill-Answers :
    (i : ℤ) (o : Option Entry) (m : FieldInfoMap) (es : List (ℤ × Entry))
    → Answers o (find i m)
    → Answers (last_entry i o es) (find i (fill_field_map m es))
unfolding fill_field_map
fill-Answers i o m [] h = h
fill-Answers i o m ((k, e) ∷ es) h =
    fill-Answers i (if stands_for k i then some e else o)
      (insert (to_field_id k) (create_field_info e) m) es
      (subst (Answers (if stands_for k i then some e else o))
        (sym (
          find-insert (to_field_id k) i (create_field_info e) m
          ∙ ap (λ b. if b then some (create_field_info e) else find i m) (to_field_id-eq k i)))
        (Answers-insert (stands_for k i) e o (find i m) h))

-- The field map of a class has, for every id, an info for the last entry of FIELDS whose key comes
-- out as the id in 16 bits, and none if there is no such entry: the info has the type and the name
-- of the entry and whether it is optional, for a string whether it is binary, for a struct its
-- class, and infos for the entries inside it, at any depth.
pub find-create_field_info_map :
    (es : List (ℤ × Entry)) (i : ℤ)
    → Answers (last_entry i none es) (find i (create_field_info_map es))
unfolding create_field_info_map find
find-create_field_info_map es i = fill-Answers i none [] es refl

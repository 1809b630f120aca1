-- ===== src/Audit/Verdict/Members.antt =====
-- The merge of compare_single_struct over member lists sorted by id, against a description that
-- looks each field up in the other version.
use sparsam.Base.{
  Text, ◌≡◌, or_assoc, or-true, or-false, subst, Bool-cases, inl, inr, eqb_ℤ_iff, refl, sym, ap,
  ◌∙◌, ℤ, ◌<ℤ◌, eqb_ℤ, ltb_ℤ, Bool, true, false, not, ◌||◌, ◌&&◌, List, [], ◌∷◌, Option, none, some,
  if◌then◌else◌, any, All, All-map, any-congr, arith,
}
use sparsam.Parse.Types.{Field, Store, req_eq, t_required}
use sparsam.Parse.Members.Sorted.{IsSorted, has_id, above_trans, has_id-above}
use sparsam.Audit.Log.{Log, thrift_audit_failure, field_added_in_middle, field_removed}
use sparsam.Audit.Types.{compare_type}
use sparsam.Audit.Structs.{is_optional, bool_ne, compare_struct_field, compare_members}
use sparsam.Audit.Verdict.Flag.{
  flagged, flagged-failure, flagged-when_failure, flagged-when_warning, flagged-when-when_warning,
}

unfoldable pub find_id : ℤ → List Field → Option Field
find_id k [] = none
find_id k (f ∷ fs) = if eqb_ℤ f.key k then some f else find_id k fs

module _ (st : Store) where
  unfoldable pub field_breaks : Field → Field → Bool
  field_breaks new old =
      not (compare_type st new.type old.type) || bool_ne (is_optional new) (is_optional old)

  -- An old field breaks if its id is gone, or if the new field of that id differs.
  unfoldable pub old_breaks : Option Field → Field → Bool
  old_breaks none o = true
  old_breaks (some n) o = field_breaks n o

  -- A new field breaks if it is added, and is required or stands before some old field.
  unfoldable pub new_breaks : List Field → Field → Bool
  unfolding has_id
  new_breaks olds n =
      not (has_id n.key olds) && (req_eq n.req t_required || any (λ o. ltb_ℤ n.key o.key) olds)

  unfoldable pub members_break : List Field → List Field → Bool
  members_break news olds =
      any (λ o. old_breaks (find_id o.key news) o) olds || any (new_breaks olds) news

  pub flagged-compare_struct_field :
      (new old : Field) (name : Text) (s : Log)
      → flagged (compare_struct_field st new old name s) ≡ (flagged s || field_breaks new old)
  unfolding compare_struct_field field_breaks
  flagged-compare_struct_field new old name s =
      rw
        (
          flagged-when_warning, flagged-when-when_warning, flagged-when_failure,
          flagged-when_failure,
        )
        (or_assoc (flagged s) (not (compare_type st new.type old.type))
          (bool_ne (is_optional new) (is_optional old)))

  find_id-above : (k : ℤ) (fs : List Field) → All (λ g. k <ℤ g.key) fs → find_id k fs ≡ none
  unfolding find_id
  find_id-above k [] h = refl
  find_id-above k (f ∷ fs) h = let rest = find_id-above k fs h.1 in let lt = h.0 in ground arith

  -- A field that is added in front of an old one breaks.
  new_breaks-before :
      (n o : Field) (os : List Field)
      → n.key <ℤ o.key
      → All (λ g. o.key <ℤ g.key) os
      → new_breaks (o ∷ os) n ≡ true
  unfolding new_breaks
  new_breaks-before n o os h a =
      rw (has_id-above n.key os (above_trans n.key o.key os h a)) (ground arith)

  -- An old field in front of every new one is gone.
  old_breaks-before :
      (o : Field) (ns : List Field)
      → All (λ g. o.key <ℤ g.key) ns
      → old_breaks (find_id o.key ns) o ≡ true
  unfolding old_breaks
  old_breaks-before o ns a = rw (find_id-above o.key ns a)

  find_id-skip :
      (k : ℤ) (n : Field) (ns : List Field) → n.key <ℤ k → find_id k (n ∷ ns) ≡ find_id k ns
  unfolding find_id
  find_id-skip k n ns h = ground arith

  new_breaks-skip :
      (x o : Field) (os : List Field) → o.key <ℤ x.key → new_breaks (o ∷ os) x ≡ new_breaks os x
  unfolding new_breaks
  new_breaks-skip x o os h = ground arith

  has_id-same : (n o : Field) (os : List Field) → n.key ≡ o.key → has_id n.key (o ∷ os) ≡ true
  unfolding has_id
  has_id-same n o os e = ground arith

  find_id-same : (n o : Field) (ns : List Field) → n.key ≡ o.key → find_id o.key (n ∷ ns) ≡ some n
  unfolding find_id
  find_id-same n o ns e = ground arith

  new_breaks-same : (n o : Field) (os : List Field) → n.key ≡ o.key → new_breaks (o ∷ os) n ≡ false
  unfolding new_breaks
  new_breaks-same n o os e = ground arith

  -- Two fields of one id, in front of the rest of their versions.
  members_break-same :
      (n o : Field) (ns os : List Field)
      → n.key ≡ o.key
      → All (λ g. n.key <ℤ g.key) ns
      → All (λ g. o.key <ℤ g.key) os
      → members_break (n ∷ ns) (o ∷ os) ≡ (field_breaks n o || members_break ns os)
  unfolding members_break old_breaks
  members_break-same n o ns os e a b =
      rw
        (
          find_id-same n o ns e,
          new_breaks-same n o os e,
          any-congr (λ x. old_breaks (find_id x.key (n ∷ ns)) x)
              (λ x. old_breaks (find_id x.key ns) x) os
              (All-map
                (λ x h.
                  ap (λ f. old_breaks f x)
                    (find_id-skip x.key n ns (subst (λ k. k <ℤ x.key) (sym e) h)))
                os b),
          any-congr (new_breaks (o ∷ os)) (new_breaks os) ns
              (All-map (λ x h. new_breaks-skip x o os (subst (λ k. k <ℤ x.key) e h)) ns a),
        )
        (or_assoc (field_breaks n o) (any (λ x. old_breaks (find_id x.key ns) x) os)
          (any (new_breaks os) ns))

  members_break-new_first :
      (n o : Field) (ns os : List Field)
      → n.key <ℤ o.key
      → All (λ g. o.key <ℤ g.key) os
      → members_break (n ∷ ns) (o ∷ os) ≡ true
  unfolding members_break
  members_break-new_first n o ns os h b = rw (new_breaks-before n o os h b) (or-true _)

  members_break-old_first :
      (o : Field) (ns os : List Field)
      → All (λ g. o.key <ℤ g.key) ns
      → members_break ns (o ∷ os) ≡ true
  unfolding members_break
  members_break-old_first o ns os a = rw (old_breaks-before o ns a)

  members_break-nil :
      (n : Field) (ns : List Field)
      → members_break (n ∷ ns) [] ≡ (req_eq n.req t_required || members_break ns [])
  unfolding members_break new_breaks has_id
  members_break-nil n ns = ground arith

  -- The three ways that a round of the loop goes while both lists last.
  compare_members-same :
      (n o : Field) (ns os : List Field) (name : Text) (s : Log)
      → eqb_ℤ n.key o.key ≡ true
      → compare_members st (n ∷ ns) (o ∷ os) name s
        ≡ compare_members st ns os name (compare_struct_field st n o name s)
  unfolding compare_members
  compare_members-same n o ns os name s e = rw (e, compare_members)

  compare_members-new_first :
      (n o : Field) (ns os : List Field) (name : Text) (s : Log)
      → eqb_ℤ n.key o.key ≡ false
      → ltb_ℤ n.key o.key ≡ true
      → compare_members st (n ∷ ns) (o ∷ os) name s
        ≡ compare_members st ns
            (o ∷ os)
            name
            (thrift_audit_failure (field_added_in_middle n.key name) s)
  unfolding compare_members
  compare_members-new_first n o ns os name s e h = rw (e, h, compare_members)

  compare_members-old_first :
      (n o : Field) (ns os : List Field) (name : Text) (s : Log)
      → eqb_ℤ n.key o.key ≡ false
      → ltb_ℤ n.key o.key ≡ false
      → compare_members st (n ∷ ns) (o ∷ os) name s
        ≡ compare_members st (n ∷ ns) os name (thrift_audit_failure (field_removed o.key name) s)
  unfolding compare_members
  compare_members-old_first n o ns os name s e h = rw (e, h, compare_members)

  ltb_ℤ→lt : (j k : ℤ) → ltb_ℤ j k ≡ true → j <ℤ k
  ltb_ℤ→lt j k h = ground arith

  tests→gt : (j k : ℤ) → eqb_ℤ j k ≡ false → ltb_ℤ j k ≡ false → k <ℤ j
  tests→gt j k e h = ground arith

  members_break-nil_nil : members_break [] [] ≡ false
  unfolding members_break
  members_break-nil_nil = refl

  -- The merge of two member lists that are sorted by id raises the failure flag, where it was not
  -- up before, exactly when a field breaks: an old id that is gone, a changed type or requiredness,
  -- a new field that is required or stands before an old one.
  pub flagged-compare_members :
      (ns os : List Field) (name : Text) (s : Log)
      → IsSorted ns
      → IsSorted os
      → flagged (compare_members st ns os name s) ≡ (flagged s || members_break ns os)
  unfolding compare_members
  flagged-compare_members [] [] name s a b = rw members_break-nil_nil (sym (or-false (flagged s)))
  flagged-compare_members [] (o ∷ os) name s a b =
      flagged-compare_members [] os name _ tt b.1
      ∙ rw (flagged-failure, members_break-old_first o [] os tt) (sym (or-true (flagged s)))
  flagged-compare_members (n ∷ ns) [] name s a b =
      flagged-compare_members ns [] name _ a.1 tt
      ∙ rw (flagged-when_failure, members_break-nil n ns)
          (or_assoc (flagged s) (req_eq n.req t_required) (members_break ns []))
  flagged-compare_members (n ∷ ns) (o ∷ os) name s a b = elim (Bool-cases (eqb_ℤ n.key o.key)) [
    | inl same ↦ rw (compare_members-same n o ns os name s same) (
        flagged-compare_members ns os name _ a.1 b.1
        ∙ rw
            (
              flagged-compare_struct_field,
              members_break-same n o ns os ((eqb_ℤ_iff n.key o.key).0 same) a.0 b.0,
            )
            (or_assoc (flagged s) (field_breaks n o) (members_break ns os)))
    | inr differ ↦ elim (Bool-cases (ltb_ℤ n.key o.key)) [
      | inl less ↦ rw (compare_members-new_first n o ns os name s differ less) (
          flagged-compare_members ns (o ∷ os) name _ a.1 b
          ∙ rw (flagged-failure, members_break-new_first n o ns os (ltb_ℤ→lt n.key o.key less) b.0)
              (sym (or-true (flagged s))))
      | inr more ↦
          let above = tests→gt n.key o.key differ more in
          rw (compare_members-old_first n o ns os name s differ more) (
            flagged-compare_members (n ∷ ns) os name _ a b.1
            ∙ rw
                (
                  flagged-failure,
                  members_break-old_first o (n ∷ ns) os
                      (above, above_trans o.key n.key ns above a.0),
                )
                (sym (or-true (flagged s))))
    ]
  ]

-- ===== src/Compiler/Once.antt =====
-- What generate keeps: a file that is generated is not generated again, and every included file is.
use sparsam.Base.{
  Text, text_eq, text_eq_iff, text_eq_self, ◌≡◌, refl, sym, ap, ◌∙◌, Bool, true, false, List, [],
  ◌∷◌, ◌++◌, append-nil, All, All-map, Bool-cases, inl, inr, if◌then◌else◌, arith,
}
use sparsam.Compiler.Generate.{
  Source, Includes, source, no_includes, include, path_of, Run, Generated, is_generated,
  run_generators, generate_one, child_out_path, generate_after, generate, generate_includes,
}

-- The runs for one path.
unfoldable pub runs_at : Text → List Run → List Run
runs_at q [] = []
runs_at q (r ∷ rs) = let rest = runs_at q rs in if text_eq r.path q then r ∷ rest else rest

-- The paths of the programs that a program includes itself.
unfoldable pub included : Includes → List Text
included no_includes = []
included (include p ps) = path_of p ∷ included ps

pub runs_at-append :
    (q : Text) (rs ts : List Run) → runs_at q (rs ++ ts) ≡ runs_at q rs ++ runs_at q ts
unfolding runs_at
runs_at-append q [] ts = refl
runs_at-append q (r ∷ rs) ts = ground (arith, runs_at-append q rs ts)

is_generated-append :
    (q : Text) (fs gs : List Text) → is_generated q fs ≡ true → is_generated q (fs ++ gs) ≡ true
unfolding is_generated
is_generated-append q [] gs h = cc
is_generated-append q (f ∷ fs) gs h = ground (arith, is_generated-append q fs gs)

is_generated-last : (q : Text) (fs : List Text) → is_generated q (fs ++ q ∷ []) ≡ true
unfolding is_generated
is_generated-last q [] = rw (text_eq_self q) refl
is_generated-last q (f ∷ fs) = ground (arith, is_generated-last q fs)

other_path :
    (q path : Text) (fs : List Text)
    → is_generated q fs ≡ true
    → is_generated path fs ≡ false
    → text_eq path q ≡ false
other_path q path fs h k = elim (Bool-cases (text_eq path q)) [
  | inl same ↦ cc (sym k ∙ ap (λ x. is_generated x fs) ((text_eq_iff path q).0 same) ∙ h)
  | inr differ ↦ differ
]

module _ (known : Text → Bool) (throws : Run → Bool) (gen_recurse : Bool) where
  pub runs_at-run_generators :
      (q path out_path : Text) (gs : List Text)
      → text_eq path q ≡ false
      → runs_at q (run_generators known throws gen_recurse gs path out_path) ≡ []
  unfolding run_generators runs_at
  runs_at-run_generators q path out_path [] h = refl
  runs_at-run_generators q path out_path (g ∷ gs) h =
      let rest = runs_at-run_generators q path out_path gs h in
      let run : Run = record { generator = g; path = path; out_path = out_path } in
      elim (Bool-cases (known g)) [
        | inl listed ↦ elim (Bool-cases (throws run)) [
          | inl bad ↦ rw (listed, bad, h) refl
          | inr good ↦ rw (listed, good, h) rest
        ]
        | inr missing ↦ rw missing rest
      ]

  module _ (gs : List Text) where
    -- A path that is generated stays so, and its runs stay.
    abbrev pub Keeps : Text → Generated → Generated → Type 0
    Keeps q s t = (is_generated q t.generated_files ≡ true) × (runs_at q t.runs ≡ runs_at q s.runs)

    generate_one-Keeps :
        (q path out_path : Text) (s : Generated)
        → is_generated q s.generated_files ≡ true
        → text_eq path q ≡ false
        → Keeps q s (generate_one known throws gen_recurse gs path out_path s)
    unfolding generate_one
    generate_one-Keeps q path out_path s h differ =
        let same =
          runs_at-append q s.runs (run_generators known throws gen_recurse gs path out_path)
          ∙ (ap (λ rs. runs_at q s.runs ++ rs) (runs_at-run_generators q path out_path gs differ)
              ∙ append-nil (runs_at q s.runs)) in
        elim (Bool-cases (is_generated path s.generated_files)) [
          | inl there ↦ rw there (h, same)
          | inr new ↦ rw new (is_generated-append q s.generated_files (path ∷ []) h, same)
        ]

    pub generate_one-covers :
        (path out_path : Text) (s : Generated)
        → is_generated path
            (generate_one known throws gen_recurse gs path out_path s).generated_files
          ≡ true
    unfolding generate_one
    generate_one-covers path out_path s = elim (Bool-cases (is_generated path s.generated_files)) [
      | inl there ↦ rw (there, there) refl
      | inr new ↦ rw new (is_generated-last path s.generated_files)
    ]

    generate_after-Keeps :
        (q path out_path : Text) (inner s : Generated)
        → is_generated q s.generated_files ≡ true
        → Keeps q s inner
        → Keeps q s (generate_after known throws gen_recurse gs path out_path inner s)
    unfolding generate_after
    generate_after-Keeps q path out_path inner s h k =
        elim (Bool-cases (is_generated path s.generated_files)) [
          | inl there ↦ rw there (h, refl)
          | inr new ↦
              let differ = other_path q path s.generated_files h new in
              elim (Bool-cases gen_recurse) [
                | inl recurse ↦
                    rw (new, recurse)
                      (let one = generate_one-Keeps q path out_path inner k.0 differ in
                        (one.0, one.1 ∙ k.1))
                | inr flat ↦ rw (new, flat) (generate_one-Keeps q path out_path s h differ)
              ]
        ]

    mutual
      unfolding generate

      source-Keeps :
          (p : Source) (q out_path : Text) (s : Generated)
          → is_generated q s.generated_files ≡ true
          → Keeps q s (generate known throws gen_recurse gs p out_path s)
      source-Keeps (source path ps) q out_path s h =
          generate_after-Keeps q path out_path
            (generate_includes known throws gen_recurse gs ps
              (child_out_path known throws gen_recurse gs out_path) s)
            s h (includes-Keeps ps q (child_out_path known throws gen_recurse gs out_path) s h)

      includes-Keeps :
          (ps : Includes) (q out_path : Text) (s : Generated)
          → is_generated q s.generated_files ≡ true
          → Keeps q s (generate_includes known throws gen_recurse gs ps out_path s)
      includes-Keeps no_includes q out_path s h = (h, refl)
      includes-Keeps (include p ps) q out_path s h =
          let one = source-Keeps p q out_path s h in
          let more =
            includes-Keeps ps q out_path (generate known throws gen_recurse gs p out_path s)
              one.0 in
          (more.0, more.1 ∙ one.1)

    -- What is generated before a call of generate is generated after it and is not run again: the
    -- runs for its path are the runs there were.
    pub generate-Keeps :
        (p : Source) (q out_path : Text) (s : Generated)
        → is_generated q s.generated_files ≡ true
        → Keeps q s (generate known throws gen_recurse gs p out_path s)
    generate-Keeps p q out_path s h = source-Keeps p q out_path s h

    generate_after-covers :
        (path out_path : Text) (inner s : Generated)
        → is_generated path
            (generate_after known throws gen_recurse gs path out_path inner s).generated_files
          ≡ true
    unfolding generate_after
    generate_after-covers path out_path inner s =
        elim (Bool-cases (is_generated path s.generated_files)) [
          | inl there ↦ rw (there, there) refl
          | inr new ↦ rw new (generate_one-covers path out_path (if gen_recurse then inner else s))
        ]

    generate_self :
        (p : Source) (out_path : Text) (s : Generated)
        → is_generated
            (path_of p)
            (generate known throws gen_recurse gs p out_path s).generated_files
          ≡ true
    unfolding generate
    generate_self (source path ps) out_path s = generate_after-covers path out_path _ s

    generate_includes-covers :
        (ps : Includes) (out_path : Text) (s : Generated)
        → All
            (λ q.
              is_generated q
                (generate_includes known throws gen_recurse gs ps out_path s).generated_files
              ≡ true)
            (included ps)
    unfolding generate included
    generate_includes-covers no_includes out_path s = tt
    generate_includes-covers (include p ps) out_path s =
        let after : Generated = generate known throws gen_recurse gs p out_path s in
        (
          (includes-Keeps ps (path_of p) out_path after (generate_self p out_path s)).0,
          generate_includes-covers ps out_path after,
        )

    generate_one-files :
        (q path out_path : Text) (s : Generated)
        → is_generated q s.generated_files ≡ true
        → is_generated q (generate_one known throws gen_recurse gs path out_path s).generated_files
          ≡ true
    unfolding generate_one
    generate_one-files q path out_path s h =
        elim (Bool-cases (is_generated path s.generated_files)) [
          | inl there ↦ rw there h
          | inr new ↦ rw new (is_generated-append q s.generated_files (path ∷ []) h)
        ]

    generate_after-new :
        (path out_path : Text) (inner s : Generated)
        → gen_recurse ≡ true
        → is_generated path s.generated_files ≡ false
        → generate_after known throws gen_recurse gs path out_path inner s
          ≡ generate_one known throws gen_recurse gs path out_path inner
    unfolding generate_after
    generate_after-new path out_path inner s recurse new = rw (new, recurse) refl

    pub generate-covers :
        (path : Text) (ps : Includes) (out_path : Text) (s : Generated)
        → gen_recurse ≡ true
        → is_generated path s.generated_files ≡ false
        → All
            (λ q.
              is_generated q
                (generate known throws gen_recurse gs (source path ps) out_path s).generated_files
              ≡ true)
            (path ∷ included ps)
    unfolding generate
    generate-covers path ps out_path s recurse new =
        let child : Text = child_out_path known throws gen_recurse gs out_path in
        let inner : Generated = generate_includes known throws gen_recurse gs ps child s in
        (
          generate_self (source path ps) out_path s,
          All-map
              (λ q h.
                ap (λ t. is_generated q t.generated_files)
                  (generate_after-new path out_path inner s recurse new)
                ∙ generate_one-files q path out_path inner h)
              (included ps) (generate_includes-covers ps child s),
        )

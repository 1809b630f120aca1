-- ===== src/Compiler/Runs.antt =====
-- The runs of the generators: one after the other for every program, and once.
use sparsam.Base.{
  Text, text_eq, text_eq_iff, text_eq_self, ◌≡◌, refl, ap, ◌∙◌, subst, Bool, true, false, List, [],
  ◌∷◌, ◌++◌, append-nil, map, Bool-cases, ◌⊎◌, inl, inr, if◌then◌else◌,
}
use sparsam.Compiler.Generate.{Run, Generated, is_generated, run_generators, generate_one}
use sparsam.Compiler.Once.{runs_at, runs_at-append, runs_at-run_generators, generate_one-covers}

abbrev keep : (Text → Bool) → List Text → List Text
keep P [] = []
keep P (g ∷ gs) = if P g then g ∷ keep P gs else keep P gs

-- The runs up to the first that throws, and that one.
abbrev up_to : (Run → Bool) → List Run → List Run
up_to P [] = []
up_to P (r ∷ rs) = if P r then r ∷ [] else r ∷ up_to P rs

is_generated-last_other :
    (q path : Text) (fs : List Text)
    → text_eq path q ≡ false
    → is_generated q (fs ++ path ∷ []) ≡ is_generated q fs
unfolding is_generated
is_generated-last_other q path [] h = rw h refl
is_generated-last_other q path (f ∷ fs) h = rw (is_generated-last_other q path fs h) refl

module _ (known : Text → Bool) (throws : Run → Bool) (gen_recurse : Bool) (gs : List Text) where
  -- The run of each generator that is known, up to the first that throws.
  abbrev pub wanted : Text → Text → List Run
  wanted path out_path =
      up_to throws
        (map (λ g. record { generator = g; path = path; out_path = out_path }) (keep known gs))

  -- A path is new and has no runs, or is generated and has the runs that are wanted.
  abbrev pub RunOf : Text → Generated → Type 0
  RunOf q s =
      ((is_generated q s.generated_files ≡ false) × (runs_at q s.runs ≡ []))
      ⊎ ((is_generated q s.generated_files ≡ true) × ((o : Text) × (runs_at q s.runs ≡ wanted q o)))

  abbrev pub IsRun : Generated → Type 0
  IsRun s = (q : Text) → RunOf q s

  run_generators-wanted :
      (hs : List Text) (path out_path : Text)
      → runs_at path (run_generators known throws gen_recurse hs path out_path)
        ≡ up_to throws
            (map (λ g. record { generator = g; path = path; out_path = out_path }) (keep known hs))
  unfolding run_generators runs_at
  run_generators-wanted [] path out_path = refl
  run_generators-wanted (g ∷ hs) path out_path =
      let rest = run_generators-wanted hs path out_path in
      let run : Run = record { generator = g; path = path; out_path = out_path } in
      elim (Bool-cases (known g)) [
        | inl listed ↦ elim (Bool-cases (throws run)) [
          | inl bad ↦ rw (listed, bad, text_eq_self path) refl
          | inr good ↦ rw (listed, good, text_eq_self path, rest) refl
        ]
        | inr missing ↦ rw missing rest
      ]

  -- The runs of a path that had none.
  generate_one-runs :
      (path out_path : Text) (s : Generated)
      → runs_at path s.runs ≡ []
      → runs_at path (generate_one known throws gen_recurse gs path out_path s).runs
        ≡ wanted path out_path
  unfolding generate_one
  generate_one-runs path out_path s none_ =
      runs_at-append path s.runs (run_generators known throws gen_recurse gs path out_path)
      ∙ ap (λ rs. rs ++ runs_at path (run_generators known throws gen_recurse gs path out_path))
          none_
      ∙ run_generators-wanted gs path out_path

  -- What a run for another path leaves.
  pub generate_one-other :
      (q path out_path : Text) (s : Generated)
      → text_eq path q ≡ false
      → (is_generated q (generate_one known throws gen_recurse gs path out_path s).generated_files
          ≡ is_generated q s.generated_files)
        × (runs_at q (generate_one known throws gen_recurse gs path out_path s).runs
            ≡ runs_at q s.runs)
  unfolding generate_one
  generate_one-other q path out_path s differ =
      let same =
        runs_at-append q s.runs (run_generators known throws gen_recurse gs path out_path)
        ∙ (ap (λ rs. runs_at q s.runs ++ rs)
              (runs_at-run_generators known throws gen_recurse q path out_path gs differ)
            ∙ append-nil (runs_at q s.runs)) in
      elim (Bool-cases (is_generated path s.generated_files)) [
        | inl there ↦ rw there (refl, same)
        | inr new ↦ rw new (is_generated-last_other q path s.generated_files differ, same)
      ]

  RunOf-same :
      (q : Text) (s t : Generated)
      → is_generated q t.generated_files ≡ is_generated q s.generated_files
      → runs_at q t.runs ≡ runs_at q s.runs
      → RunOf q s
      → RunOf q t
  RunOf-same q s t files runs (inl (new, none_)) = inl (files ∙ new, runs ∙ none_)
  RunOf-same q s t files runs (inr (there, (o, made))) = inr (files ∙ there, (o, runs ∙ made))

  no_runs :
      (path : Text) (s : Generated)
      → is_generated path s.generated_files ≡ false
      → RunOf path s
      → runs_at path s.runs ≡ []
  no_runs path s new (inl (h, none_)) = none_
  no_runs path s new (inr (there, made)) = absurd cc

  pub generate_one-IsRun :
      (path out_path : Text) (s : Generated)
      → is_generated path s.generated_files ≡ false
      → IsRun s
      → IsRun (generate_one known throws gen_recurse gs path out_path s)
  generate_one-IsRun path out_path s new h q = elim (Bool-cases (text_eq path q)) [
    | inl same ↦
        subst (λ x. RunOf x (generate_one known throws gen_recurse gs path out_path s))
          ((text_eq_iff path q).0 same)
          (inr (
            generate_one-covers known throws gen_recurse gs path out_path s,
            (out_path, generate_one-runs path out_path s (no_runs path s new (h path))),
          ))
    | inr differ ↦
        let (files, runs) = generate_one-other q path out_path s differ in
        RunOf-same q s (generate_one known throws gen_recurse gs path out_path s) files runs (h q)
  ]

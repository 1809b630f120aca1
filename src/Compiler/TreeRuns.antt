-- ===== src/Compiler/TreeRuns.antt =====
-- The runs of a program with all that it includes.
use sparsam.Base.{
  Text, text_eq, ◌≡◌, ◌∙◌, Bool, true, false, ◌||◌, List, ◌∷◌, All, All-map, Bool-cases, inl, inr,
  arith,
}
use sparsam.Compiler.Generate.{
  Source, Includes, source, no_includes, include, Run, Generated, is_generated, child_out_path,
  generate_after, generate, generate_includes,
}
use sparsam.Compiler.Runs.{wanted, RunOf, IsRun, generate_one-other, generate_one-IsRun}
use sparsam.Compiler.Once.{runs_at, included, generate-covers}

unfoldable mutual
  -- A path in the tree of a program and of what it includes.
  pub occurs : Text → Source → Bool
  occurs q (source path ps) = text_eq path q || occurs_in q ps

  pub occurs_in : Text → Includes → Bool
  occurs_in q no_includes = false
  occurs_in q (include p ps) = occurs q p || occurs_in q ps

unfoldable mutual
  -- No program includes itself, directly or through others.
  pub IsAcyclic : Source → Type 0
  IsAcyclic (source path ps) = (occurs_in path ps ≡ false) × AreAcyclic ps

  pub AreAcyclic : Includes → Type 0
  AreAcyclic no_includes = Unit {0}
  AreAcyclic (include p ps) = IsAcyclic p × AreAcyclic ps

or-false : (a b : Bool) → (a || b) ≡ false → (a ≡ false) × (b ≡ false)
or-false a b h = ground (arith, h)

module _ (known : Text → Bool) (throws : Run → Bool) (gen_recurse : Bool) (gs : List Text) where
  generate_after-files :
      (q path out_path : Text) (inner s : Generated)
      → text_eq path q ≡ false
      → is_generated q s.generated_files ≡ false
      → is_generated q inner.generated_files ≡ false
      → is_generated q
          (generate_after known throws gen_recurse gs path out_path inner s).generated_files
        ≡ false
  unfolding generate_after
  generate_after-files q path out_path inner s differ h k =
      elim (Bool-cases (is_generated path s.generated_files)) [
        | inl there ↦ rw there h
        | inr new ↦ elim (Bool-cases gen_recurse) [
          | inl recurse ↦
              rw (new, recurse)
                ((generate_one-other known throws gen_recurse gs q path out_path inner differ).0
                  ∙ k)
          | inr flat ↦
              rw (new, flat)
                ((generate_one-other known throws gen_recurse gs q path out_path s differ).0 ∙ h)
        ]
      ]

  mutual
    unfolding generate occurs

    -- Only the paths of its tree are generated by a program.
    source-files :
        (p : Source) (q out_path : Text) (s : Generated)
        → occurs q p ≡ false
        → is_generated q s.generated_files ≡ false
        → is_generated q (generate known throws gen_recurse gs p out_path s).generated_files ≡ false
    source-files (source path ps) q out_path s away h =
        let (differ, apart) = or-false (text_eq path q) (occurs_in q ps) away in
        let child : Text = child_out_path known throws gen_recurse gs out_path in
        generate_after-files q path out_path
          (generate_includes known throws gen_recurse gs ps child s) s differ h
          (includes-files ps q child s apart h)

    includes-files :
        (ps : Includes) (q out_path : Text) (s : Generated)
        → occurs_in q ps ≡ false
        → is_generated q s.generated_files ≡ false
        → is_generated q
            (generate_includes known throws gen_recurse gs ps out_path s).generated_files
          ≡ false
    includes-files no_includes q out_path s away h = h
    includes-files (include p ps) q out_path s away h =
        let (differ, apart) = or-false (occurs q p) (occurs_in q ps) away in
        includes-files ps q out_path (generate known throws gen_recurse gs p out_path s) apart
          (source-files p q out_path s differ h)

  generate_after-IsRun :
      (path out_path : Text) (inner s : Generated)
      → IsRun known throws gen_recurse gs s
      → IsRun known throws gen_recurse gs inner
      → (is_generated path s.generated_files ≡ false
          → is_generated path inner.generated_files ≡ false)
      → IsRun known throws gen_recurse gs
          (generate_after known throws gen_recurse gs path out_path inner s)
  unfolding generate_after
  generate_after-IsRun path out_path inner s h k still =
      elim (Bool-cases (is_generated path s.generated_files)) [
        | inl there ↦ rw there h
        | inr new ↦ elim (Bool-cases gen_recurse) [
          | inl recurse ↦
              rw (new, recurse)
                (generate_one-IsRun known throws gen_recurse gs path out_path inner (still new) k)
          | inr flat ↦
              rw (new, flat) (generate_one-IsRun known throws gen_recurse gs path out_path s new h)
        ]
      ]

  mutual
    unfolding generate IsAcyclic

    source-IsRun :
        (p : Source) (out_path : Text) (s : Generated)
        → IsAcyclic p
        → IsRun known throws gen_recurse gs s
        → IsRun known throws gen_recurse gs (generate known throws gen_recurse gs p out_path s)
    source-IsRun (source path ps) out_path s (away, apart) h =
        let child : Text = child_out_path known throws gen_recurse gs out_path in
        generate_after-IsRun path out_path
          (generate_includes known throws gen_recurse gs ps child s) s h
          (includes-IsRun ps child s apart h) (includes-files ps path child s away)

    includes-IsRun :
        (ps : Includes) (out_path : Text) (s : Generated)
        → AreAcyclic ps
        → IsRun known throws gen_recurse gs s
        → IsRun known throws gen_recurse gs
            (generate_includes known throws gen_recurse gs ps out_path s)
    includes-IsRun no_includes out_path s apart h = h
    includes-IsRun (include p ps) out_path s (one, rest) h =
        includes-IsRun ps out_path (generate known throws gen_recurse gs p out_path s) rest
          (source-IsRun p out_path s one h)

  generated-runs :
      (q : Text) (s : Generated)
      → RunOf known throws gen_recurse gs q s
      → is_generated q s.generated_files ≡ true
      → (o : Text) × (runs_at q s.runs ≡ wanted known throws gen_recurse gs q o)
  generated-runs q s (inl (new, none_)) h = absurd cc
  generated-runs q s (inr (there, made)) h = made

  -- A recursive call of generate, on a program that was not generated before and whose tree has no
  -- program that includes itself, where every path is new without a run, or is generated with the
  -- runs that are wanted: this is so of every path after it, and the program and each one that it
  -- includes itself have these runs then. Wanted for a path are the runs of the known generators
  -- in the order of their list, each of them once, up to the first that throws, all with the same
  -- output path.
  pub generate-runs :
      (path : Text) (ps : Includes) (out_path : Text) (s : Generated)
      → gen_recurse ≡ true
      → IsAcyclic (source path ps)
      → IsRun known throws gen_recurse gs s
      → is_generated path s.generated_files ≡ false
      → IsRun known throws gen_recurse gs
          (generate known throws gen_recurse gs (source path ps) out_path s)
        × All
            (λ q.
              (o : Text) × (runs_at q
                  (generate known throws gen_recurse gs (source path ps) out_path s).runs
                ≡ wanted known throws gen_recurse gs q o))
            (path ∷ included ps)
  generate-runs path ps out_path s recurse apart h new =
      let t : Generated = generate known throws gen_recurse gs (source path ps) out_path s in
      let kept = source-IsRun (source path ps) out_path s apart h in
      (
        kept,
        All-map (λ q there. generated-runs q t (kept q) there) (path ∷ included ps)
            (generate-covers known throws gen_recurse gs path ps out_path s recurse new),
      )

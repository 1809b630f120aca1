-- ===== src/Compiler/Including.antt =====
-- The order in which include_file searches.
use sparsam.Base.{
  ℕ, ◌==◌, Text, ◌≡◌, refl, ap, Bool, false, List, [], ◌∷◌, ◌++◌, All, Option, none, some,
  Option-cases, inl, inr, ◌⊎◌,
}
use sparsam.Compiler.Names.{try_file, search, include_file}

module _ (real : Text → Option Text) (exists : Text → Bool) where
  -- What a search over directories in their order comes to.
  abbrev pub FirstOf : List Text → Text → Text → Type 0
  FirstOf dirs filename found =
      (All (λ d. try_file real exists (d ++ b'/' ∷ filename) ≡ none) dirs × (found ≡ []))
      ⊎ ((before : List Text) × (dir : Text) × (after : List Text) × (dirs ≡ before ++ dir ∷ after)
          × All (λ d. try_file real exists (d ++ b'/' ∷ filename) ≡ none) before
          × (try_file real exists (dir ++ b'/' ∷ filename) ≡ some found))

  search_lem :
      (dirs : List Text) (filename : Text)
      → FirstOf dirs filename (search real exists dirs filename)
  unfolding search
  search_lem [] filename = inl (tt, refl)
  search_lem (d ∷ ds) filename = elim (Option-cases (try_file real exists (d ++ b'/' ∷ filename))) [
    | inr (rp, found) ↦ inr ([], d, ds, refl, tt, rw (found, search) refl)
    | inl missing ↦ elim (search_lem ds filename) [
      | inl (none_there, nothing) ↦ inl ((missing, none_there), rw (missing, search) nothing)
      | inr (before, dir, after, split, none_before, found) ↦ inr (
        d ∷ before,
        dir,
        after,
        ap (λ es. d ∷ es) split,
        (missing, none_before),
        rw (missing, search) found,
      )
    ]
  ]

  -- include_file of a relative name answers the file in the first directory that has it, of the
  -- current directory and the search path in this order, and an empty text where none has it.
  include_file_lem :
      (g_curdir : Text) (g_incl_searchpath : List Text) (a : ℕ) (s : Text)
      → (a == b'/') ≡ false
      → FirstOf
          (g_curdir ∷ g_incl_searchpath)
          (a ∷ s)
          (include_file real exists g_curdir g_incl_searchpath (a ∷ s))
  unfolding include_file
  include_file_lem g_curdir g_incl_searchpath a s relative =
      rw relative (search_lem (g_curdir ∷ g_incl_searchpath) (a ∷ s))

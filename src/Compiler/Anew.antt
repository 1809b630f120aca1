-- ===== src/Compiler/Anew.antt =====
-- The parse that keeps nothing: parse without program_to_scope.
use sparsam.Base.{
  ℕ, zero, suc, ◌<◌, ◌≡◌, refl, ap, Text, Bool, true, false, List, [], ◌∷◌, All, All-map, text_key,
  arith,
}
use sparsam.Compiler.ParseFiles.{
  Scope, empty_scope, Parsing, out_of_fuel, parsed, ◌>>=◌, declare_all, Parsed, Parser, passed,
  Pass, refused, crashes, done, parent_prefix, scan_includes, parse_types,
}
use sparsam.Compiler.Ends.{>>=-eq}

-- Every file is ranked above those that it includes: no file includes itself, directly or not.
abbrev pub IsRanked : Parser → (Text → ℕ) → Type 0
IsRanked files rank =
    (path : Text) (paths : List Text)
    → files.includes_pass path ≡ done paths
    → All (λ p. rank p < rank path) paths

module _ (files : Parser) where
  -- The scope that the included programs make, each parsed with `parse_one`.
  unfoldable pub included_scope : (Text → Parsing Parsed) → List Text → Scope → Parsing Scope
  included_scope parse_one [] s = parsed s
  included_scope parse_one (path ∷ paths) s = parse_one path >>= λ p.
      declare_all (parent_prefix path) p.declarations s >>= λ t. included_scope parse_one paths t

  unfoldable pub gathered : (Text → Parsing Parsed) → Text → Parsing Scope
  unfolding included_scope
  gathered parse_one path =
      scan_includes files path >>= λ paths. included_scope parse_one paths empty_scope

  -- The parse that reads every file anew wherever it is included.
  unfoldable pub parse_anew : ℕ → Text → Parsing Parsed
  unfolding gathered
  parse_anew zero path = out_of_fuel
  parse_anew (suc f) path = gathered (parse_anew f) path >>= parse_types files path

  module _ (rank : Text → ℕ) where
    -- The same with enough fuel.
    abbrev pub meaning : Text → Parsing Parsed
    meaning path = parse_anew (suc (rank path)) path

  included-eq :
      (k l : Text → Parsing Parsed) (paths : List Text) (s : Scope)
      → All (λ p. k p ≡ l p) paths
      → included_scope k paths s ≡ included_scope l paths s
  unfolding included_scope
  included-eq k l [] s h = refl
  included-eq k l (path ∷ paths) s h = rw h.0 (
      >>=-eq (l path) _ _ (λ p.
        >>=-eq (declare_all (parent_prefix path) p.declarations s) _ _
          (λ t. included-eq k l paths t h.1)))

  passed-eq :
      {A B : Type 0} (opened : Bool) (p : Pass A) (k l : A → Parsing B)
      → ((a : A) → p ≡ done a → k a ≡ l a)
      → (passed opened p >>= k) ≡ (passed opened p >>= l)
  unfolding passed
  passed-eq false p k l h = refl
  passed-eq true refused k l h = refl
  passed-eq true crashes k l h = refl
  passed-eq true (done a) k l h = h a refl

  module _ (rank : Text → ℕ) (ranked : IsRanked files rank) where
    gathered-eq :
        (k l : Text → Parsing Parsed) (path : Text)
        → ((p : Text) → rank p < rank path → k p ≡ l p)
        → gathered k path ≡ gathered l path
    unfolding gathered scan_includes
    gathered-eq k l path h =
        passed-eq (files.opens path) (files.includes_pass path) _ _ (λ paths found.
          included-eq k l paths empty_scope
            (All-map (λ p below. h p below) paths (ranked path paths found)))

    enough :
        (f g : ℕ) (path : Text)
        → rank path < f
        → rank path < g
        → parse_anew f path ≡ parse_anew g path
    unfolding parse_anew
    enough zero g path h k = absurd (omega arith)
    enough (suc f) zero path h k = absurd (omega arith)
    enough (suc f) (suc g) path h k =
        ap (λ m. m >>= parse_types files path)
          (gathered-eq (parse_anew f) (parse_anew g) path
            (λ p below. enough f g p (omega arith) (omega arith)))

    pub meaning-eq :
        (path : Text)
        → meaning rank path ≡ (gathered (meaning rank) path >>= parse_types files path)
    unfolding parse_anew
    meaning-eq path =
        ap (λ m. m >>= parse_types files path)
          (gathered-eq (parse_anew (rank path)) (meaning rank) path
            (λ p below. enough (rank path) (suc (rank p)) p below (omega arith)))

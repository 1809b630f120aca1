-- ===== src/Compiler/ParseEnds.antt =====
-- parse ends from any cache, where no file includes itself.
use sparsam.Base.{
  ℕ, zero, suc, ◌<◌, ◌≡◌, refl, Text, text_key, Bool, true, false, List, [], ◌∷◌, Option, none,
  some, All, find, arith,
}
use sparsam.Compiler.ParseFiles.{
  Scope, empty_scope, Parsing, ◌>>=◌, declare_all, Parsed, ProgramScopes, Parser, passed, Pass,
  refused, crashes, done, parent_prefix, scan_includes, parse_types, parse_includes, scope_of,
  parse,
}
use sparsam.Compiler.Ends.{Ends, Crashes, in_includes, >>=-Ends, declare_all-Ends, parse_types-Ends}
use sparsam.Compiler.Anew.{IsRanked}

passed-Ends_at :
    (files : Parser) {A B : Type 0} (opened : Bool) (p : Pass A) (k : A → Parsing B)
    → (opened ≡ true → p ≡ crashes → Crashes files)
    → ((a : A) → p ≡ done a → Ends files (k a))
    → Ends files (passed opened p >>= k)
unfolding passed
passed-Ends_at files false p k c h = tt
passed-Ends_at files true refused k c h = tt
passed-Ends_at files true crashes k c h = c refl refl
passed-Ends_at files true (done a) k c h = h a refl

module _ (files : Parser) (rank : Text → ℕ) (ranked : IsRanked files rank) where
  module _ (parse_one : Text → ProgramScopes → Parsing (Parsed × ProgramScopes)) (bound : ℕ)
      (ends : (p : Text) (c : ProgramScopes) → rank p < bound → Ends files (parse_one p c)) where
    includes-Ends :
        (paths : List Text) (s : Scope) (cache : ProgramScopes)
        → All (λ p. rank p < bound) paths
        → Ends files (parse_includes files parse_one paths s cache)
    unfolding parse_includes
    includes-Ends [] s cache below = tt
    includes-Ends (path ∷ paths) s cache below =
        >>=-Ends files (parse_one path cache) _ (ends path cache below.0) (λ r.
          >>=-Ends files (declare_all (parent_prefix path) (r.0).declarations s) _
            (declare_all-Ends files (parent_prefix path) (r.0).declarations s)
            (λ t. includes-Ends paths t r.1 below.1))

  scope_of-Ends :
      (path : Text) (cache : ProgramScopes) (found : Option Scope)
      (parse_one : Text → ProgramScopes → Parsing (Parsed × ProgramScopes))
      → ((p : Text) (c : ProgramScopes) → rank p < rank path → Ends files (parse_one p c))
      → Ends files (scope_of files parse_one path cache found)
  unfolding scope_of scan_includes
  scope_of-Ends path cache (some s) parse_one ends = tt
  scope_of-Ends path cache none parse_one ends =
      passed-Ends_at files (files.opens path) (files.includes_pass path) _ (in_includes path)
        (λ paths found.
          >>=-Ends files (parse_includes files parse_one paths empty_scope cache) _
            (includes-Ends parse_one (rank path) ends paths empty_scope cache
              (ranked path paths found))
            (λ r. tt))

  pub parse-Ends :
      (f : ℕ) (path : Text) (cache : ProgramScopes)
      → rank path < f
      → Ends files (parse files f path cache)
  unfolding parse
  parse-Ends zero path cache h = absurd (omega arith)
  parse-Ends (suc f) path cache h =
      >>=-Ends files (scope_of files (parse files f) path cache (find path cache)) _
        (scope_of-Ends path cache (find path cache) (parse files f)
          (λ p c below. parse-Ends f p c (omega arith)))
        (λ r.
          >>=-Ends files (parse_types files path r.0) _ (parse_types-Ends files path r.0) (λ p. tt))

-- ===== src/Compiler/Memo.antt =====
-- parse with its cache program_to_scope, against the parse that keeps nothing.
use sparsam.Base.{
  ℕ, zero, suc, ◌<◌, ◌≡◌, refl, sym, ap, ◌∙◌, subst, Text, text_eq, text_eq_iff, Bool, true, false,
  Bool-cases, Option-cases, inl, inr, List, [], ◌∷◌, some, some_injective, All, find, insert,
  find-insert, text_key, if◌then◌else◌, arith,
}
use sparsam.Compiler.ParseFiles.{
  Scope, empty_scope, Parsing, out_of_fuel, failure, crash, parsed, Pass, refused, crashes, done,
  ◌>>=◌, declare_all, Parsed, ProgramScopes, Parser, passed, parent_prefix, scan_includes,
  parse_types, parse_includes, scope_of, parse,
}
use sparsam.Compiler.Ends.{>>=-assoc, Ends, declare_all-Ends, parse_types-Ends}
use sparsam.Compiler.Anew.{IsRanked, included_scope, gathered, meaning, meaning-eq}

module _ (files : Parser) where
  module _ (rank : Text → ℕ) where
    -- What the cache has of a file is what its includes make.
    abbrev pub IsCoherent : ProgramScopes → Type 0
    IsCoherent cache =
        (path : Text) (s : Scope)
        → find path cache ≡ some s
        → gathered files (meaning files rank) path ≡ parsed s

    -- A parse agrees with the meaning, and leaves a coherent cache.
    abbrev pub Agrees : {A : Type 0} → Parsing A → Parsing (A × ProgramScopes) → Type 0
    Agrees m out_of_fuel = ⊥
    Agrees m failure = m ≡ failure
    Agrees m crash = m ≡ crash
    Agrees m (parsed r) = (m ≡ parsed r.0) × IsCoherent r.1

    Agrees->>= :
        {A B : Type 0} (m : Parsing A) (r : Parsing (A × ProgramScopes)) (k : A → Parsing B)
        (l : A × ProgramScopes → Parsing (B × ProgramScopes))
        → Agrees m r
        → ((a : A) (c : ProgramScopes) → IsCoherent c → Agrees (k a) (l (a, c)))
        → Agrees (m >>= k) (r >>= l)
    Agrees->>= m out_of_fuel k l h next = absurd h
    Agrees->>= m failure k l h next = rw h refl
    Agrees->>= m crash k l h next = rw h refl
    Agrees->>= m (parsed (a, c)) k l h next = rw h.0 (next a c h.1)

    Agrees-passed :
        {A B : Type 0} (opened : Bool) (p : Pass A) (k : A → Parsing B)
        (l : A → Parsing (B × ProgramScopes))
        → ((a : A) → p ≡ done a → Agrees (k a) (l a))
        → Agrees (passed opened p >>= k) (passed opened p >>= l)
    unfolding passed
    Agrees-passed false p k l next = refl
    Agrees-passed true refused k l next = refl
    Agrees-passed true crashes k l next = refl
    Agrees-passed true (done a) k l next = next a refl

    Agrees-same :
        {A : Type 0} (m : Parsing A) (c : ProgramScopes)
        → Ends files m
        → IsCoherent c
        → Agrees m (m >>= λ a. parsed (a, c))
    Agrees-same out_of_fuel c h kept = absurd h
    Agrees-same failure c h kept = refl
    Agrees-same crash c h kept = refl
    Agrees-same (parsed a) c h kept = (refl, kept)

    Agrees-behind :
        {A B : Type 0} (m : Parsing A) (k : A → Parsing B) (l : A → Parsing (B × ProgramScopes))
        → Ends files m
        → ((a : A) → Agrees (k a) (l a))
        → Agrees (m >>= k) (m >>= l)
    Agrees-behind out_of_fuel k l h next = absurd h
    Agrees-behind failure k l h next = refl
    Agrees-behind crash k l h next = refl
    Agrees-behind (parsed a) k l h next = next a

    insert-IsCoherent :
        (path : Text) (s : Scope) (cache : ProgramScopes)
        → IsCoherent cache
        → gathered files (meaning files rank) path ≡ parsed s
        → IsCoherent (insert path s cache)
    insert-IsCoherent path s cache h made q t found = elim (Bool-cases (text_eq path q)) [
      | inl same ↦
          ap (gathered files (meaning files rank)) (sym ((text_eq_iff path q).0 same))
          ∙ made
          ∙ ap parsed (
              some_injective (
                sym (find-insert path q s cache ∙ ap (λ b. if b then some s else find q cache) same)
                ∙ found))
      | inr other ↦ h q t (
          sym (find-insert path q s cache ∙ ap (λ b. if b then some s else find q cache) other)
          ∙ found)
    ]

    Agrees-insert :
        (path : Text) (r : Parsing (Scope × ProgramScopes))
        → Agrees (gathered files (meaning files rank) path) r
        → Agrees
            (gathered files (meaning files rank) path)
            (r >>= λ t. parsed (t.0, insert path t.0 t.1))
    Agrees-insert path out_of_fuel h = absurd h
    Agrees-insert path failure h = h
    Agrees-insert path crash h = h
    Agrees-insert path (parsed (s, c)) h = (h.0, insert-IsCoherent path s c h.1 h.0)

  module _ (rank : Text → ℕ) (ranked : IsRanked files rank) where
    module _ (parse_one : Text → ProgramScopes → Parsing (Parsed × ProgramScopes)) (bound : ℕ)
        (agrees : (p : Text) (c : ProgramScopes)
          → rank p < bound
          → IsCoherent rank c
          → Agrees rank (meaning files rank p) (parse_one p c)) where
      includes-Agrees :
          (paths : List Text) (s : Scope) (cache : ProgramScopes)
          → All (λ p. rank p < bound) paths
          → IsCoherent rank cache
          → Agrees rank
              (included_scope files (meaning files rank) paths s)
              (parse_includes files parse_one paths s cache)
      unfolding included_scope parse_includes
      includes-Agrees [] s cache below h = (refl, h)
      includes-Agrees (path ∷ paths) s cache below h =
          Agrees->>= rank (meaning files rank path) (parse_one path cache) _ _
            (agrees path cache below.0 h)
            (λ p c kept.
              Agrees-behind rank (declare_all (parent_prefix path) p.declarations s) _ _
                (declare_all-Ends files (parent_prefix path) p.declarations s)
                (λ t. includes-Agrees paths t c below.1 kept))

    scanned-Agrees :
        (path : Text) (cache : ProgramScopes)
        (parse_one : Text → ProgramScopes → Parsing (Parsed × ProgramScopes))
        → ((p : Text) (c : ProgramScopes)
            → rank p < rank path
            → IsCoherent rank c
            → Agrees rank (meaning files rank p) (parse_one p c))
        → IsCoherent rank cache
        → Agrees rank
            (gathered files (meaning files rank) path)
            (scan_includes files path >>= λ ps. parse_includes files parse_one ps empty_scope cache)
    unfolding gathered scan_includes
    scanned-Agrees path cache parse_one agrees h =
        Agrees-passed rank (files.opens path) (files.includes_pass path) _ _ (λ ps found.
          includes-Agrees parse_one (rank path) agrees ps empty_scope cache (ranked path ps found)
            h)

    scope_of-Agrees :
        (path : Text) (cache : ProgramScopes)
        (parse_one : Text → ProgramScopes → Parsing (Parsed × ProgramScopes))
        → ((p : Text) (c : ProgramScopes)
            → rank p < rank path
            → IsCoherent rank c
            → Agrees rank (meaning files rank p) (parse_one p c))
        → IsCoherent rank cache
        → Agrees rank
            (gathered files (meaning files rank) path)
            (scope_of files parse_one path cache (find path cache))
    unfolding scope_of
    scope_of-Agrees path cache parse_one agrees h = elim (Option-cases (find path cache)) [
      | inr (s, found) ↦ rw found (h path s found, h)
      | inl missing ↦ rw missing (
          subst (Agrees rank (gathered files (meaning files rank) path))
            (>>=-assoc (scan_includes files path) _ _)
            (Agrees-insert rank path _ (scanned-Agrees path cache parse_one agrees h)))
    ]

    -- Where no file includes itself, directly or through others, and the fuel exceeds the depth of
    -- the includes, parse ends from every coherent cache: it fails exactly where the parse that
    -- reads every file anew fails, crashes where that one crashes, and otherwise gives the same scope and the same declarations and
    -- leaves the cache coherent.
    pub parse-Agrees :
        (f : ℕ) (path : Text) (cache : ProgramScopes)
        → rank path < f
        → IsCoherent rank cache
        → Agrees rank (meaning files rank path) (parse files f path cache)
    unfolding parse
    parse-Agrees zero path cache h k = absurd (omega arith)
    parse-Agrees (suc f) path cache h k =
        subst (λ m. Agrees rank m (parse files (suc f) path cache))
          (sym (meaning-eq files rank ranked path))
          (Agrees->>= rank (gathered files (meaning files rank) path) _ _ _
            (scope_of-Agrees path cache (parse files f)
              (λ p c below. parse-Agrees f p c (omega arith)) k)
            (λ s c kept.
              Agrees-same rank (parse_types files path s) c (parse_types-Ends files path s) kept))

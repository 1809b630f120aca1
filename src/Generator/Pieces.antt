-- ===== src/Generator/Pieces.antt =====
-- A namespace and its pieces between dots: ruby_modules and rb_namespace_to_path_prefix.
use sparsam.Base.{
  found-at, ℕ, zero, suc, ◌<◌, ◌≡◌, refl, ap, ◌∙◌, Text, List, [], ◌∷◌, ◌++◌, map, append_assoc,
  All, length, Option-cases, inl, inr, none, find_char, take, drop, arith,
}
use sparsam.Generator.Naming.{capitalize, underscore}
use sparsam.Generator.Modules.{
  modules_loop, modules, last_prefix, prefix_loop, rb_namespace_to_path_prefix,
}

-- Pieces with a dot between two of them.
abbrev pub dotted : Text → List Text → Text
dotted p [] = p
dotted p (q ∷ qs) = p ++ b'.' ∷ dotted q qs

-- A directory for each piece, and none for a last one that is empty.
abbrev pub directories : Text → List Text → Text
directories p [] = last_prefix p
directories p (q ∷ qs) = underscore p ++ b'/' ∷ directories q qs

abbrev pub LacksDot : Text → Type 0
LacksDot s = find_char b'.' s ≡ none

-- The pieces of a text, and what both loops make of them.
loops_lem :
    (f : ℕ) (s : Text)
    → length s < f
    → (p : Text) × (ps : List Text) × (dotted p ps ≡ s)
      × All LacksDot (p ∷ ps)
      × (modules_loop f s ≡ map capitalize (p ∷ ps))
      × ((out : Text) → prefix_loop f out s ≡ out ++ directories p ps)
unfolding modules_loop prefix_loop
loops_lem zero s h = absurd (omega arith)
loops_lem (suc f) s h = elim (Option-cases (find_char b'.' s)) [
  | inl plain ↦
      (s, [], refl, (plain, tt), rw (plain, modules_loop) refl, λ out. rw (plain, prefix_loop) refl)
  | inr (i, found) ↦
      let (joined, first, shorter) = found-at b'.' s i found in
      let (p, ps, whole, plain, mods, dirs) = loops_lem f (drop (suc i) s) (omega arith) in
      (
        take i s,
        p ∷ ps,
        ap (λ t. take i s ++ b'.' ∷ t) whole ∙ joined,
        (first, plain),
        rw (found, modules_loop) (ap (λ ms. capitalize (take i s) ∷ ms) mods),
        λ out.
            rw (found, prefix_loop)
              (dirs (out ++ underscore (take i s) ++ b'/' ∷ []) ∙ simp append_assoc),
      )
]

-- A namespace that is not empty falls into pieces without a dot, whose first letters ruby_modules
-- makes upper-case, and from which rb_namespace_to_path_prefix makes a directory each, but for an
-- empty last piece.
modules-prefix :
    (c : ℕ) (s : Text)
    → (p : Text) × (ps : List Text) × (dotted p ps ≡ c ∷ s)
      × All LacksDot (p ∷ ps)
      × (modules (c ∷ s) ≡ map capitalize (p ∷ ps))
      × (rb_namespace_to_path_prefix (c ∷ s) ≡ directories p ps)
unfolding modules rb_namespace_to_path_prefix
modules-prefix c s =
    let (p, ps, whole, plain, mods, dirs) =
      loops_lem (suc (length (c ∷ s))) (c ∷ s) (omega arith) in
    (p, ps, whole, plain, mods, dirs [])

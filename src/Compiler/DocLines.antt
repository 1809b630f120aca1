-- ===== src/Compiler/DocLines.antt =====
-- The lines of a doc, by a definition that looks at one byte after another.
use sparsam.Base.{
  ℕ, zero, suc, ◌<◌, ◌==◌, if◌then◌else◌, ◌≡◌, refl, sym, ap, ◌∙◌, Bool-cases, Option-cases, inl,
  inr, Text, List, [], ◌∷◌, ◌++◌, none, some, find_char, found-at, take, drop, length, arith,
}
use sparsam.Compiler.Doctext.{first_nonblank, lines_loop}

pub onto_first : ℕ → List Text → List Text
onto_first c [] = (c ∷ []) ∷ []
onto_first c (l ∷ ls) = (c ∷ l) ∷ ls

-- The texts between the line feeds.
unfoldable pub split_lines : Text → List Text
unfolding onto_first
split_lines [] = [] ∷ []
split_lines (c ∷ s) =
    let rest = split_lines s in if c == b'\n' then [] ∷ rest else onto_first c rest

-- Without a last line of blanks.
pub drop_blank_last : List Text → List Text
drop_blank_last [] = []
drop_blank_last (l ∷ []) = elim (first_nonblank l) [ none ↦ [] | some i ↦ l ∷ [] ]
drop_blank_last (l ∷ m ∷ ls) = l ∷ drop_blank_last (m ∷ ls)

one_line : (s : Text) → find_char b'\n' s ≡ none → split_lines s ≡ s ∷ []
unfolding find_char split_lines onto_first
one_line [] h = refl
one_line (c ∷ s) h = elim (Bool-cases (c == b'\n')) [
  | inl feed ↦ absurd (cc (rw feed at h))
  | inr other ↦ elim (Option-cases (find_char b'\n' s)) [
    | inl missing ↦ rw (other, one_line s missing) refl
    | inr (i, found) ↦ absurd (cc (rw (other, found) at h))
  ]
]

first_line :
    (p t : Text) → find_char b'\n' p ≡ none → split_lines (p ++ b'\n' ∷ t) ≡ p ∷ split_lines t
unfolding find_char split_lines onto_first
first_line [] t h = refl
first_line (c ∷ p) t h = elim (Bool-cases (c == b'\n')) [
  | inl feed ↦ absurd (cc (rw feed at h))
  | inr other ↦ elim (Option-cases (find_char b'\n' p)) [
    | inl missing ↦ rw (other, first_line p t missing) refl
    | inr (i, found) ↦ absurd (cc (rw (other, found) at h))
  ]
]

split-head : (s : Text) → (l : Text) × (ls : List Text) × (split_lines s ≡ l ∷ ls)
unfolding split_lines onto_first
split-head [] = ([], [], refl)
split-head (c ∷ s) =
    let (l, ls, e) = split-head s in
    elim (Bool-cases (c == b'\n')) [
      | inl feed ↦ ([], l ∷ ls, rw (feed, e) refl)
      | inr other ↦ (c ∷ l, ls, rw (other, e) refl)
    ]

drop-later :
    (l t : Text) → drop_blank_last (l ∷ split_lines t) ≡ l ∷ drop_blank_last (split_lines t)
unfolding drop_blank_last
drop-later l t = let (m, ls, e) = split-head t in rw e refl

-- The loop of clean_up_doctext has enough fuel: it makes these lines.
pub lines_loop-split_lines :
    (f : ℕ) (s : Text) → length s < f → lines_loop f s ≡ drop_blank_last (split_lines s)
unfolding lines_loop drop_blank_last
lines_loop-split_lines zero s h = absurd (omega arith)
lines_loop-split_lines (suc f) s h = elim (Option-cases (find_char b'\n' s)) [
  | inl missing ↦ rw (missing, lines_loop, one_line s missing) refl
  | inr (i, found) ↦
      let (joined, first, shorter) = found-at b'\n' s i found in
      let whole : split_lines s ≡ take i s ∷ split_lines (drop (suc i) s) =
        ap split_lines (sym joined) ∙ first_line (take i s) (drop (suc i) s) first in
      rw
        (
          found,
          lines_loop,
          whole,
          drop-later (take i s) (drop (suc i) s),
          lines_loop-split_lines f (drop (suc i) s) (omega arith),
        )
        refl
]

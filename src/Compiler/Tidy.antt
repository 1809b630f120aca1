-- ===== src/Compiler/Tidy.antt =====
-- What clean_up_doctext makes of every text.
use sparsam.Base.{
  ℕ, zero, suc, ◌==◌, if◌then◌else◌, ◌≡◌, ◌⊎◌, refl, sym, ◌∙◌, Bool, true, false, Bool-cases,
  Option-cases, inl, inr, ◌||◌, Text, List, [], ◌∷◌, map, all, and_true_iff, All, none, some,
  find_char, found-at, find_char-none, take, drop, length, some_injective, subst, is_empty, arith,
}
use sparsam.Compiler.DocLines.{split_lines, drop_blank_last, lines_loop-split_lines}
use sparsam.Compiler.Doctext.{
  is_blank, remove_cr, first_nonblank, last_nonblank, lines_loop, trim_end, drop_empty_first,
  join_lines, clean_lines, clean_up_doctext,
}
use sparsam.Compiler.LineBytes.{
  All-drop, All-take, erase_to-All, scan-All, without_stars-All, without_margin-All,
}

List-cases : (ls : List Text) → (ls ≡ []) ⊎ ((l : Text) × (rest : List Text) × (ls ≡ l ∷ rest))
List-cases [] = inl refl
List-cases (l ∷ ls) = inr (l, ls, refl)

-- A byte that no line of the result has.
abbrev pub IsInner : ℕ → Type 0
IsInner c = ((c == b'\n') ≡ false) × ((c == b'\r') ≡ false)

pub ends_blank : Text → Bool
ends_blank [] = false
ends_blank (c ∷ s) = if is_empty s then is_blank c else ends_blank s

-- A line without line ends in it, and with no blank at its end unless it has nothing else.
abbrev pub IsTidy : Text → Type 0
IsTidy l = All IsInner l × ((ends_blank l ≡ false) ⊎ All (λ c. is_blank c ≡ true) l)

All-both {κ μ} :
    (P : ℕ → Type κ) (Q : ℕ → Type μ) (l : Text) → All P l → All Q l → All (λ c. P c × Q c) l
All-both P Q [] h k = tt
All-both P Q (c ∷ l) h k = ((h.0, k.0), All-both P Q l h.1 k.1)

abbrev LacksCr : Text → Type 0
LacksCr l = All (λ c. (c == b'\r') ≡ false) l

remove_cr-LacksCr : (s : Text) → LacksCr (remove_cr s)
unfolding remove_cr
remove_cr-LacksCr [] = tt
remove_cr-LacksCr (c ∷ s) = elim (Bool-cases (c == b'\r')) [
  | inl cr ↦ rw cr (remove_cr-LacksCr s)
  | inr other ↦ rw other (other, remove_cr-LacksCr s)
]

lines_loop-All : (f : ℕ) (s : Text) → LacksCr s → All (All IsInner) (lines_loop f s)
unfolding lines_loop
lines_loop-All zero s h = tt
lines_loop-All (suc f) s h = elim (Option-cases (find_char b'\n' s)) [
  | inr (i, found) ↦
      rw (found, lines_loop)
        (
          All-both _ _ (take i s) (find_char-none b'\n' (take i s) (found-at b'\n' s i found).1)
              (All-take _ i s h),
          lines_loop-All f (drop (suc i) s) (All-drop _ (suc i) s h),
        )
  | inl missing ↦ elim (Option-cases (first_nonblank s)) [
    | inl blank ↦ rw (missing, lines_loop, blank) tt
    | inr (j, nonwhite) ↦
        rw (missing, lines_loop, nonwhite) (All-both _ _ s (find_char-none b'\n' s missing) h, tt)
  ]
]

last_nonblank-none : (l : Text) → last_nonblank l ≡ none → All (λ c. is_blank c ≡ true) l
unfolding last_nonblank
last_nonblank-none [] h = tt
last_nonblank-none (c ∷ l) h = elim (Option-cases (last_nonblank l)) [
  | inr (i, found) ↦ absurd (cc (rw (found, last_nonblank) at h))
  | inl blank ↦ elim (Bool-cases (is_blank c)) [
    | inl b ↦ (b, last_nonblank-none l blank)
    | inr b ↦ absurd (cc (rw (blank, last_nonblank, b) at h))
  ]
]

later-end :
    (c : ℕ) (l : Text) (j : ℕ)
    → last_nonblank l ≡ some j
    → ends_blank (take (suc j) l) ≡ false
    → ends_blank (take (suc (suc j)) (c ∷ l)) ≡ false
unfolding last_nonblank ends_blank
later-end c [] j found h = absurd cc
later-end c (d ∷ l) j found h = h

last_nonblank-end :
    (l : Text) (i : ℕ) → last_nonblank l ≡ some i → ends_blank (take (suc i) l) ≡ false
unfolding last_nonblank ends_blank
last_nonblank-end [] i h = absurd cc
last_nonblank-end (c ∷ l) i h = elim (Option-cases (last_nonblank l)) [
  | inr (j, found) ↦
      subst (λ k. ends_blank (take (suc k) (c ∷ l)) ≡ false)
        (some_injective (rw (found, last_nonblank) at h))
        (later-end c l j found (last_nonblank-end l j found))
  | inl blank ↦ elim (Bool-cases (is_blank c)) [
    | inl b ↦ absurd (cc (rw (blank, last_nonblank, b) at h))
    | inr b ↦
        subst (λ k. ends_blank (take (suc k) (c ∷ l)) ≡ false)
          (some_injective (rw (blank, last_nonblank, b) at h)) b
  ]
]

trim_end-IsTidy : (l : Text) → All IsInner l → IsTidy (trim_end l)
unfolding trim_end
trim_end-IsTidy l h = elim (Option-cases (last_nonblank l)) [
  | inl blank ↦ rw (blank, trim_end) (h, inr (last_nonblank-none l blank))
  | inr (i, found) ↦
      rw (found, trim_end) (All-take _ (suc i) l h, inl (last_nonblank-end l i found))
]

trims-IsTidy : (ls : List Text) → All (All IsInner) ls → All IsTidy (map trim_end ls)
trims-IsTidy [] h = tt
trims-IsTidy (l ∷ ls) h = (trim_end-IsTidy l h.0, trims-IsTidy ls h.1)

first-IsTidy : (ls : List Text) → All IsTidy ls → All IsTidy (drop_empty_first ls)
unfolding drop_empty_first
first-IsTidy [] h = tt
first-IsTidy (l ∷ ls) h = elim (Bool-cases (is_empty l)) [ inl e ↦ rw e h.1 | inr e ↦ rw e h ]

clean_lines-IsTidy :
    (l : Text) (ls : List Text) → All (All IsInner) (l ∷ ls) → All IsTidy (clean_lines l ls)
unfolding clean_lines
clean_lines-IsTidy l ls h = first-IsTidy _ (
    trims-IsTidy (_ ∷ _) (
      erase_to-All _ (first_nonblank l) l h.0,
      without_margin-All _ _ (without_stars-All _ _ (scan-All _ none ls h.1)),
    ))

-- A byte of a doc that has nothing in it.
pub is_ignored : ℕ → Bool
is_ignored c = is_blank c || c == b'\r'

ignored-blank : (s : Text) → all is_ignored s ≡ all is_blank (remove_cr s)
unfolding is_ignored remove_cr is_blank
ignored-blank [] = refl
ignored-blank (c ∷ s) = ground (arith, ignored-blank s)

blank-nonblank : (s : Text) → all is_blank s ≡ true → first_nonblank s ≡ none
unfolding first_nonblank
blank-nonblank [] h = refl
blank-nonblank (c ∷ s) h =
    let parts = (and_true_iff (is_blank c) (all is_blank s)).0 h in
    rw (parts.0, blank-nonblank s parts.1) refl

nonblank-blank : (s : Text) → first_nonblank s ≡ none → all is_blank s ≡ true
unfolding first_nonblank
nonblank-blank [] h = refl
nonblank-blank (c ∷ s) h = elim (Bool-cases (is_blank c)) [
  | inr b ↦ absurd (cc (rw b at h))
  | inl b ↦ elim (Option-cases (first_nonblank s)) [
    | inl rest ↦ rw b (nonblank-blank s rest)
    | inr (i, found) ↦ absurd (cc (rw (b, found) at h))
  ]
]

blank-one_line : (s : Text) → all is_blank s ≡ true → find_char b'\n' s ≡ none
unfolding find_char is_blank
blank-one_line [] h = refl
blank-one_line (c ∷ s) h = ground (arith, blank-one_line s)

lines-none : (f : ℕ) (s : Text) → all is_blank s ≡ true → lines_loop (suc f) s ≡ []
unfolding lines_loop
lines-none f s h = rw (blank-one_line s h, lines_loop, blank-nonblank s h) refl

none-lines : (f : ℕ) (s : Text) → lines_loop (suc f) s ≡ [] → all is_blank s ≡ true
unfolding lines_loop
none-lines f s h = elim (Option-cases (find_char b'\n' s)) [
  | inr (i, found) ↦ absurd (cc (rw (found, lines_loop) at h))
  | inl missing ↦ elim (Option-cases (first_nonblank s)) [
    | inl blank ↦ nonblank-blank s blank
    | inr (j, nonwhite) ↦ absurd (cc (rw (missing, lines_loop, nonwhite) at h))
  ]
]

-- clean_up_doctext answers NULL exactly for a text of blanks and carriage returns, without a line
-- feed. Every other text has lines between its line feeds, less a last one of blanks, once its
-- carriage returns are gone; what clean_lines makes of them is answered with a line feed behind
-- each. In those stands no line end, and no blank at the end unless the line has nothing else.
pub clean_up_doctext_lem :
    (doctext : Text)
    → ((clean_up_doctext doctext ≡ none) × (all is_ignored doctext ≡ true))
      ⊎ ((l : Text) × (ls : List Text) × (drop_blank_last (split_lines (remove_cr doctext))
            ≡ l ∷ ls)
          × (clean_up_doctext doctext ≡ some (join_lines (clean_lines l ls)))
          × All IsTidy (clean_lines l ls)
          × (all is_ignored doctext ≡ false))
unfolding clean_up_doctext
clean_up_doctext_lem doctext =
    let docstring : Text = remove_cr doctext in
    let f : ℕ = length docstring in
    elim (List-cases (lines_loop (suc f) docstring)) [
      | inl nothing ↦ inl (
        rw (nothing, clean_up_doctext) refl,
        ignored-blank doctext ∙ none-lines f docstring nothing,
      )
      | inr (l, ls, found) ↦ inr (
        l,
        ls,
        sym (lines_loop-split_lines (suc f) docstring (omega arith)) ∙ found,
        rw (found, clean_up_doctext) refl,
        clean_lines-IsTidy l ls (
            subst (All (All IsInner)) found
              (lines_loop-All (suc f) docstring (remove_cr-LacksCr doctext))),
        elim (Bool-cases (all is_ignored doctext)) [
          | inr text ↦ text
          | inl empty ↦
              absurd (cc (lines-none f docstring (sym (ignored-blank doctext) ∙ empty), found))
        ],
      )
    ]

-- ===== src/Generator/Comments.antt =====
-- The comment that generate_rdoc makes of a doc.
use sparsam.Base.{
  ℕ, zero, suc, ◌+◌, ◌≤◌, ◌==◌, ltb, if◌then◌else◌, ◌≡◌, refl, ap, ◌∙◌, true, false, Text, txt,
  List, [], ◌∷◌, ◌++◌, append_assoc, append-nil, All, All-append, subst, ==_iff, lt→ltb, length,
  length-append, Bool-cases, inl, inr, some, take, is_empty, arith,
}
use sparsam.Parse.Error.{ok}
use sparsam.Generator.Stream.{Stream, margin, indent, put}
use sparsam.Generator.Docs.{comment_lines, generate_docstring_comment, generate_rdoc}

-- The lines of a text behind `line`, the part of the first one that is known. An empty line at the
-- end is none.
pub lines_from : Text → Text → List Text
lines_from line [] = if is_empty line then [] else line ∷ []
lines_from line (c ∷ s) =
    let next = lines_from [] s in
    let more = lines_from (line ++ c ∷ []) s in if c == b'\n' then line ∷ next else more

-- The lines before the first that has more than 1023 bytes, and its first 1023 bytes.
pub legible : List Text → List Text
legible [] = []
legible (l ∷ ls) =
    let rest = legible ls in if ltb 1023 (length l) then take 1023 l ∷ [] else l ∷ rest

abbrev pub prefixed : Text → List Text → Text
prefixed line_prefix [] = []
prefixed line_prefix (l ∷ ls) = line_prefix ++ l ++ b'\n' ∷ prefixed line_prefix ls

take-append : (xs ys : Text) → take (length xs) (xs ++ ys) ≡ xs
take-append [] ys = refl
take-append (x ∷ xs) ys = ap (λ t. x ∷ t) (take-append xs ys)

snoc-not_empty : (line : Text) (c : ℕ) → is_empty (line ++ c ∷ []) ≡ false
snoc-not_empty [] c = refl
snoc-not_empty (a ∷ line) c = refl

length-snoc : (line : Text) (c : ℕ) → length (line ++ c ∷ []) ≡ length line + 1
length-snoc line c = length-append line (c ∷ [])

-- The first line goes on from what is known of it.
lines_from-first :
    (line s : Text) (c : ℕ)
    → (more : Text) × (ls : List Text) × (lines_from (line ++ c ∷ []) s ≡ (line ++ c ∷ more) ∷ ls)
unfolding lines_from
lines_from-first line [] c = ([], [], rw (snoc-not_empty line c) refl)
lines_from-first line (d ∷ s) c = elim (Bool-cases (d == b'\n')) [
  | inl ends ↦ ([], lines_from [] s, rw ends refl)
  | inr goes ↦
      let (more, ls, e) = lines_from-first (line ++ c ∷ []) s d in
      (d ∷ more, ls, rw goes (e ∙ ap (λ l. l ∷ ls) (append_assoc line (c ∷ []) (d ∷ more))))
]

short : (n : ℕ) → n ≤ 1023 → ltb 1023 n ≡ false
short n h = ground arith

legible-short : (l : Text) (ls : List Text) → length l ≤ 1023 → legible (l ∷ ls) ≡ l ∷ legible ls
unfolding legible
legible-short l ls h = rw (short (length l) h) refl

legible-long :
    (line more : Text) (c : ℕ) (ls : List Text)
    → length line ≡ 1023
    → legible ((line ++ c ∷ more) ∷ ls) ≡ line ∷ []
unfolding legible
legible-long line more c ls full =
    let over : ltb 1023 (length (line ++ c ∷ more)) ≡ true =
      lt→ltb 1023 _ (omega (arith, length-append line (c ∷ more))) in
    rw over (
      ap (λ l. l ∷ [])
        (subst (λ n. take n (line ++ c ∷ more) ≡ line) full (take-append line (c ∷ more))))

comment_lines-from :
    (line_prefix line s : Text)
    → length line ≤ 1023
    → comment_lines line_prefix line (length line) s
      ≡ prefixed line_prefix (legible (lines_from line s))
unfolding comment_lines lines_from legible
comment_lines-from line_prefix [] [] h = refl
comment_lines-from line_prefix (a ∷ line) [] h = rw (legible-short (a ∷ line) [] h) refl
comment_lines-from line_prefix line (c ∷ s) h = elim (Bool-cases (c == b'\n')) [
  | inl ends ↦
      rw (ends, legible-short line (lines_from [] s) h)
        (ap (λ t. line_prefix ++ line ++ b'\n' ∷ t)
          (comment_lines-from line_prefix [] s (omega arith)))
  | inr goes ↦ elim (Bool-cases (length line == 1023)) [
    | inl full ↦
        let (more, ls, e) = lines_from-first line s c in
        rw (goes, full, e, legible-long line more c ls ((==_iff _ _).0 full)) refl
    | inr room ↦
        rw (goes, room)
          (subst
            (λ n.
              comment_lines line_prefix (line ++ c ∷ []) n s
              ≡ prefixed line_prefix (legible (lines_from (line ++ c ∷ []) s)))
            (length-snoc line c)
            (comment_lines-from line_prefix (line ++ c ∷ []) s
              (ground (arith, length-snoc line c))))
  ]
]

-- A byte that does not end the line.
abbrev pub IsOneLine : Text → Type 0
IsOneLine l = All (λ c. (c == b'\n') ≡ false) l

lines_from-IsOneLine : (line s : Text) → IsOneLine line → All IsOneLine (lines_from line s)
unfolding lines_from
lines_from-IsOneLine [] [] h = tt
lines_from-IsOneLine (a ∷ line) [] h = (h, tt)
lines_from-IsOneLine line (c ∷ s) h = elim (Bool-cases (c == b'\n')) [
  | inl ends ↦ rw ends (h, lines_from-IsOneLine [] s tt)
  | inr goes ↦ rw goes (
      lines_from-IsOneLine (line ++ c ∷ []) s
        (All-append (λ d. (d == b'\n') ≡ false) line (c ∷ []) h (goes, tt)))
]

take-IsOneLine : (n : ℕ) (l : Text) → IsOneLine l → IsOneLine (take n l)
take-IsOneLine zero l h = tt
take-IsOneLine (suc n) [] h = tt
take-IsOneLine (suc n) (c ∷ l) h = (h.0, take-IsOneLine n l h.1)

legible-IsOneLine : (ls : List Text) → All IsOneLine ls → All IsOneLine (legible ls)
unfolding legible
legible-IsOneLine [] h = tt
legible-IsOneLine (l ∷ ls) h = elim (Bool-cases (ltb 1023 (length l))) [
  | inl over ↦ rw over (take-IsOneLine 1023 l h.0, tt)
  | inr fits ↦ rw fits (h.0, legible-IsOneLine ls h.1)
]

-- generate_rdoc writes, behind the indentation, a comment of one line for each line of the doc up
-- to the first that has more than 1023 bytes, of which it writes 1023; every line of the comment
-- begins with # and none has a line feed inside, so that no byte of the doc stands outside the
-- comment.
pub generate_rdoc-lines :
    (doc : Text) (x : Stream)
    → (generate_rdoc (some doc) x
        ≡ ok (record x {
          written =
              x.written ++ margin x.level ++ prefixed (txt "# ") (legible (lines_from [] doc));
        }))
      × All IsOneLine (legible (lines_from [] doc))
unfolding generate_rdoc generate_docstring_comment indent put
generate_rdoc-lines doc x = (
  ap (λ w. ok (record x { written = w }))
      (simp (append_assoc, append-nil)
        (ap (λ t. x.written ++ (margin x.level ++ t))
          (comment_lines-from (txt "# ") [] doc (omega arith)))),
  legible-IsOneLine _ (lines_from-IsOneLine [] doc tt),
)

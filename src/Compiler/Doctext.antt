-- ===== src/Compiler/Doctext.antt =====
-- compiler/src/main.cc: clean_up_doctext. The text is a C string: no byte of it is 0. `none` is NULL.
use sparsam.Base.{
  ℕ, zero, suc, ◌==◌, ltb, if◌then◌else◌, Bool, true, false, ◌&&◌, ◌||◌, Text, List, [], ◌∷◌, ◌++◌,
  map, Option, none, some, find_char, take, drop, length, is_empty,
}

unfoldable pub is_blank : ℕ → Bool
is_blank c = c == b' ' || c == b'\t'

-- docstring.erase(remove(…, '\r'), …)
unfoldable pub remove_cr : Text → Text
remove_cr [] = []
remove_cr (c ∷ s) = let rest = remove_cr s in if c == b'\r' then rest else c ∷ rest

-- find_first_not_of(" \t")
unfoldable pub first_nonblank : Text → Option ℕ
first_nonblank [] = none
first_nonblank (c ∷ s) =
    let rest = first_nonblank s in
    if is_blank c then elim rest [ none ↦ none | some i ↦ some (suc i) ] else some 0

-- find_last_not_of(" \t")
unfoldable pub last_nonblank : Text → Option ℕ
last_nonblank [] = none
last_nonblank (c ∷ s) = elim (last_nonblank s) [
  | some i ↦ some (suc i)
  | none ↦ if is_blank c then none else some 0
]

-- The loop that separates the lines, on fuel: each round but the last takes a line feed, so that
-- more than the length of the text is enough.
unfoldable pub lines_loop : ℕ → Text → List Text
lines_loop zero s = []
lines_loop (suc f) s = elim (find_char b'\n' s) [
  | some i ↦ take i s ∷ lines_loop f (drop (suc i) s)
  | none ↦ elim (first_nonblank s) [ none ↦ [] | some nonwhite ↦ s ∷ [] ]
]

-- erase(0, pos), where `none` is npos
unfoldable pub erase_to : Option ℕ → Text → Text
erase_to none l = []
erase_to (some pos) l = drop pos l

unfoldable pub starts_with : ℕ → Text → Bool
starts_with c [] = false
starts_with c (a ∷ s) = a == c

-- What the first loop over the lines behind the first one leaves: have_prefix, the position of the
-- star where found_prefix is set, and the lines.
pub record Scan : Type 0 where
  pub have_prefix : Bool
  pub star : Option ℕ
  pub lines : List Text

abbrev pub broken : Option ℕ → List Text → Scan
broken star ls = record { have_prefix = false; star = star; lines = ls }

abbrev pub behind : Text → Scan → Scan
behind l s = record s { lines = l ∷ s.lines }

-- One round: a line in which pos is not npos, before the rest.
unfoldable pub scan_text : Option ℕ → ℕ → Text → List Text → (Option ℕ → Scan) → Scan
scan_text none pos l ls next =
    if starts_with b'*' (drop pos l) then behind l (next (some pos)) else broken none (l ∷ ls)
scan_text (some n) pos l ls next =
    if starts_with b'*' (drop pos l) && pos == n
    then behind l (next (some n))
    else broken (some n) (l ∷ ls)

-- The empty lines are passed over, and those of blanks are cleared.
unfoldable pub scan : Option ℕ → List Text → Scan
scan star [] = record { have_prefix = true; star = star; lines = [] }
scan star (l ∷ ls) = elim (first_nonblank l) [
  | none ↦ behind [] (scan star ls)
  | some pos ↦ scan_text star pos l ls (λ found. scan found ls)
]

-- prefix_len + 1; prefix_len is 0 where no star was found.
unfoldable pub star_end : Option ℕ → ℕ
star_end none = 1
star_end (some n) = suc n

unfoldable pub without_stars : Scan → List Text
without_stars s = if s.have_prefix then map (drop (star_end s.star)) s.lines else s.lines

-- The least amount of leading blanks of a line that has something else, or npos.
unfoldable pub least_margin : Option ℕ → List Text → Option ℕ
least_margin prefix_len [] = prefix_len
least_margin prefix_len (l ∷ ls) = elim (first_nonblank l) [
  | none ↦ least_margin prefix_len ls
  | some pos ↦ elim prefix_len [
    | none ↦ least_margin (some pos) ls
    | some n ↦ least_margin (some (if ltb pos n then pos else n)) ls
  ]
]

unfoldable pub without_margin : List Text → List Text
without_margin ls = elim (least_margin none ls) [ none ↦ ls | some n ↦ map (drop n) ls ]

-- Trailing blanks, of a line that has something else.
unfoldable pub trim_end : Text → Text
trim_end l = elim (last_nonblank l) [ none ↦ l | some pos ↦ take (suc pos) l ]

unfoldable pub drop_empty_first : List Text → List Text
drop_empty_first [] = []
drop_empty_first (l ∷ ls) = if is_empty l then ls else l ∷ ls

unfoldable pub join_lines : List Text → Text
join_lines [] = []
join_lines (l ∷ ls) = l ++ b'\n' ∷ join_lines ls

-- The steps on the lines, behind the test that there are any.
unfoldable pub clean_lines : Text → List Text → List Text
clean_lines l ls =
    drop_empty_first
      (map trim_end (erase_to (first_nonblank l) l ∷ without_margin (without_stars (scan none ls))))

unfoldable pub clean_up_doctext : Text → Option Text
clean_up_doctext doctext =
    let docstring = remove_cr doctext in
    elim (lines_loop (suc (length docstring)) docstring) [
      | [] ↦ none
      | l ∷ ls ↦ some (join_lines (clean_lines l ls))
    ]

-- ===== src/Compiler/LineBytes.antt =====
-- The bytes of the lines of a doc are bytes of the doc: whatever holds of all of those holds of these.
use sparsam.Base.{
  ℕ, zero, suc, ◌==◌, if◌then◌else◌, Bool, true, false, Bool-cases, Option-cases, inl, inr, ◌&&◌,
  Text, List, [], ◌∷◌, map, All, Option, none, some, take, drop,
}
use sparsam.Compiler.Doctext.{
  first_nonblank, last_nonblank, erase_to, starts_with, Scan, scan_text, scan, star_end,
  without_stars, least_margin, without_margin, trim_end,
}

-- Every line stays among what a predicate on its bytes allows.
module _ {κ} (P : ℕ → Type κ) where
  pub All-drop : (n : ℕ) (l : Text) → All P l → All P (drop n l)
  All-drop zero l h = h
  All-drop (suc n) [] h = h
  All-drop (suc n) (c ∷ l) h = All-drop n l h.1

  pub All-take : (n : ℕ) (l : Text) → All P l → All P (take n l)
  All-take zero l h = tt
  All-take (suc n) [] h = tt
  All-take (suc n) (c ∷ l) h = (h.0, All-take n l h.1)

  pub All-each :
      (f : Text → Text) (ls : List Text)
      → ((l : Text) → All P l → All P (f l))
      → All (All P) ls
      → All (All P) (map f ls)
  All-each f [] h k = tt
  All-each f (l ∷ ls) h k = (h l k.0, All-each f ls h k.1)

  pub erase_to-All : (pos : Option ℕ) (l : Text) → All P l → All P (erase_to pos l)
  unfolding erase_to
  erase_to-All none l h = tt
  erase_to-All (some n) l h = All-drop n l h

  pub trim_end-All : (l : Text) → All P l → All P (trim_end l)
  unfolding trim_end
  trim_end-All l h = elim (Option-cases (last_nonblank l)) [
    | inl blank ↦ rw (blank, trim_end) h
    | inr (i, found) ↦ rw (found, trim_end) (All-take (suc i) l h)
  ]

  pub scan_text-All :
      (star : Option ℕ) (pos : ℕ) (l : Text) (ls : List Text) (next : Option ℕ → Scan)
      → All P l
      → All (All P) ls
      → ((found : Option ℕ) → All (All P) (next found).lines)
      → All (All P) (scan_text star pos l ls next).lines
  unfolding scan_text
  scan_text-All none pos l ls next h k m = elim (Bool-cases (starts_with b'*' (drop pos l))) [
    | inl yes_ ↦ rw yes_ (h, m (some pos))
    | inr no_ ↦ rw no_ (h, k)
  ]
  scan_text-All (some n) pos l ls next h k m =
      elim (Bool-cases (starts_with b'*' (drop pos l) && pos == n)) [
        | inl yes_ ↦ rw yes_ (h, m (some n))
        | inr no_ ↦ rw no_ (h, k)
      ]

  pub scan-All :
      (star : Option ℕ) (ls : List Text) → All (All P) ls → All (All P) (scan star ls).lines
  unfolding scan
  scan-All star [] h = tt
  scan-All star (l ∷ ls) h = elim (Option-cases (first_nonblank l)) [
    | inl blank ↦ rw (blank, scan) (tt, scan-All star ls h.1)
    | inr (pos, found) ↦
        rw (found, scan)
          (scan_text-All star pos l ls (λ t. scan t ls) h.0 h.1 (λ t. scan-All t ls h.1))
  ]

  pub either-All :
      (b : Bool) (x y : List Text)
      → All (All P) x
      → All (All P) y
      → All (All P) (if b then x else y)
  either-All true x y h k = h
  either-All false x y h k = k

  pub without_stars-All : (s : Scan) → All (All P) s.lines → All (All P) (without_stars s)
  unfolding without_stars
  without_stars-All s h =
      either-All s.have_prefix _ _ (All-each _ s.lines (All-drop (star_end s.star)) h) h

  pub without_margin-All : (ls : List Text) → All (All P) ls → All (All P) (without_margin ls)
  unfolding without_margin
  without_margin-All ls h = elim (Option-cases (least_margin none ls)) [
    | inl blank ↦ rw (blank, without_margin) h
    | inr (n, found) ↦ rw (found, without_margin) (All-each (drop n) ls (All-drop n) h)
  ]

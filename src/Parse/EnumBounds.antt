-- ===== src/Parse/EnumBounds.antt =====
-- The least and the greatest constant of an enumeration.
use sparsam.Base.{
  ltb_ℤ, ◌≤ℤ◌, ◌≡◌, refl, sym, ap, subst, [], ◌∷◌, Option, none, some, List, All, if◌then◌else◌,
  Bool-cases, inl, inr, ◌⊎◌, arith,
}
use sparsam.Parse.Enum.{
  Enum, EnumValue, min_loop, min_value, max_value, get_min_value, max_loop, back, get_max_value,
}

-- One of the constants.
abbrev pub IsIn : EnumValue → List EnumValue → Type 0
IsIn c [] = ⊥
IsIn c (d ∷ ds) = (c ≡ d) ⊎ IsIn c ds

-- The loop from `m` over `cs` ends with `r`: one of them, and at most all of them.
abbrev IsLeast : EnumValue → List EnumValue → EnumValue → Type 0
IsLeast m cs r = ((r ≡ m) ⊎ IsIn r cs) × (r.value ≤ℤ m.value) × All (λ c. r.value ≤ℤ c.value) cs

abbrev IsGreatest : EnumValue → List EnumValue → EnumValue → Type 0
IsGreatest m cs r = ((r ≡ m) ⊎ IsIn r cs) × (m.value ≤ℤ r.value) × All (λ c. c.value ≤ℤ r.value) cs

min_loop_lem : (m : EnumValue) (cs : List EnumValue) → IsLeast m cs (min_loop m cs)
unfolding min_loop
min_loop_lem m [] = (inl refl, omega arith, tt)
min_loop_lem m (c ∷ cs) = elim (Bool-cases (ltb_ℤ c.value m.value)) [
  | inl less ↦
      let (from, below, all) = min_loop_lem c cs in
      subst (IsLeast m (c ∷ cs)) (ap (λ b. min_loop (if b then c else m) cs) (sym less))
        (inr from, ground (arith, less, below), (below, all))
  | inr more ↦
      let (from, below, all) = min_loop_lem m cs in
      subst (IsLeast m (c ∷ cs)) (ap (λ b. min_loop (if b then c else m) cs) (sym more)) (
        elim from [ inl e ↦ inl e | inr i ↦ inr (inr i) ],
        below,
        (ground (arith, more, below), all),
      )
]

max_loop_lem : (m : EnumValue) (cs : List EnumValue) → IsGreatest m cs (max_loop m cs)
unfolding max_loop
max_loop_lem m [] = (inl refl, omega arith, tt)
max_loop_lem m (c ∷ cs) = elim (Bool-cases (ltb_ℤ m.value c.value)) [
  | inl less ↦
      let (from, above, all) = max_loop_lem c cs in
      subst (IsGreatest m (c ∷ cs)) (ap (λ b. max_loop (if b then c else m) cs) (sym less))
        (inr from, ground (arith, less, above), (above, all))
  | inr more ↦
      let (from, above, all) = max_loop_lem m cs in
      subst (IsGreatest m (c ∷ cs)) (ap (λ b. max_loop (if b then c else m) cs) (sym more)) (
        elim from [ inl e ↦ inl e | inr i ↦ inr (inr i) ],
        above,
        (ground (arith, more, above), all),
      )
]

back-IsIn : (c : EnumValue) (cs : List EnumValue) → IsIn (back c cs) (c ∷ cs)
unfolding back
back-IsIn c [] = inl refl
back-IsIn c (d ∷ ds) = inr (back-IsIn d ds)

both :
    (l h : EnumValue) (ds : List EnumValue)
    → All (λ d. l.value ≤ℤ d.value) ds
    → All (λ d. d.value ≤ℤ h.value) ds
    → All (λ d. (l.value ≤ℤ d.value) × (d.value ≤ℤ h.value)) ds
both l h [] a b = tt
both l h (d ∷ ds) a b = ((a.0, b.0), both l h ds a.1 b.1)

-- The least and the greatest of a list, as an enumeration answers them.
abbrev pub Bounds : List EnumValue → Option EnumValue → Option EnumValue → Type 0
Bounds cs least greatest =
    ((cs ≡ []) × (least ≡ none) × (greatest ≡ none))
    ⊎ ((low : EnumValue) × (high : EnumValue) × (least ≡ some low)
        × (greatest ≡ some high)
        × IsIn low cs
        × IsIn high cs
        × All (λ c. (low.value ≤ℤ c.value) × (c.value ≤ℤ high.value)) cs)

bounds : (cs : List EnumValue) → Bounds cs (min_value cs) (max_value cs)
unfolding min_value max_value
bounds [] = inl (refl, refl, refl)
bounds (c ∷ cs) =
    let low = min_loop_lem c (c ∷ cs) in
    let high = max_loop_lem (back c cs) (c ∷ cs) in
    inr (
      min_loop c (c ∷ cs),
      max_loop (back c cs) (c ∷ cs),
      refl,
      refl,
      elim low.0 [ inl e ↦ inl e | inr i ↦ i ],
      elim high.0 [ inl e ↦ subst (λ x. IsIn x (c ∷ cs)) (sym e) (back-IsIn c cs) | inr i ↦ i ],
      both (min_loop c (c ∷ cs)) (max_loop (back c cs) (c ∷ cs)) (c ∷ cs) low.2 high.2,
    )

-- get_min_value and get_max_value answer NULL for an enumeration without constants; otherwise they
-- answer constants of it, and the value of every constant lies between theirs.
pub get_min_value-get_max_value :
    (e : Enum) → Bounds e.constants (get_min_value e) (get_max_value e)
unfolding get_min_value get_max_value
get_min_value-get_max_value e = bounds e.constants

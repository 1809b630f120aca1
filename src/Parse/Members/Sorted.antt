-- ===== src/Parse/Members/Sorted.antt =====
-- Member lists sorted by id: the search for an id, and the insertion behind it.
use mathlib.Core.List.{Perm}
use mathlib.Core.List.Perm
use sparsam.Base.{
  ℕ, zero, suc, ◌==◌, ℤ, ◌<ℤ◌, ltb_ℤ, eqb_ℤ, ◌≡◌, refl, Bool, false, List, [], ◌∷◌, any, All,
  All-map, arith, Bool-cases, inl, inr, not,
}
use sparsam.Parse.Types.{Field}
use sparsam.Parse.Struct.{lower_bound, upper_bound, insert_at}

-- Strictly rising ids.
abbrev pub IsSorted : List Field → Type 0
IsSorted [] = Unit {0}
IsSorted (f ∷ fs) = All (λ g. f.key <ℤ g.key) fs × IsSorted fs

unfoldable pub has_id : ℤ → List Field → Bool
has_id k fs = any (λ f. eqb_ℤ f.key k) fs

-- Ids below every id of a list.
pub above_trans :
    (j k : ℤ) (fs : List Field) → j <ℤ k → All (λ g. k <ℤ g.key) fs → All (λ g. j <ℤ g.key) fs
above_trans j k fs h = All-map (λ g r. omega arith) fs

pub has_id-above : (k : ℤ) (fs : List Field) → All (λ g. k <ℤ g.key) fs → has_id k fs ≡ false
unfolding has_id
has_id-above k [] h = refl
has_id-above k (f ∷ fs) h = let rest = has_id-above k fs h.1 in let lt = h.0 in ground arith

bounds-above :
    (k : ℤ) (fs : List Field)
    → All (λ g. k <ℤ g.key) fs
    → (lower_bound k fs ≡ 0) × (upper_bound k fs ≡ 0)
unfolding lower_bound upper_bound
bounds-above k [] h = (refl, refl)
bounds-above k (f ∷ fs) h = let lt = h.0 in (ground arith, ground arith)

-- The two ends of the range differ exactly when a field has the id.
pub bounds-has_id :
    (k : ℤ) (fs : List Field)
    → IsSorted fs
    → not (lower_bound k fs == upper_bound k fs) ≡ has_id k fs
unfolding lower_bound upper_bound has_id
bounds-has_id k [] s = refl
bounds-has_id k (f ∷ fs) s = elim (Bool-cases (ltb_ℤ f.key k)) [
  | inl lt ↦ ground (arith, bounds-has_id k fs s.1)
  | inr ge ↦ elim (Bool-cases (ltb_ℤ k f.key)) [
    | inl gt ↦ ground (arith, has_id-above k fs (above_trans k f.key fs (ground arith) s.0))
    | inr le ↦ ground arith
  ]
]

-- The insertion rearranges the list with the new field in front.
pub insert_at-perm : (i : ℕ) (e : Field) (fs : List Field) → Perm (insert_at i e fs) (e ∷ fs)
unfolding insert_at
insert_at-perm zero e fs = Perm.refl (e ∷ fs)
insert_at-perm (suc i) e [] = Perm.refl (e ∷ [])
insert_at-perm (suc i) e (f ∷ fs) =
    Perm.trans (Perm.cons f (insert_at-perm i e fs)) (Perm.swap e f fs)

-- What holds of the new field and of the list holds after the insertion.
pub insert_at-All {κ} :
    (P : Field → Type κ) (i : ℕ) (e : Field) (fs : List Field)
    → P e
    → All P fs
    → All P (insert_at i e fs)
unfolding insert_at
insert_at-All P zero e fs p h = (p, h)
insert_at-All P (suc i) e [] p h = (p, tt)
insert_at-All P (suc i) e (f ∷ fs) p h = (h.0, insert_at-All P i e fs p h.1)

-- Behind the end of the range the list stays sorted, if no field has the id.
pub insert_at-IsSorted :
    (e : Field) (fs : List Field)
    → IsSorted fs
    → has_id e.key fs ≡ false
    → IsSorted (insert_at (upper_bound e.key fs) e fs)
unfolding insert_at upper_bound has_id
insert_at-IsSorted e [] s h = (tt, tt)
insert_at-IsSorted e (f ∷ fs) s h = elim (Bool-cases (ltb_ℤ e.key f.key)) [
  | inl lt ↦ rw lt ((ground arith, above_trans e.key f.key fs (ground arith) s.0), s)
  | inr ge ↦ rw ge (
    insert_at-All (λ g. f.key <ℤ g.key) (upper_bound e.key fs) e fs (ground arith) s.0,
    insert_at-IsSorted e fs s.1 (ground arith),
  )
]

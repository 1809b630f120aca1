-- ===== src/Generator/Shifts.antt =====
-- Sequences of writes and of steps on the two files that go through, by what they make of the
-- indentation.
use sparsam.Base.{
  ℕ, zero, suc, ℤ, ◌≡◌, refl, ap, ◌∙◌, Bool, true, false, Text, List, [], ◌∷◌, All, length,
  if◌then◌else◌,
}
use sparsam.Parse.Error.{ok}
use sparsam.Generator.Stream.{
  Stream, Step, Out, ◌>>◌, pass, each, succ, pred, indent_up, indent_down,
}
use sparsam.Generator.Writes.{Writes, Writes-level, line-Writes, pred-succ}
use sparsam.Generator.RubyFiles.{Files, on_types, on_consts, begin_namespace, end_namespace}

-- A sequence of writes that goes through, and what it makes of the indentation.
pub Shifts : (ℤ → ℤ) → Out → Type 0
Shifts g o = (s : Stream) → (s' : Stream) × (o s ≡ ok s') × (s'.level ≡ g s.level)

pub Writes-Shifts : (o : Out) → Writes o → Shifts (λ l. l) o
unfolding Shifts
Writes-Shifts o h s = Writes-level o h s

pub seq-Shifts :
    (g k : ℤ → ℤ) (m o : Out) → Shifts g m → Shifts k o → Shifts (λ l. k (g l)) (m >> o)
unfolding Shifts
seq-Shifts g k m o hm ho s =
    let (s', e, l) = hm s in let (s'', e', l') = ho s' in (s'', rw e e', l' ∙ ap k l)

-- `n` levels up, and down.
unfoldable pub raised : ℕ → ℤ → ℤ
raised zero l = l
raised (suc n) l = raised n (succ l)

unfoldable pub lowered : ℕ → ℤ → ℤ
lowered zero l = l
lowered (suc n) l = pred (lowered n l)

pub lowered-raised : (n : ℕ) (l : ℤ) → lowered n (raised n l) ≡ l
unfolding lowered raised
lowered-raised zero l = refl
lowered-raised (suc n) l = ap pred (lowered-raised n (succ l)) ∙ pred-succ l

pub up-Shifts : Shifts succ indent_up
unfolding Shifts indent_up
up-Shifts s = (_, refl, refl)

pub down-Shifts : Shifts pred indent_down
unfolding Shifts indent_down
down-Shifts s = (_, refl, refl)

pub begin-Shifts : (ms : List Text) → Shifts (raised (length ms)) (begin_namespace ms)
unfolding begin_namespace raised Shifts
begin-Shifts [] s = (s, refl, refl)
begin-Shifts (m ∷ ms) s =
    seq-Shifts succ (raised (length ms)) _ _
      (seq-Shifts (λ l. l) succ _ _ (Writes-Shifts _ (line-Writes _)) up-Shifts) (begin-Shifts ms) s

pub end-Shifts : (ms : List Text) → Shifts (lowered (length ms)) (end_namespace ms)
unfolding end_namespace lowered Shifts
end-Shifts [] s = (s, refl, refl)
end-Shifts (m ∷ ms) s =
    seq-Shifts (λ l. pred (lowered (length ms) l)) (λ l. l) _ _
      (seq-Shifts (lowered (length ms)) pred _ _ (end-Shifts ms) down-Shifts)
      (Writes-Shifts _ (line-Writes _)) s

-- A step on the two files that goes through: what it makes of their indentations, and that their
-- names and the directories stay.
unfoldable pub FilesShift : (ℤ → ℤ) → (ℤ → ℤ) → Step Files → Type 0
FilesShift g k o =
    (f : Files)
    → (f' : Files) × (o f ≡ ok f')
      × (f'.types.level ≡ g f.types.level)
      × (f'.consts.level ≡ k f.consts.level)
      × (f'.types_name ≡ f.types_name)
      × (f'.consts_name ≡ f.consts_name)
      × (f'.made ≡ f.made)

pub types-Shift : (g : ℤ → ℤ) (o : Out) → Shifts g o → FilesShift g (λ l. l) (on_types o)
unfolding Shifts FilesShift on_types
types-Shift g o h f =
    let (s', e, l) = h f.types in (record f { types = s' }, rw e refl, l, refl, refl, refl, refl)

pub consts-Shift : (g : ℤ → ℤ) (o : Out) → Shifts g o → FilesShift (λ l. l) g (on_consts o)
unfolding Shifts FilesShift on_consts
consts-Shift g o h f =
    let (s', e, l) = h f.consts in (record f { consts = s' }, rw e refl, refl, l, refl, refl, refl)

pub seq-Shift :
    (g k g' k' : ℤ → ℤ) (m o : Step Files)
    → FilesShift g k m
    → FilesShift g' k' o
    → FilesShift (λ l. g' (g l)) (λ l. k' (k l)) (m >> o)
unfolding FilesShift
seq-Shift g k g' k' m o hm ho f =
    let (a, e, t, c, n, n', d) = hm f in
    let (b, e', t', c', m', m'', d') = ho a in
    (b, rw e e', t' ∙ ap g' t, c' ∙ ap k' c, m' ∙ n, m'' ∙ n', d' ∙ d)

-- Steps that leave both indentations.
abbrev pub Steady : Step Files → Type 0
Steady o = FilesShift (λ l. l) (λ l. l) o

pub pass-Steady : Steady pass
unfolding FilesShift
pass-Steady f = (f, refl, refl, refl, refl, refl, refl)

pub each-Steady {κ} :
    {A : Type 0} (P : A → Type κ) (o : A → Step Files) (xs : List A)
    → ((x : A) → P x → Steady (o x))
    → All P xs
    → Steady (each o xs)
unfolding each
each-Steady P o [] h all = pass-Steady
each-Steady P o (x ∷ xs) h all = seq-Shift _ _ _ _ _ _ (h x all.0) (each-Steady P o xs h all.1)

pub each-Steady_always :
    {A : Type 0} (o : A → Step Files) (xs : List A) → ((x : A) → Steady (o x)) → Steady (each o xs)
unfolding each
each-Steady_always o [] h = pass-Steady
each-Steady_always o (x ∷ xs) h = seq-Shift _ _ _ _ _ _ (h x) (each-Steady_always o xs h)

pub branch-Steady :
    (b : Bool) (x y : Step Files) → Steady x → Steady y → Steady (if b then x else y)
branch-Steady true x y h k = h
branch-Steady false x y h k = k

pub types-Steady : (o : Out) → Writes o → Steady (on_types o)
types-Steady o h = types-Shift (λ l. l) o (Writes-Shifts o h)

pub consts-Steady : (o : Out) → Writes o → Steady (on_consts o)
consts-Steady o h = consts-Shift (λ l. l) o (Writes-Shifts o h)

-- ===== src/Generator/Writes.antt =====
-- Sequences of writes that go through: each appends to the file and leaves the indentation as it
-- found it.
use sparsam.Base.{
  zero, suc, ℤ, pos, negsuc, ◌≡◌, refl, sym, ap, Text, List, [], ◌∷◌, ◌++◌, append_assoc,
  append-nil, Option, none, some,
}
use sparsam.Parse.Error.{Fallible, ok}
use sparsam.Generator.Stream.{
  Stream, Out, ◌>>◌, put, pass, each, indent, margin, succ, pred, indent_up, indent_down, indented,
  begin, line, given,
}
use sparsam.Generator.Docs.{generate_docstring_comment, generate_rdoc}

pub Writes : Out → Type 0
Writes o = (s : Stream) → (t : Text) × (o s ≡ ok (record s { written = s.written ++ t }))

pub put-Writes : (t : Text) → Writes (put t)
unfolding put Writes
put-Writes t s = (t, refl)

pub pass-Writes : Writes pass
unfolding Writes
pass-Writes s = ([], ap (λ w. ok (record s { written = w })) (sym (append-nil s.written)))

pub seq-Writes : (m k : Out) → Writes m → Writes k → Writes (m >> k)
unfolding Writes
seq-Writes m k hm hk s =
    let (t, e) = hm s in
    let (u, e') = hk (record s { written = s.written ++ t }) in
    (t ++ u, rw (e, e') (ap (λ w. ok (record s { written = w })) (append_assoc s.written t u)))

pub pred-succ : (l : ℤ) → pred (succ l) ≡ l
unfolding pred succ
pred-succ (pos n) = refl
pred-succ (negsuc zero) = refl
pred-succ (negsuc (suc n)) = refl

pub indented-Writes : (o : Out) → Writes o → Writes (indented o)
unfolding Writes indented indent_up indent_down
indented-Writes o h s =
    let (t, e) = h (record s { level = succ s.level }) in (t, rw (e, pred-succ) refl)

pub indent-Writes : Writes indent
unfolding indent Writes put
indent-Writes s = (margin s.level, refl)

pub begin-Writes : (t : Text) → Writes (begin t)
unfolding begin
begin-Writes t = seq-Writes _ _ indent-Writes (put-Writes t)

pub line-Writes : (t : Text) → Writes (line t)
unfolding line
line-Writes t = begin-Writes (t ++ b'\n' ∷ [])

pub each-Writes :
    {A : Type 0} (f : A → Out) (xs : List A) → ((x : A) → Writes (f x)) → Writes (each f xs)
unfolding each
each-Writes f [] h = pass-Writes
each-Writes f (x ∷ xs) h = seq-Writes _ _ (h x) (each-Writes f xs h)

-- A value that is there.
pub given-Writes :
    {A : Type 0} (r : Fallible A) (k : A → Out) {a : A}
    → r ≡ ok a
    → Writes (k a)
    → Writes (given r k)
given-Writes r k e h = rw (e, given) h

pub generate_rdoc-Writes : (doc : Option Text) → Writes (generate_rdoc doc)
unfolding generate_rdoc generate_docstring_comment
generate_rdoc-Writes none = pass-Writes
generate_rdoc-Writes (some doc) = search (seq-Writes, indent-Writes, put-Writes)

-- The same without the text.
pub Writes-level :
    (o : Out) → Writes o → (s : Stream) → (s' : Stream) × (o s ≡ ok s') × (s'.level ≡ s.level)
unfolding Writes
Writes-level o h s = let (t, e) = h s in (record s { written = s.written ++ t }, e, refl)

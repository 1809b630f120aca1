-- ===== src/Generator/Stream.antt =====
-- compiler/src/generate/t_ruby_generator.cc: t_ruby_ofstream, and the sequences of writes that the
-- functions of the generator make of it. A write may throw; what was written before is not kept.
use sparsam.Base.{ℕ, zero, suc, ℤ, pos, negsuc, Text, List, [], ◌∷◌, ◌++◌}
use sparsam.Parse.Error.{Fallible, ok, throw, Error, ◌>>=◌}

-- The text of the file, and indent_.
pub record Stream : Type 0 where
  pub written : Text
  pub level : ℤ

-- A step on some state that may throw, and one step after another.
abbrev pub Step : Type 0 → Type 0
Step S = S → Fallible S

infixl 5 ◌>>◌
abbrev pub ◌>>◌ : {S : Type 0} → Step S → Step S → Step S
◌>>◌ m k s = m s >>= k

-- No step.
abbrev pub pass : {S : Type 0} → Step S
pass s = ok s

-- A loop over a vector.
unfoldable pub each : {A S : Type 0} → (A → Step S) → List A → Step S
each f [] = pass
each f (x ∷ xs) = f x >> each f xs

abbrev pub Out : Type 0
Out = Step Stream

-- out << t
unfoldable pub put : Text → Out
put t s = ok (record s { written = s.written ++ t })

-- The loop of indent: no round where indent_ is negative.
unfoldable pub spaces : ℕ → Text
spaces zero = []
spaces (suc n) = b' ' ∷ b' ' ∷ spaces n

unfoldable pub margin : ℤ → Text
margin (pos n) = spaces n
margin (negsuc n) = []

unfoldable pub indent : Out
indent s = put (margin s.level) s

unfoldable pub succ : ℤ → ℤ
succ (pos n) = pos (suc n)
succ (negsuc zero) = pos 0
succ (negsuc (suc n)) = negsuc n

unfoldable pub pred : ℤ → ℤ
pred (pos zero) = negsuc 0
pred (pos (suc n)) = pos n
pred (negsuc n) = negsuc (suc n)

unfoldable pub indent_up : Out
indent_up s = ok (record s { level = succ s.level })

unfoldable pub indent_down : Out
indent_down s = ok (record s { level = pred s.level })

abbrev pub raise : Error → Out
raise e s = throw e

-- out.indent() << t, and the same with endl
unfoldable pub begin : Text → Out
begin t = indent >> put t

unfoldable pub line : Text → Out
line t = begin (t ++ b'\n' ∷ [])

-- A value that may throw, written on.
abbrev pub given : {A : Type 0} → Fallible A → (A → Out) → Out
given (throw e) k = raise e
given (ok a) k = k a

-- out.indent_up(); what is written one level further in; out.indent_down().
unfoldable pub indented : Out → Out
indented body = indent_up >> body >> indent_down

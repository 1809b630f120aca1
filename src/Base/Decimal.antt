-- ===== src/Base/Decimal.antt =====
-- How an ostream writes an integer: its decimal digits, behind a minus sign if it is negative.
use Prim.Native.Nat.{ℕ, zero, suc, ◌+◌, ◌/◌, ◌%◌}
use mathlib.Core.List.{[], ◌∷◌, ◌++◌}
use sparsam.Base.Tests.{ltb, if◌then◌else◌}
use sparsam.Base.Int.{ℤ, pos, negsuc}
use sparsam.Base.Strings.{Text}

-- The digits of a number, on fuel: more than the number is enough.
unfoldable pub digits_within : ℕ → ℕ → Text
digits_within zero n = []
digits_within (suc f) n =
    let rest = digits_within f (n / 10) in
    if ltb n 10 then (n + 48) ∷ [] else rest ++ (n % 10 + 48) ∷ []

unfoldable pub digits : ℕ → Text
digits n = digits_within (suc n) n

unfoldable pub decimal : ℤ → Text
decimal (pos n) = digits n
decimal (negsuc n) = b'-' ∷ digits (suc n)

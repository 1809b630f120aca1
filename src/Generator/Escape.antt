-- ===== src/Generator/Escape.antt =====
-- compiler/src/generate/t_generator.h: the map escape_; t_generator.cc: escape_string.
use sparsam.Base.{ℕ, ◌==◌, if◌then◌else◌, Text, [], ◌∷◌, ◌++◌, Option, none, some}

-- escape_.find
unfoldable pub escape_of : ℕ → Option Text
escape_of c =
    if c == b'\n'
    then some (b'\\' ∷ b'n' ∷ [])
    else if c == b'\r'
    then some (b'\\' ∷ b'r' ∷ [])
    else if c == b'\t'
    then some (b'\\' ∷ b't' ∷ [])
    else if c == b'"'
    then some (b'\\' ∷ b'"' ∷ [])
    else if c == b'\\'
    then some (b'\\' ∷ b'\\' ∷ [])
    else none

-- What the loop appends to `result` for one byte.
unfoldable pub escape_byte : ℕ → Text
escape_byte c = elim (escape_of c) [ none ↦ c ∷ [] | some t ↦ t ]

-- The loop of escape_string.
unfoldable pub escape_onto : Text → Text → Text
escape_onto result [] = result
escape_onto result (c ∷ s) = escape_onto (result ++ escape_byte c) s

unfoldable pub escape_string : Text → Text
escape_string s = escape_onto [] s

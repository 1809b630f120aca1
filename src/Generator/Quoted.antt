-- ===== src/Generator/Quoted.antt =====
-- What Ruby reads where the generator writes a text between %q" and ".
use sparsam.Base.{
  ℕ, ◌==◌, if◌then◌else◌, ◌≡◌, ◌≢◌, ◌↔◌, any, Bool-cases, inl, inr, refl, ap, sym, ◌∙◌, Bool, true,
  false, ◌||◌, ◌&&◌, Text, [], ◌∷◌, ◌++◌, append_assoc, append-nil, Option, none, some, arith,
}
use sparsam.Generator.Escape.{escape_of, escape_byte, escape_onto, escape_string}

-- A %q literal behind its opening quote, as Ruby reads it: a backslash stands for itself except
-- before a backslash or the quote, and the quote ends the literal. The result is the string and
-- the text behind the literal.
pub read_q : Text → Text → Option (Text × Text)
read_q out [] = none
read_q out (c ∷ []) = if c == b'"' then some (out, []) else none
read_q out (c ∷ d ∷ s) =
    let escaped = read_q (out ++ d ∷ []) s in
    let copied = read_q (out ++ c ∷ []) (d ∷ s) in
    if c == b'"'
    then some (out, d ∷ s)
    else if c == b'\\' && (d == b'\\' || d == b'"')
    then escaped
    else copied

-- A byte that escape_ maps to a backslash and a letter.
unfoldable pub is_control : ℕ → Bool
is_control c = c == b'\n' || c == b'\r' || c == b'\t'

-- What Ruby reads for one byte.
unfoldable pub shown_byte : ℕ → Text
shown_byte c = if is_control c then escape_byte c else c ∷ []

unfoldable pub shown : Text → Text
shown [] = []
shown (c ∷ s) = shown_byte c ++ shown s

escaped : Text → Text
escaped [] = []
escaped (c ∷ s) = escape_byte c ++ escaped s

escape_onto-escaped : (s result : Text) → escape_onto result s ≡ result ++ escaped s
unfolding escape_onto escaped
escape_onto-escaped [] result = sym (append-nil result)
escape_onto-escaped (c ∷ s) result = simp (escape_onto-escaped s, append_assoc)

-- One byte, with what follows it, which is not empty.
read_byte :
    (c d : ℕ) (rest out : Text)
    → read_q out (escape_byte c ++ d ∷ rest) ≡ read_q (out ++ shown_byte c) (d ∷ rest)
unfolding read_q escape_byte escape_of shown_byte is_control
read_byte c d rest out = ground (
  arith,
  append_assoc out (b'\\' ∷ []) (b'n' ∷ []),
  append_assoc out (b'\\' ∷ []) (b'r' ∷ []),
  append_assoc out (b'\\' ∷ []) (b't' ∷ []),
)

read_quote : (rest out : Text) → read_q out (b'"' ∷ rest) ≡ some (out, rest)
unfolding read_q
read_quote [] out = refl
read_quote (d ∷ rest) out = refl

escape_byte-ne-nil : (c : ℕ) (t : Text) → escape_byte c ++ t ≢ []
unfolding escape_byte escape_of
escape_byte-ne-nil c t = ground arith

cons_of_ne_nil : (t : Text) → t ≢ [] → (d : ℕ) × (u : Text) × (t ≡ d ∷ u)
cons_of_ne_nil [] h = absurd (h refl)
cons_of_ne_nil (d ∷ u) h = (d, u, refl)

-- Something stands behind a byte of a literal, if only the quote.
escaped-ne-nil : (s rest : Text) → escaped s ++ b'"' ∷ rest ≢ []
unfolding escaped
escaped-ne-nil [] rest = λ h. cc
escaped-ne-nil (c ∷ s) rest = rw append_assoc (escape_byte-ne-nil c (escaped s ++ b'"' ∷ rest))

read_escaped :
    (s rest out : Text) → read_q out (escaped s ++ b'"' ∷ rest) ≡ some (out ++ shown s, rest)
unfolding escaped shown
read_escaped [] rest out = read_quote rest out ∙ ap (λ t. some (t, rest)) (sym (append-nil out))
read_escaped (c ∷ s) rest out =
    let (d, t, e) = cons_of_ne_nil (escaped s ++ b'"' ∷ rest) (escaped-ne-nil s rest) in
    ap (read_q out)
      (append_assoc (escape_byte c) (escaped s) (b'"' ∷ rest) ∙ ap (λ u. escape_byte c ++ u) e)
    ∙ read_byte c d t out
    ∙ ap (read_q (out ++ shown_byte c)) (sym e)
    ∙ read_escaped s rest (out ++ shown_byte c)
    ∙ ap (λ u. some (u, rest)) (append_assoc out (shown_byte c) (shown s))

-- The first byte that Ruby reads for a control byte is a backslash.
shown-control : (c : ℕ) (t s : Text) → is_control c ≡ true → shown_byte c ++ t ≢ c ∷ s
unfolding shown_byte is_control escape_byte escape_of
shown-control c t s h = ground arith

shown-plain : (c : ℕ) → is_control c ≡ false → shown_byte c ≡ c ∷ []
unfolding shown_byte
shown-plain c h = rw h refl

shown_iff : (s : Text) → (shown s ≡ s) ↔ (any is_control s ≡ false)
unfolding shown
shown_iff [] = (λ h. refl, λ h. refl)
shown_iff (c ∷ s) = elim (Bool-cases (is_control c)) [
  | inl h ↦ (λ e. absurd (shown-control c (shown s) s h e), λ e. ground arith)
  | inr h ↦ rw (shown-plain c h, h) (λ e. (shown_iff s).0 (cc), λ e. cc ((shown_iff s).1 e))
]

-- Ruby reads every constant that the generator writes between %q" and the quote up to that quote,
-- and reads the text of the constant itself exactly when it has no line feed, carriage return or
-- tab.
pub read_q-escape_string :
    (s rest : Text)
    → (read_q [] (escape_string s ++ b'"' ∷ rest) ≡ some (shown s, rest))
      × ((shown s ≡ s) ↔ (any is_control s ≡ false))
unfolding escape_string
read_q-escape_string s rest = (rw (escape_onto-escaped s []) (read_escaped s rest []), shown_iff s)

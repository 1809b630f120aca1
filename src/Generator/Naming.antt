-- ===== src/Generator/Naming.antt =====
-- compiler/src/generate/t_generator.h: the helpers on names. The bytes of a name are those of the C
-- locale: toupper, tolower and isupper change or find ASCII letters only. in[0] of an empty text is
-- the byte 0, which the case functions leave alone.
use sparsam.Base.{
  ℕ, ◌+◌, ◌-◌, leb, ◌==◌, if◌then◌else◌, Bool, true, false, ◌&&◌, Text, [], ◌∷◌, map,
}

unfoldable pub isupper : ℕ → Bool
isupper c = leb b'A' c && leb c b'Z'

unfoldable pub islower : ℕ → Bool
islower c = leb b'a' c && leb c b'z'

unfoldable pub tolower : ℕ → ℕ
unfolding isupper
tolower c = if isupper c then c + 32 else c

unfoldable pub toupper : ℕ → ℕ
unfolding islower
toupper c = if islower c then c - 32 else c

unfoldable pub capitalize : Text → Text
capitalize [] = []
capitalize (c ∷ s) = toupper c ∷ s

unfoldable pub decapitalize : Text → Text
decapitalize [] = []
decapitalize (c ∷ s) = tolower c ∷ s

unfoldable pub lowercase : Text → Text
lowercase s = map tolower s

unfoldable pub uppercase : Text → Text
uppercase s = map toupper s

-- The loop of underscore, from the second byte on.
unfoldable pub underscore_rest : Text → Text
underscore_rest [] = []
underscore_rest (c ∷ s) =
    let rest = underscore_rest s in if isupper c then b'_' ∷ tolower c ∷ rest else c ∷ rest

unfoldable pub underscore : Text → Text
underscore [] = []
underscore (c ∷ s) = tolower c ∷ underscore_rest s

-- The loop of camelcase; the flag is its local `underscore`.
unfoldable pub camelcase_from : Bool → Text → Text
camelcase_from underscored [] = []
camelcase_from underscored (c ∷ s) =
    let skipped = camelcase_from true s in
    let copied = camelcase_from false s in
    if c == b'_' then skipped else (if underscored then toupper c else c) ∷ copied

unfoldable pub camelcase : Text → Text
camelcase s = camelcase_from false s

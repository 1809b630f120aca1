-- ===== src/Compiler/NamesEnd.antt =====
-- The directory that set_out_path leaves ends in a separator, and a prefix of includes in a slash.
use sparsam.Base.{
  ap, ◌⊎◌, take, rfind_char, ℕ, ◌==◌, Text, ◌≡◌, refl, sym, subst, ◌∙◌, ◌||◌, Bool, true, false, [],
  ◌∷◌, ◌++◌, none, some, Bool-cases, Option-cases, inl, inr,
}
use sparsam.Compiler.Names.{last_byte, ends_in, set_out_path, set_include_prefix, include_prefix_of}

last_byte-append : (s : Text) (c : ℕ) → last_byte (s ++ c ∷ []) ≡ some c
unfolding last_byte
last_byte-append [] c = refl
last_byte-append (a ∷ []) c = refl
last_byte-append (a ∷ b ∷ s) c = last_byte-append (b ∷ s) c

some_inj : {a b : Text} → some a ≡ some b → a ≡ b
some_inj e = cc

abbrev is_separator : ℕ → Bool
is_separator c = c == b'/' || c == b'\\'

-- A path that ends in a separator, and what set_out_path makes of it.
abbrev IsDirectory : Text → Type 0
IsDirectory t = ((ends_in b'/' t || ends_in b'\\' t) ≡ true) × (set_out_path t ≡ some t)

ends_in-last : (c a : ℕ) (s : Text) → last_byte s ≡ some a → ends_in c s ≡ (a == c)
unfolding ends_in
ends_in-last c a s h = rw (h, ends_in) refl

ended-IsDirectory :
    (t : Text) (c : ℕ) → last_byte t ≡ some c → is_separator c ≡ true → IsDirectory t
unfolding set_out_path
ended-IsDirectory t c last ends = (
  rw (ends_in-last b'/' c t last, ends_in-last b'\\' c t last) ends,
  rw (last, set_out_path, ends) refl,
)

bare_path :
    (s : Text) (c : ℕ)
    → last_byte s ≡ some c
    → is_separator c ≡ false
    → set_out_path s ≡ some (s ++ b'/' ∷ [])
unfolding set_out_path
bare_path s c last bare = rw (last, set_out_path, bare) refl

empty_path : (s : Text) → last_byte s ≡ none → set_out_path s ≡ none
unfolding set_out_path
empty_path s last = rw (last, set_out_path) refl

-- Where set_out_path does not throw, the path it leaves ends in a slash or a backslash, and
-- set_out_path leaves that path as it is.
set_out_path-IsDirectory : (s t : Text) → set_out_path s ≡ some t → IsDirectory t
set_out_path-IsDirectory s t h = elim (Option-cases (last_byte s)) [
  | inl empty ↦ cc (sym (empty_path s empty) ∙ h)
  | inr (c, last) ↦ elim (Bool-cases (is_separator c)) [
    | inl ends ↦
        let dir = ended-IsDirectory s c last ends in
        subst IsDirectory (some_inj (sym dir.1 ∙ h)) dir
    | inr bare ↦
        subst IsDirectory (some_inj (sym (bare_path s c last bare) ∙ h))
          (ended-IsDirectory (s ++ b'/' ∷ []) b'/' (last_byte-append s b'/') refl)
  ]
]

-- A directory with its slash, or nothing.
abbrev pub IsPrefix : Text → Type 0
IsPrefix t = (t ≡ []) ⊎ (ends_in b'/' t ≡ true)

last_byte-none : (s : Text) → last_byte s ≡ none → s ≡ []
unfolding last_byte
last_byte-none [] h = refl
last_byte-none (a ∷ []) h = cc
last_byte-none (a ∷ b ∷ s) h = cc (last_byte-none (b ∷ s) h)

bare-prefix :
    (s : Text) (c : ℕ)
    → last_byte s ≡ some c
    → (c == b'/') ≡ false
    → set_include_prefix s ≡ s ++ b'/' ∷ []
unfolding set_include_prefix
bare-prefix s c last bare = rw (last, set_include_prefix, bare) refl

slash-prefix :
    (s : Text) (c : ℕ) → last_byte s ≡ some c → (c == b'/') ≡ true → set_include_prefix s ≡ s
unfolding set_include_prefix
slash-prefix s c last slash = rw (last, set_include_prefix, slash) refl

empty-prefix : (s : Text) → last_byte s ≡ none → set_include_prefix s ≡ s
unfolding set_include_prefix
empty-prefix s last = rw (last, set_include_prefix) refl

set_include_prefix-IsPrefix : (s : Text) → IsPrefix (set_include_prefix s)
set_include_prefix-IsPrefix s = elim (Option-cases (last_byte s)) [
  | inl empty ↦ inl (empty-prefix s empty ∙ last_byte-none s empty)
  | inr (c, last) ↦ elim (Bool-cases (c == b'/')) [
    | inl slash ↦
        inr (ap (ends_in b'/') (slash-prefix s c last slash) ∙ ends_in-last b'/' c s last ∙ slash)
    | inr bare ↦ inr (
        ap (ends_in b'/') (bare-prefix s c last bare)
        ∙ ends_in-last b'/' b'/' (s ++ b'/' ∷ []) (last_byte-append s b'/'))
  ]
]

pub include_prefix_of-IsPrefix : (t : Text) → IsPrefix (include_prefix_of t)
unfolding include_prefix_of
include_prefix_of-IsPrefix t =
    set_include_prefix-IsPrefix (elim (rfind_char b'/' t) [ none ↦ [] | some i ↦ take i t ])

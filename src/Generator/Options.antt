-- ===== src/Generator/Options.antt =====
-- Generator strings of the form that the help text gives: language[:key1=val1[,key2[,key3=val3]]].
use sparsam.Base.{
  ℕ, zero, suc, ◌<◌, ◌≤◌, ◌==◌, ◌≡◌, ◌≢◌, refl, ap, ◌∙◌, Text, text_key, Dict, insert, List, [],
  ◌∷◌, ◌++◌, All, length, length-append, none, some, Bool-cases, inl, inr, Option-cases, ==_self,
  find_char, take, drop, arith,
}
use sparsam.Generator.Registry.{parse_option, options_from, parse_generator, get_generator, ask}

-- An option as it is written: a key, with or without a value.
pub data Given : Type 0 where
  key_only : Text → Given
  key_value : Text → Text → Given

abbrev pub written : Given → Text
written (key_only k) = k
written (key_value k v) = k ++ b'=' ∷ v

abbrev pub key_of : Given → Text
key_of (key_only k) = k
key_of (key_value k v) = k

abbrev pub value_of : Given → Text
value_of (key_only k) = []
value_of (key_value k v) = v

abbrev pub LacksByte : ℕ → Text → Type 0
LacksByte c s = find_char c s ≡ none

-- No comma in it, no = in its key, and not empty.
abbrev pub IsGiven : Given → Type 0
IsGiven g = LacksByte b',' (written g) × LacksByte b'=' (key_of g) × (written g ≢ [])

abbrev pub commas : Given → List Given → Text
commas g [] = written g
commas g (h ∷ hs) = written g ++ b',' ∷ commas h hs

-- The options in their order, a later one over an earlier one of its key.
pub inserted : List Given → Dict Text Text → Dict Text Text
inserted [] m = m
inserted (g ∷ gs) m = inserted gs (insert (key_of g) (value_of g) m)

find-first : (c : ℕ) (s t : Text) → LacksByte c s → find_char c (s ++ c ∷ t) ≡ some (length s)
unfolding find_char
find-first c [] t h = rw (==_self c) refl
find-first c (a ∷ s) t h = elim (Bool-cases (a == c)) [
  | inl same ↦ absurd (cc (rw same at h))
  | inr other ↦ elim (Option-cases (find_char c s)) [
    | inl missing ↦ rw (other, find-first c s t missing) refl
    | inr (i, found) ↦ absurd (cc (rw (other, found) at h))
  ]
]

take-first : (s t : Text) → take (length s) (s ++ t) ≡ s
take-first [] t = refl
take-first (a ∷ s) t = ap (λ u. a ∷ u) (take-first s t)

drop-first : (c : ℕ) (s t : Text) → drop (suc (length s)) (s ++ c ∷ t) ≡ t
drop-first c [] t = refl
drop-first c (a ∷ s) t = drop-first c s t

parse_option-written : (g : Given) → IsGiven g → parse_option (written g) ≡ (key_of g, value_of g)
unfolding parse_option
parse_option-written (key_only k) h = rw (h.1, parse_option) refl
parse_option-written (key_value k v) h =
    rw (find-first b'=' k v h.1, parse_option) (cc (take-first k (b'=' ∷ v), drop-first b'=' k v))

options-last :
    (f : ℕ) (t : Text) (m : Dict Text Text)
    → t ≢ []
    → LacksByte b',' t
    → options_from (suc f) t m ≡ insert (parse_option t).0 (parse_option t).1 m
unfolding options_from
options-last f [] m h k = absurd (h refl)
options-last f (c ∷ t) m h k = rw (k, options_from) refl

none-first : (c i : ℕ) → find_char c [] ≢ some i
unfolding find_char
none-first c i = λ h. cc

options-next :
    (f i : ℕ) (t : Text) (m : Dict Text Text)
    → find_char b',' t ≡ some i
    → options_from (suc f) t m
      ≡ options_from f
          (drop (suc i) t)
          (insert (parse_option (take i t)).0 (parse_option (take i t)).1 m)
unfolding options_from
options-next f i [] m k = absurd (none-first b',' i k)
options-next f i (c ∷ t) m k = rw (k, options_from) refl

length_pos : (t : Text) → t ≢ [] → 0 < length t
length_pos [] h = absurd (h refl)
length_pos (c ∷ t) h = omega arith

commas_pos : (g : Given) (gs : List Given) → written g ≢ [] → 0 < length (commas g gs)
commas_pos g [] h = length_pos (written g) h
commas_pos g (i ∷ is_) h = omega (arith, length-append (written g) (b',' ∷ commas i is_))

options_from-commas :
    (f : ℕ) (g : Given) (gs : List Given) (m : Dict Text Text)
    → length (commas g gs) ≤ f
    → All IsGiven (g ∷ gs)
    → options_from f (commas g gs) m ≡ inserted (g ∷ gs) m
unfolding inserted
options_from-commas zero g gs m h k = absurd (omega (arith, commas_pos g gs k.0.2))
options_from-commas (suc f) g [] m h k =
    options-last f (written g) m k.0.2 k.0.0
    ∙ ap (λ o. insert o.0 o.1 m) (parse_option-written g k.0)
options_from-commas (suc f) g (i ∷ is_) m h k =
    options-next f (length (written g)) _ m (find-first b',' (written g) (commas i is_) k.0.0)
    ∙ rw
        (
          take-first (written g) (b',' ∷ commas i is_),
          drop-first b',' (written g) (commas i is_),
          parse_option-written g k.0,
        )
        (options_from-commas f i is_ _
          (omega (arith, length-append (written g) (b',' ∷ commas i is_))) k.1)

parse_generator-commas :
    (language : Text) (g : Given) (gs : List Given)
    → LacksByte b':' language
    → All IsGiven (g ∷ gs)
    → parse_generator (language ++ b':' ∷ commas g gs) ≡ (language, inserted (g ∷ gs) [])
unfolding parse_generator
parse_generator-commas language g gs h k =
    let whole : Text = language ++ b':' ∷ commas g gs in
    rw (find-first b':' language (commas g gs) h, parse_generator)
      (cc (
        take-first language (b':' ∷ commas g gs),
        ap (λ t. options_from (length whole) t []) (drop-first b':' language (commas g gs))
            ∙ options_from-commas (length whole) g gs []
                (omega (arith, length-append language (b':' ∷ commas g gs))) k,
      ))

-- A generator string of the form language:option,…,option is taken apart into the language and the
-- options in their order, of which a later one hides an earlier one of its key: get_generator hands
-- them to the factory that is registered for the language, and answers NULL where none is. The
-- language has no colon; an option is not empty, has no comma, and no = in its key.
pub get_generator-options :
    {Factory Made : Type 0} (make : Factory → Dict Text Text → Text → Made)
    (the_map : Dict Text Factory) (language : Text) (g : Given) (gs : List Given)
    → LacksByte b':' language
    → All IsGiven (g ∷ gs)
    → get_generator make the_map (language ++ b':' ∷ commas g gs)
      ≡ ask make the_map language (inserted (g ∷ gs) []) (language ++ b':' ∷ commas g gs)
unfolding get_generator
get_generator-options make the_map language g gs h k =
    ap
      (λ (parsed : Text × Dict Text Text).
        ask make the_map parsed.0 parsed.1 (language ++ b':' ∷ commas g gs))
      (parse_generator-commas language g gs h k)

-- ===== src/Compiler/Names.antt =====
-- compiler/src/main.cc: program_name, directory_name, include_file and skip_utf8_bom;
-- compiler/src/parse/t_program.h: set_out_path, add_include and set_include_prefix.
use sparsam.Base.{
  ℕ, suc, ◌==◌, Text, txt, text_key, Bool, true, false, ◌||◌, List, [], ◌∷◌, ◌++◌, Option, none,
  some, if◌then◌else◌, rfind_char, drop, take, is_empty,
}

-- filename.substr(slash + 1), where there is a slash
unfoldable pub after_last_slash : Text → Text
after_last_slash s = elim (rfind_char b'/' s) [ none ↦ s | some i ↦ drop (suc i) s ]

unfoldable pub program_name : Text → Text
unfolding after_last_slash
program_name filename =
    let base = after_last_slash filename in
    elim (rfind_char b'.' base) [ none ↦ base | some i ↦ take i base ]

unfoldable pub directory_name : Text → Text
directory_name filename = elim (rfind_char b'/' filename) [
  | none ↦ txt "."
  | some i ↦ take i filename
]

-- The last byte of a text, if it has one.
unfoldable pub last_byte : Text → Option ℕ
last_byte [] = none
last_byte (a ∷ s) = if is_empty s then some a else last_byte s

unfoldable pub ends_in : ℕ → Text → Bool
unfolding last_byte
ends_in c s = elim (last_byte s) [ none ↦ false | some a ↦ a == c ]

-- set_out_path; `none` is the exception of at() on an empty path.
unfoldable pub set_out_path : Text → Option Text
unfolding last_byte
set_out_path out_path = elim (last_byte out_path) [
  | none ↦ none
  | some c ↦ some (if c == b'/' || c == b'\\' then out_path else out_path ++ b'/' ∷ [])
]

unfoldable pub set_include_prefix : Text → Text
unfolding last_byte
set_include_prefix include_prefix = elim (last_byte include_prefix) [
  | none ↦ include_prefix
  | some c ↦ if c == b'/' then include_prefix else include_prefix ++ b'/' ∷ []
]

-- The prefix that add_include gives to the program included at `include_site`.
unfoldable pub include_prefix_of : Text → Text
unfolding set_include_prefix
include_prefix_of include_site =
    set_include_prefix
      (elim (rfind_char b'/' include_site) [ none ↦ [] | some i ↦ take i include_site ])

-- The end of the text that follows the three bytes of a BOM; the whole text where there is none.
unfoldable pub skip_utf8_bom : Text → Bool × Text
skip_utf8_bom (a ∷ b ∷ c ∷ f) =
    if a == 239
    then if b == 187
      then if c == 191 then (true, f) else (false, a ∷ b ∷ c ∷ f)
      else (false, a ∷ b ∷ c ∷ f)
    else (false, a ∷ b ∷ c ∷ f)
skip_utf8_bom f = (false, f)

-- include_file, over the file system: `real` is realpath where it succeeds, `exists` is stat.
module _ (real : Text → Option Text) (exists : Text → Bool) where
  unfoldable pub try_file : Text → Option Text
  try_file name = elim (real name) [ none ↦ none | some rp ↦ if exists rp then some rp else none ]

  -- The loop over the search path; an empty text where nothing is found.
  unfoldable pub search : List Text → Text → Text
  search [] filename = []
  search (dir ∷ dirs) filename =
      let rest = search dirs filename in
      elim (try_file (dir ++ b'/' ∷ filename)) [ none ↦ rest | some rp ↦ rp ]

  unfoldable pub include_file : Text → List Text → Text → Text
  unfolding search try_file
  include_file g_curdir g_incl_searchpath [] = search (g_curdir ∷ g_incl_searchpath) []
  include_file g_curdir g_incl_searchpath (a ∷ s) =
      if a == b'/'
      then elim (try_file (a ∷ s)) [ none ↦ [] | some rp ↦ rp ]
      else search (g_curdir ∷ g_incl_searchpath) (a ∷ s)

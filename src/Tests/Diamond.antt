-- ===== src/Tests/Diamond.antt =====
-- A program that includes two others, of which one includes the other: its second parse is a look-up
-- in the cache.
use sparsam.Base.{
  ℕ, ◌==◌, if◌then◌else◌, Text, txt, ◌≡◌, refl, subst, true, false, Bool-cases, inl, inr, List, [],
  ◌∷◌, map, All, find, insert, text_key, text_eq, text_lt, rfind_char, arith,
}
use sparsam.Parse.Types.{base_type, type_i64}
use sparsam.Compiler.ParseFiles.{
  declares_type, Parsing, out_of_fuel, failure, crash, Pass, done, parsed, Parsed, ProgramScopes,
  Parser, parse, scope_of, scan_includes, passed, parse_includes, parse_types, declare_all, declare,
}
use sparsam.Compiler.Names.{program_name, after_last_slash}
use sparsam.Compiler.Anew.{IsRanked, meaning}
use sparsam.Compiler.Memo.{IsCoherent, Agrees, parse-Agrees}

abbrev main : Text
main = txt "main.thrift"

abbrev shared : Text
shared = txt "shared.thrift"

abbrev user : Text
user = txt "user.thrift"

abbrev includes : Text → Pass (List Text)
includes [] = done []
includes (c ∷ s) =
    if c == b'm'
    then done (user ∷ shared ∷ [])
    else if c == b'u'
    then done (shared ∷ [])
    else done []

abbrev files : Parser
files = record {
  opens = λ path. true;
  includes_pass = includes;
  types_pass =
      λ path s. done (declares_type (txt "Id") (base_type (txt "i64") type_i64 false) ∷ []);
}

abbrev depth : Text → ℕ
depth [] = 0
depth (c ∷ s) = if c == b'm' then 2 else if c == b'u' then 1 else 0

done_injective : {A : Type 0} {a b : A} → done a ≡ done b → a ≡ b
done_injective h = cc

files-IsRanked : IsRanked files depth
files-IsRanked [] paths h = subst (All _) (done_injective h) tt
files-IsRanked (c ∷ s) paths h = elim (Bool-cases (c == b'm')) [
  | inl m ↦ rw m (subst (All _) (done_injective (rw m at h)) (omega arith, (omega arith, tt)))
  | inr other ↦ elim (Bool-cases (c == b'u')) [
    | inl u ↦ rw (other, u) (subst (All _) (done_injective (rw (other, u) at h)) (omega arith, tt))
    | inr v ↦ rw (other, v) (subst (All _) (done_injective (rw (other, v) at h)) tt)
  ]
]

empty-IsCoherent : IsCoherent files depth []
unfolding find
empty-IsCoherent path s h = absurd cc

parse-Agrees_example : Agrees files depth (meaning files depth main) (parse files 3 main [])
parse-Agrees_example =
    parse-Agrees files depth files-IsRanked 3 main [] (omega arith) empty-IsCoherent

-- The names of the types that a parse leaves in the scope.
abbrev names : Parsing (Parsed × ProgramScopes) → List Text
names out_of_fuel = []
names failure = []
names crash = []
names (parsed r) = map (λ t. t.0) r.0.scope.types

names_of_main : names (parse files 3 main []) ≡ txt "Id" ∷ txt "shared.Id" ∷ txt "user.Id" ∷ []
unfolding parse scope_of scan_includes passed parse_includes parse_types declare_all declare find
    insert program_name after_last_slash rfind_char text_eq text_lt
names_of_main = refl

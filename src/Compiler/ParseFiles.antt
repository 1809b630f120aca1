-- ===== src/Compiler/ParseFiles.antt =====
-- compiler/src/main.cc: parse; compiler/src/parse/t_scope.h: add_type, add_service.
-- The parser is made of the grammar by a tool and is a parameter: what its two passes over a file
-- ask for. The entries without a value that a look-up by operator[] leaves in a scope are not kept.
use sparsam.Base.{
  ℕ, zero, suc, Text, Bool, true, false, List, [], ◌∷◌, ◌++◌, Option, none, some, Dict, find,
  insert, text_key,
}
use sparsam.Parse.Error.{throw, ok}
use sparsam.Parse.Types.{TType, Service, Const}
use sparsam.Parse.Scope.{add_constant}
use sparsam.Compiler.Names.{program_name}

-- t_scope, with its three maps.
pub record Scope : Type 0 where
  pub types : Dict Text TType
  pub services : Dict Text Service
  pub constants : Dict Text Const

abbrev pub empty_scope : Scope
empty_scope = record { types = []; services = []; constants = [] }

-- What a definition of a file adds to the scope of its program and to that of the parent.
pub data Declaration : Type 0 where
  declares_type : Text → TType → Declaration
  declares_service : Text → Service → Declaration
  declares_constant : Text → Const → Declaration

-- What the parser comes to in a pass over a file: a parser error or an exception, a crash of the
-- compiler (strdup of the doc that is NULL), or the end of the file.
pub data Pass (A : Type 0) : Type 0 where
  refused : Pass A
  crashes : Pass A
  done : A → Pass A

-- `failure` is the end of the compiler with a message, `crash` the one by a signal.
pub data Parsing (A : Type 0) : Type 0 where
  out_of_fuel : Parsing A
  failure : Parsing A
  crash : Parsing A
  parsed : A → Parsing A

infixl 5 ◌>>=◌
abbrev pub ◌>>=◌ : {A B : Type 0} → Parsing A → (A → Parsing B) → Parsing B
out_of_fuel >>= k = out_of_fuel
failure >>= k = failure
crash >>= k = crash
parsed a >>= k = k a

-- g_scope->add_… with the prefix `pre` before the name.
unfoldable pub declare : Text → Declaration → Scope → Parsing Scope
declare pre (declares_type n t) s = parsed (record s { types = insert (pre ++ n) t s.types })
declare pre (declares_service n t) s =
    parsed (record s { services = insert (pre ++ n) t s.services })
declare pre (declares_constant n c) s = elim (add_constant (pre ++ n) c s.constants) [
  | throw e ↦ failure
  | ok cs ↦ parsed (record s { constants = cs })
]

unfoldable pub declare_all : Text → List Declaration → Scope → Parsing Scope
declare_all pre [] s = parsed s
declare_all pre (d ∷ ds) s = declare pre d s >>= declare_all pre ds

-- What parse leaves of a program: its scope, and the declarations that it made, which the parent's
-- scope gets as well.
pub record Parsed : Type 0 where
  pub scope : Scope
  pub declarations : List Declaration

-- program_to_scope
abbrev pub ProgramScopes : Type 0
ProgramScopes = Dict Text Scope

-- fopen; the paths that the first pass adds to the program's includes; the declarations that the
-- second pass makes over a scope.
pub record Parser : Type 0 where
  pub opens : Text → Bool
  pub includes_pass : Text → Pass (List Text)
  pub types_pass : Text → Scope → Pass (List Declaration)

unfoldable pub passed : {A : Type 0} → Bool → Pass A → Parsing A
passed false p = failure
passed true refused = failure
passed true crashes = crash
passed true (done a) = parsed a

-- g_parent_prefix
abbrev pub parent_prefix : Text → Text
parent_prefix path = program_name path ++ b'.' ∷ []

module _ (files : Parser) where
  unfoldable pub scan_includes : Text → Parsing (List Text)
  unfolding passed
  scan_includes path = passed (files.opens path) (files.includes_pass path)

  -- The second half of parse: the pass over the types.
  unfoldable pub parse_types : Text → Scope → Parsing Parsed
  unfolding passed declare_all
  parse_types path s = passed (files.opens path) (files.types_pass path s) >>= λ ds.
      declare_all [] ds s >>= λ t. parsed (record { scope = t; declarations = ds })

  -- The loop over the included programs, each of which is parsed with `parse_one`. What a program
  -- declares in the scope of its parent stands here behind its parse; both end the compiler where
  -- they throw.
  unfoldable pub parse_includes :
      (Text → ProgramScopes → Parsing (Parsed × ProgramScopes))
      → List Text
      → Scope
      → ProgramScopes
      → Parsing (Scope × ProgramScopes)
  unfolding declare_all
  parse_includes parse_one [] s cache = parsed (s, cache)
  parse_includes parse_one (path ∷ paths) s cache = parse_one path cache >>= λ r.
      declare_all (parent_prefix path) (r.0).declarations s >>= λ t.
      parse_includes parse_one paths t r.1

  -- The first half of parse, over the scope that the cache has of the path.
  unfoldable pub scope_of :
      (Text → ProgramScopes → Parsing (Parsed × ProgramScopes))
      → Text
      → ProgramScopes
      → Option Scope
      → Parsing (Scope × ProgramScopes)
  unfolding scan_includes parse_includes
  scope_of parse_one path cache (some s) = parsed (s, cache)
  scope_of parse_one path cache none = scan_includes path >>= λ paths.
      parse_includes parse_one paths empty_scope cache >>= λ r. parsed (r.0, insert path r.0 r.1)

  -- parse, on fuel for the depth of the includes.
  unfoldable pub parse : ℕ → Text → ProgramScopes → Parsing (Parsed × ProgramScopes)
  unfolding scope_of parse_types
  parse zero path cache = out_of_fuel
  parse (suc f) path cache = scope_of (parse f) path cache (find path cache) >>= λ r.
      parse_types path r.0 >>= λ p. parsed (p, r.1)

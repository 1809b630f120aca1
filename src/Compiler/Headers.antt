-- ===== src/Compiler/Headers.antt =====
-- compiler/src/thrifty.yy: Header and Include; compiler/src/parse/t_program.h: set_namespace,
-- add_include and add_cpp_include. Whether a generator knows the language of a namespace only
-- decides on a warning, and is not modelled; the status of the doc is in Compiler.DocStatus.
pub mod TwoPasses
use sparsam.Base.{
  ℕ, Text, txt, text_key, Dict, insert, Bool, true, false, List, [], ◌∷◌, ◌++◌, Option, none, some,
  is_empty, if◌then◌else◌,
}
use sparsam.Compiler.Names.{program_name, include_prefix_of, include_file}

-- A header with its texts, by its first token.
pub data Header : Type 0 where
  tok_include : Text → Header
  tok_namespace : Text → Text → Header
  tok_namespace_all : Text → Header
  tok_cpp_namespace tok_cpp_include tok_php_namespace tok_py_module tok_perl_package : Text → Header
  tok_ruby_namespace tok_smalltalk_category tok_smalltalk_prefix : Text → Header
  tok_java_package tok_cocoa_prefix tok_xsd_namespace tok_csharp_namespace : Text → Header
  tok_delphi_namespace : Text → Header

-- The arguments of set_namespace in the action of a header.
unfoldable pub namespace_of : Header → Option (Text × Text)
namespace_of (tok_include path) = none
namespace_of (tok_namespace language n) = some (language, n)
namespace_of (tok_namespace_all n) = some (txt "*", n)
namespace_of (tok_cpp_namespace n) = some (txt "cpp", n)
namespace_of (tok_cpp_include path) = none
namespace_of (tok_php_namespace n) = some (txt "php", n)
namespace_of (tok_py_module n) = some (txt "py", n)
namespace_of (tok_perl_package n) = some (txt "perl", n)
namespace_of (tok_ruby_namespace n) = some (txt "rb", n)
namespace_of (tok_smalltalk_category n) = some (txt "smalltalk.category", n)
namespace_of (tok_smalltalk_prefix n) = some (txt "smalltalk.prefix", n)
namespace_of (tok_java_package n) = some (txt "java", n)
namespace_of (tok_cocoa_prefix n) = some (txt "cocoa", n)
namespace_of (tok_xsd_namespace n) = some (txt "cocoa", n)
namespace_of (tok_csharp_namespace n) = some (txt "csharp", n)
namespace_of (tok_delphi_namespace n) = some (txt "delphi", n)

-- A program that add_include makes, before it is parsed.
pub record IncludedProgram : Type 0 where
  pub path : Text
  pub name : Text
  pub include_prefix : Text

-- What the headers write of a program.
pub record HeaderState : Type 0 where
  pub namespaces : Dict Text Text
  pub includes : List IncludedProgram
  pub cpp_includes : List Text

pub data ParseMode : Type 0 where
  includes_mode program_mode : ParseMode

unfoldable pub set_namespace : Text → Text → HeaderState → HeaderState
set_namespace language name_space p = record p {
  namespaces = insert language name_space p.namespaces;
}

unfoldable pub add_include : Text → Text → HeaderState → HeaderState
add_include path include_site p = record p {
  includes =
      p.includes
      ++ record {
        path = path;
        name = program_name path;
        include_prefix = include_prefix_of include_site;
      }
        ∷ [];
}

-- The file system and the search path, as include_file has them.
module _ (real : Text → Option Text) (exists : Text → Bool) (g_curdir : Text)
    (dirs : List Text) where
  -- The action of Include in the pass over the includes.
  unfoldable pub include : Text → HeaderState → HeaderState
  unfolding add_include
  include literal p =
      let path = include_file real exists g_curdir dirs literal in
      if is_empty path then p else add_include path literal p

  -- Header in the pass over the types.
  unfoldable pub program_header : Header → HeaderState → HeaderState
  unfolding namespace_of set_namespace
  program_header (tok_cpp_include path) p = record p { cpp_includes = p.cpp_includes ++ path ∷ [] }
  program_header h p = elim (namespace_of h) [
    | none ↦ p
    | some (language, n) ↦ set_namespace language n p
  ]

  unfoldable pub header : ParseMode → Header → HeaderState → HeaderState
  unfolding include program_header
  header includes_mode (tok_include literal) p = include literal p
  header includes_mode h p = p
  header program_mode h p = program_header h p

  -- HeaderList
  unfoldable pub header_list : ParseMode → List Header → HeaderState → HeaderState
  unfolding header
  header_list mode [] p = p
  header_list mode (h ∷ hs) p = header_list mode hs (header mode h p)

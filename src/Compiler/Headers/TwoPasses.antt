-- ===== src/Compiler/Headers/TwoPasses.antt =====
-- What the two passes over a file leave of its headers.
use sparsam.Base.{
  Text, txt, text_eq, text_key, Dict, find, insert, find-insert, Bool, true, false, ◌≡◌, refl, sym,
  ap, ◌∙◌, inl, inr, List, [], ◌∷◌, ◌++◌, append_assoc, append-nil, All, Option, none, some,
  Option-cases, is_empty, subst, if◌then◌else◌,
}
use sparsam.Parse.Collisions.{get_namespace}
use sparsam.Compiler.Names.{program_name, include_prefix_of, include_file}
use sparsam.Compiler.NamesEnd.{IsPrefix, include_prefix_of-IsPrefix}
use sparsam.Compiler.Headers.{
  Header, tok_include, tok_cpp_include, tok_namespace, tok_namespace_all, tok_cpp_namespace,
  tok_php_namespace, tok_py_module, tok_perl_package, tok_ruby_namespace, tok_smalltalk_category,
  tok_smalltalk_prefix, tok_java_package, tok_cocoa_prefix, tok_xsd_namespace, tok_csharp_namespace,
  tok_delphi_namespace, namespace_of, IncludedProgram, HeaderState, includes_mode, program_mode,
  set_namespace, add_include, include, program_header, header, header_list,
}

abbrev pub no_headers : HeaderState
no_headers = record { namespaces = []; includes = []; cpp_includes = [] }

abbrev or_else : Option Text → Option Text → Option Text
or_else none b = b
or_else (some a) b = some a

abbrev set_by : Text → Option (Text × Text) → Option Text
set_by l none = none
set_by l (some (m, n)) = if text_eq m l then some n else none

-- The language of a header and its namespace, as the warning on the header spells the language.
pub advised : Header → Option (Text × Text)
advised (tok_namespace language n) = some (language, n)
advised (tok_namespace_all n) = some (txt "*", n)
advised (tok_cpp_namespace n) = some (txt "cpp", n)
advised (tok_php_namespace n) = some (txt "php", n)
advised (tok_py_module n) = some (txt "py", n)
advised (tok_perl_package n) = some (txt "perl", n)
advised (tok_ruby_namespace n) = some (txt "rb", n)
advised (tok_smalltalk_category n) = some (txt "smalltalk.category", n)
advised (tok_smalltalk_prefix n) = some (txt "smalltalk.prefix", n)
advised (tok_java_package n) = some (txt "java", n)
advised (tok_cocoa_prefix n) = some (txt "cocoa", n)
advised (tok_xsd_namespace n) = some (txt "xsd", n)
advised (tok_csharp_namespace n) = some (txt "csharp", n)
advised (tok_delphi_namespace n) = some (txt "delphi", n)
advised h = none

-- Any header but the one for XSD.
abbrev pub IsKept : Header → Type 0
IsKept (tok_xsd_namespace n) = ⊥
IsKept h = Unit

namespace_of-advised : (h : Header) → IsKept h → namespace_of h ≡ advised h
unfolding namespace_of advised
namespace_of-advised (tok_xsd_namespace n) k = absurd k
namespace_of-advised (tok_include path) k = refl
namespace_of-advised (tok_cpp_include path) k = refl
namespace_of-advised (tok_namespace language n) k = refl
namespace_of-advised (tok_namespace_all n) k = refl
namespace_of-advised (tok_cpp_namespace n) k = refl
namespace_of-advised (tok_php_namespace n) k = refl
namespace_of-advised (tok_py_module n) k = refl
namespace_of-advised (tok_perl_package n) k = refl
namespace_of-advised (tok_ruby_namespace n) k = refl
namespace_of-advised (tok_smalltalk_category n) k = refl
namespace_of-advised (tok_smalltalk_prefix n) k = refl
namespace_of-advised (tok_java_package n) k = refl
namespace_of-advised (tok_cocoa_prefix n) k = refl
namespace_of-advised (tok_csharp_namespace n) k = refl
namespace_of-advised (tok_delphi_namespace n) k = refl

-- The namespace that the last header for a language gives.
pub last_namespace : Text → List Header → Option Text
last_namespace l [] = none
last_namespace l (h ∷ hs) = or_else (last_namespace l hs) (set_by l (advised h))

abbrev pub text_of : Option Text → Text
text_of none = []
text_of (some n) = n

abbrev set_all : Option (Text × Text) → Dict Text Text → Dict Text Text
set_all none m = m
set_all (some (l, n)) m = insert l n m

-- The paths of the headers cpp_include.
cpp_of : Header → List Text
cpp_of (tok_cpp_include path) = path ∷ []
cpp_of h = []

pub cpp_paths : List Header → List Text
unfolding cpp_of
cpp_paths [] = []
cpp_paths (h ∷ hs) = cpp_of h ++ cpp_paths hs

if_else :
    (b : Bool) (n : Text) (o : Option Text)
    → (if b then some n else o) ≡ or_else (if b then some n else none) o
if_else true n o = refl
if_else false n o = refl

or_else_assoc : (a b c : Option Text) → or_else (or_else a b) c ≡ or_else a (or_else b c)
or_else_assoc none b c = refl
or_else_assoc (some n) b c = refl

find-set_all :
    (l : Text) (o : Option (Text × Text)) (m : Dict Text Text)
    → find l (set_all o m) ≡ or_else (set_by l o) (find l m)
find-set_all l none m = refl
find-set_all l (some (k, n)) m = find-insert k l n m ∙ if_else (text_eq k l) n (find l m)

get_namespace-eq :
    (l : Text) (m : Dict Text Text)
    → get_namespace l m ≡ text_of (or_else (find l m) (find (txt "*") m))
unfolding get_namespace
get_namespace-eq l m = elim (Option-cases (find l m)) [
  | inl missing ↦ rw (missing, get_namespace) refl
  | inr (n, there) ↦ rw (there, get_namespace) refl
]

or_else-none : (o : Option Text) → or_else o none ≡ o
or_else-none none = refl
or_else-none (some n) = refl

module _ (real : Text → Option Text) (exists : Text → Bool) (g_curdir : Text)
    (dirs : List Text) where
  -- What an include makes, if its file is found.
  abbrev included_at : Text → Text → List IncludedProgram
  included_at literal path =
      if is_empty path
      then []
      else record {
        path = path;
        name = program_name path;
        include_prefix = include_prefix_of literal;
      }
        ∷ []

  found_of : Header → List IncludedProgram
  found_of (tok_include literal) =
      included_at literal (include_file real exists g_curdir dirs literal)
  found_of h = []

  -- The included programs in the order of the headers.
  pub found : List Header → List IncludedProgram
  unfolding found_of
  found [] = []
  found (h ∷ hs) = found_of h ++ found hs

  add-cases :
      (b : Bool) (path literal : Text) (p : HeaderState)
      → is_empty path ≡ b
      → (if is_empty path then p else add_include path literal p)
        ≡ record p { includes = p.includes ++ included_at literal path }
  unfolding add_include
  add-cases true path literal p h =
      rw h (ap (λ is. record p { includes = is }) (sym (append-nil p.includes)))
  add-cases false path literal p h = rw h refl

  includes_header-eq :
      (h : Header) (p : HeaderState)
      → header real exists g_curdir dirs includes_mode h p
        ≡ record p { includes = p.includes ++ found_of h }
  unfolding header include found_of
  includes_header-eq (tok_include literal) p =
      add-cases _ (include_file real exists g_curdir dirs literal) literal p refl
  includes_header-eq h p = ap (λ is. record p { includes = is }) (sym (append-nil p.includes))

  program_header-eq :
      (h : Header) (p : HeaderState)
      → header real exists g_curdir dirs program_mode h p ≡ record p {
        namespaces = set_all (namespace_of h) p.namespaces;
        cpp_includes = p.cpp_includes ++ cpp_of h;
      }
  unfolding header program_header set_namespace cpp_of
  program_header-eq (tok_cpp_include path) p = refl
  program_header-eq h p =
      ap (λ cs. record p { namespaces = set_all (namespace_of h) p.namespaces; cpp_includes = cs })
        (sym (append-nil p.cpp_includes))

  includes_pass :
      (hs : List Header) (p : HeaderState)
      → header_list real exists g_curdir dirs includes_mode hs p
        ≡ record p { includes = p.includes ++ found hs }
  unfolding header_list found
  includes_pass [] p = ap (λ is. record p { includes = is }) (sym (append-nil p.includes))
  includes_pass (h ∷ hs) p =
      ap (header_list real exists g_curdir dirs includes_mode hs) (includes_header-eq h p)
      ∙ includes_pass hs (record p { includes = p.includes ++ found_of h })
      ∙ ap (λ is. record p { includes = is }) (append_assoc p.includes (found_of h) (found hs))

  -- The second pass leaves the includes, and adds the rest.
  abbrev Passed : List Header → HeaderState → HeaderState → Type 0
  Passed hs p q =
      (q.includes ≡ p.includes)
      × (q.cpp_includes ≡ p.cpp_includes ++ cpp_paths hs)
      × ((l : Text) → find l q.namespaces ≡ or_else (last_namespace l hs) (find l p.namespaces))

  program_pass :
      (hs : List Header) (p : HeaderState)
      → All IsKept hs
      → Passed hs p (header_list real exists g_curdir dirs program_mode hs p)
  unfolding header_list last_namespace cpp_paths
  program_pass [] p kept = (refl, sym (append-nil p.cpp_includes), λ l. refl)
  program_pass (h ∷ hs) p kept =
      let next : HeaderState = record p {
        namespaces = set_all (namespace_of h) p.namespaces;
        cpp_includes = p.cpp_includes ++ cpp_of h;
      } in
      let rest = program_pass hs next kept.1 in
      subst (λ q. Passed (h ∷ hs) p (header_list real exists g_curdir dirs program_mode hs q))
        (sym (program_header-eq h p))
        (
          rest.0,
          rest.1 ∙ append_assoc p.cpp_includes (cpp_of h) (cpp_paths hs),
          λ l.
              rest.2 l
              ∙ ap (or_else (last_namespace l hs)) (find-set_all l (namespace_of h) p.namespaces)
              ∙ ap (λ o. or_else (last_namespace l hs) (or_else (set_by l o) (find l p.namespaces)))
                  (namespace_of-advised h kept.0)
              ∙ sym (or_else_assoc (last_namespace l hs) _ _),
        )

  prefixed :
      (literal path : Text) (is : List IncludedProgram)
      → All (λ i. IsPrefix i.include_prefix) is
      → All (λ i. IsPrefix i.include_prefix) (included_at literal path ++ is)
  prefixed literal [] is h = h
  prefixed literal (a ∷ path) is h = (include_prefix_of-IsPrefix literal, h)

  found-IsPrefix : (hs : List Header) → All (λ i. IsPrefix i.include_prefix) (found hs)
  unfolding found found_of
  found-IsPrefix [] = tt
  found-IsPrefix (tok_include literal ∷ hs) =
      prefixed literal (include_file real exists g_curdir dirs literal) (found hs)
        (found-IsPrefix hs)
  found-IsPrefix (h ∷ hs) = found-IsPrefix hs

  abbrev pub Headed : List Header → HeaderState → Type 0
  Headed hs p =
      (p.includes ≡ found hs)
      × All (λ i. IsPrefix i.include_prefix) p.includes
      × (p.cpp_includes ≡ cpp_paths hs)
      × ((l : Text)
          → get_namespace l p.namespaces
            ≡ text_of (or_else (last_namespace l hs) (last_namespace (txt "*") hs)))

  Passed-Headed :
      (hs : List Header) (q : HeaderState)
      → Passed hs (record no_headers { includes = found hs }) q
      → Headed hs q
  unfolding find
  Passed-Headed hs q (same, paths, spaces) =
      let space : (l : Text) → find l q.namespaces ≡ last_namespace l hs =
        λ l. spaces l ∙ or_else-none (last_namespace l hs) in
      (
        same,
        subst (All (λ i. IsPrefix i.include_prefix)) (sym same) (found-IsPrefix hs),
        paths,
        λ l. get_namespace-eq l q.namespaces ∙ rw (space l, space (txt "*")) refl,
      )

  -- The pass over the includes and the pass over the types, over the headers of a file, leave a
  -- program with the files that its includes were found at, in their order, each with a prefix that
  -- is empty or ends in a slash, and with the paths of its C++ includes. The namespace for a
  -- language is then that of its last header, where there is none that of the last one for all
  -- languages, and empty where there is none either. A header is for the language that the warning
  -- on it names, such as py for py_module; no header is an xsd_namespace.
  pub header_list-twice :
      (hs : List Header)
      → All IsKept hs
      → Headed hs (
          header_list real exists g_curdir dirs program_mode hs
            (header_list real exists g_curdir dirs includes_mode hs no_headers))
  header_list-twice hs kept =
      subst (λ p. Headed hs (header_list real exists g_curdir dirs program_mode hs p))
        (sym (includes_pass hs no_headers))
        (Passed-Headed hs _ (program_pass hs (record no_headers { includes = found hs }) kept))

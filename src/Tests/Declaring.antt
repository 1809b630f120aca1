-- ===== src/Tests/Declaring.antt =====
-- The definitions and the headers of a file, as the grammar reads them.
use sparsam.Base.{
  ℕ, Text, txt, ◌≡◌, refl, List, [], ◌∷◌, Bool, true, false, some, any, ◌⊎◌, text_eq, find, insert,
}
use sparsam.Parse.Error.{ok, throw, type_defined}
use sparsam.Parse.Collisions.{Named, Declared, get_namespace}
use sparsam.Parse.Definitions.{
  Definition, const, typedef, struct, service, definition_list, type_of,
}
use sparsam.Parse.Definitions.Shared.{unique_types}
use sparsam.Parse.Definitions.Types.{declares, types_onto, Apart}
use sparsam.Parse.Definitions.UniqueTypes.{definition_list_unique}
use sparsam.Compiler.Headers.{
  Header, tok_include, tok_namespace, tok_namespace_all, tok_ruby_namespace, tok_xsd_namespace,
  tok_cpp_include, program_mode, includes_mode, header_list, header,
}
use sparsam.Compiler.Headers.TwoPasses.{header_list-twice, no_headers, Headed}

abbrev named : ℕ → Text → Named
named a n = record { address = a; name = n }

abbrev program : ℕ → Text → List Named → Declared
program a n ts = record {
  address = a;
  namespaces = (txt "rb", n) ∷ [];
  typedefs = ts;
  enums = [];
  objects = [];
  services = [];
}

-- A program that includes another one, which has a type of the same name in its own namespace.
abbrev shop : Declared
shop = program 10 (txt "Shop") []

abbrev stock : List Declared
stock = program 11 (txt "Stock") (named 1 (txt "Item") ∷ []) ∷ []

abbrev definitions : List Definition
definitions =
    typedef (named 2 (txt "Price"))
    ∷ const
    ∷ struct (named 3 (txt "Item"))
    ∷ service (named 4 (txt "Orders"))
    ∷ []

definitions-Apart : Apart definitions []
unfolding Apart type_of
definitions-Apart = (tt, ((refl, tt), ((refl, (refl, tt)), tt)))

nothing_declared : (P : Named → Bool) → declares P shop ≡ false
unfolding declares
nothing_declared P = refl

definition_list_unique_example :
    ((unique_types shop stock definitions [] ≡ true)
      × ((q : Declared) × (definition_list stock definitions shop ≡ ok q)
          × ((P : Named → Bool) → declares P q ≡ any P (types_onto definitions []))))
    ⊎ ((unique_types shop stock definitions [] ≡ false)
        × ((n : Text) × (definition_list stock definitions shop ≡ throw (type_defined n))))
unfolding find text_eq
definition_list_unique_example =
    definition_list_unique shop stock (refl, tt) ((refl, tt), tt) definitions definitions-Apart
      nothing_declared

abbrev headers : List Header
headers =
    tok_namespace_all (txt "shop")
    ∷ tok_include (txt "base/stock.thrift")
    ∷ tok_namespace (txt "rb") (txt "Shop")
    ∷ tok_include (txt "lost.thrift")
    ∷ tok_ruby_namespace (txt "Shop")
    ∷ tok_cpp_include (txt "<map>")
    ∷ []

abbrev there : Text → Bool
there f = text_eq f (txt "src/base/stock.thrift")

header_list-twice_example : Headed some there (txt "src") [] headers (
    header_list some there
      (txt "src")
      []
      program_mode
      headers
      (header_list some there (txt "src") [] includes_mode headers no_headers))
header_list-twice_example =
    header_list-twice some there (txt "src") [] headers (tt, (tt, (tt, (tt, (tt, (tt, tt))))))

-- The namespace for XSD is written as the one for Cocoa.
xsd_lost :
    get_namespace
      (txt "xsd")
      (header_list some there
        (txt "src")
        []
        program_mode
        (tok_xsd_namespace (txt "x") ∷ [])
        no_headers).namespaces
    ≡ []
unfolding get_namespace header_list header find insert text_eq
xsd_lost = refl

-- ===== src/Generator/Enums.antt =====
-- compiler/src/generate/t_ruby_generator.cc: generate_enum.
use sparsam.Base.{Text, txt, List, [], ◌∷◌, ◌++◌, decimal}
use sparsam.Parse.Enum.{Enum, EnumValue}
use sparsam.Generator.Naming.{capitalize}
use sparsam.Generator.Stream.{Out, ◌>>◌, put, begin, line, indented, each}
use sparsam.Generator.Docs.{generate_rdoc}

unfoldable pub constant_line : EnumValue → Out
constant_line c = generate_rdoc c.doc >> line (capitalize c.name ++ txt " = " ++ decimal c.value)

-- A loop that writes ", " before each item but the first.
unfoldable pub more_items : (EnumValue → Text) → List EnumValue → Text
more_items show [] = []
more_items show (c ∷ cs) = txt ", " ++ show c ++ more_items show cs

unfoldable pub items : (EnumValue → Text) → List EnumValue → Text
items show [] = []
items show (c ∷ cs) = show c ++ more_items show cs

unfoldable pub value_item : EnumValue → Text
value_item c = decimal c.value ++ txt " => \"" ++ capitalize c.name ++ b'"' ∷ []

unfoldable pub name_item : EnumValue → Text
name_item c = b'"' ∷ capitalize c.name ++ txt "\" => " ++ decimal c.value

unfoldable pub generate_enum : Enum → Out
generate_enum e =
    line (txt "module " ++ capitalize e.name)
    >> indented (
        each constant_line e.constants
        >> begin (txt "VALUE_MAP = {")
        >> put (items value_item e.constants)
        >> put (txt "}\n")
        >> begin (txt "INVERTED_VALUE_MAP = {")
        >> put (items name_item e.constants)
        >> put (txt "}\n")
        >> begin (txt "VALID_VALUES = Set.new([")
        >> put (items (λ c. capitalize c.name) e.constants)
        >> put (txt "]).freeze\n"))
    >> line (txt "end\n")

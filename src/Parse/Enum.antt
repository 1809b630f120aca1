-- ===== src/Parse/Enum.antt =====
-- compiler/src/parse/t_enum.h and t_enum_value.h.
use sparsam.Base.{
  ℤ, ltb_ℤ, eqb_ℤ, Text, text_eq, List, [], ◌∷◌, ◌++◌, Option, none, some, if◌then◌else◌,
}

pub record EnumValue : Type 0 where
  pub name : Text
  pub value : ℤ
  pub doc : Option Text

pub record Enum : Type 0 where
  pub name : Text
  pub constants : List EnumValue

unfoldable pub append : EnumValue → Enum → Enum
append c e = record e { constants = e.constants ++ c ∷ [] }

unfoldable pub constant_by_name : Text → List EnumValue → Option EnumValue
constant_by_name n [] = none
constant_by_name n (c ∷ cs) = if text_eq c.name n then some c else constant_by_name n cs

unfoldable pub get_constant_by_name : Text → Enum → Option EnumValue
unfolding constant_by_name
get_constant_by_name n e = constant_by_name n e.constants

unfoldable pub constant_by_value : ℤ → List EnumValue → Option EnumValue
constant_by_value v [] = none
constant_by_value v (c ∷ cs) = if eqb_ℤ c.value v then some c else constant_by_value v cs

unfoldable pub get_constant_by_value : ℤ → Enum → Option EnumValue
unfolding constant_by_value
get_constant_by_value v e = constant_by_value v e.constants

-- The loop of get_min_value, from the least constant so far.
unfoldable pub min_loop : EnumValue → List EnumValue → EnumValue
min_loop m [] = m
min_loop m (c ∷ cs) = min_loop (if ltb_ℤ c.value m.value then c else m) cs

unfoldable pub min_value : List EnumValue → Option EnumValue
unfolding min_loop
min_value [] = none
min_value (c ∷ cs) = some (min_loop c (c ∷ cs))

unfoldable pub get_min_value : Enum → Option EnumValue
unfolding min_value
get_min_value e = min_value e.constants

unfoldable pub max_loop : EnumValue → List EnumValue → EnumValue
max_loop m [] = m
max_loop m (c ∷ cs) = max_loop (if ltb_ℤ m.value c.value then c else m) cs

-- constants_.back()
unfoldable pub back : EnumValue → List EnumValue → EnumValue
back c [] = c
back c (d ∷ ds) = back d ds

unfoldable pub max_value : List EnumValue → Option EnumValue
unfolding max_loop back
max_value [] = none
max_value (c ∷ cs) = some (max_loop (back c cs) (c ∷ cs))

unfoldable pub get_max_value : Enum → Option EnumValue
unfolding max_value
get_max_value e = max_value e.constants

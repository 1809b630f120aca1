-- ===== src/Generator/Registry.antt =====
-- compiler/src/generate/t_generator.cc: t_generator_registry. A factory is known by its short name;
-- what it makes is a parameter.
use sparsam.Base.{
  ℕ, zero, suc, Text, text_key, Dict, find, insert, [], ◌∷◌, Option, none, some, find_char, take,
  drop, length,
}

-- One round of the loop over the options: key=value, or a key alone.
unfoldable pub parse_option : Text → Text × Text
parse_option option = elim (find_char b'=' option) [
  | none ↦ (option, [])
  | some i ↦ (take i option, drop (suc i) option)
]

-- The loop, from pos on: it runs while a byte is left. Each round takes at least one byte, so that
-- as many rounds as bytes are enough.
unfoldable pub options_from : ℕ → Text → Dict Text Text → Dict Text Text
options_from zero s parsed_options = parsed_options
options_from (suc f) [] parsed_options = parsed_options
options_from (suc f) (c ∷ s) parsed_options = elim (find_char b',' (c ∷ s)) [
  | none ↦ let (key, value) = parse_option (c ∷ s) in insert key value parsed_options
  | some i ↦
      let (key, value) = parse_option (take i (c ∷ s)) in
      options_from f (drop (suc i) (c ∷ s)) (insert key value parsed_options)
]

-- The language and the options of a generator string.
unfoldable pub parse_generator : Text → Text × Dict Text Text
parse_generator options = elim (find_char b':' options) [
  | none ↦ (options, [])
  | some colon ↦ (take colon options, options_from (length options) (drop (suc colon) options) [])
]

module _ {Factory : Type 0} where
  -- `none` is the failure: it prints the message and exits.
  unfoldable pub register_generator :
      Text → Factory → Dict Text Factory → Option (Dict Text Factory)
  register_generator short_name factory the_map = elim (find short_name the_map) [
    | some other ↦ none
    | none ↦ some (insert short_name factory the_map)
  ]

  module _ {Made : Type 0} (make : Factory → Dict Text Text → Text → Made) where
    -- The factory of a language, asked for a generator; `none` is NULL.
    unfoldable pub ask : Dict Text Factory → Text → Dict Text Text → Text → Option Made
    ask the_map language parsed_options options = elim (find language the_map) [
      | none ↦ none
      | some factory ↦ some (make factory parsed_options options)
    ]

    unfoldable pub get_generator : Dict Text Factory → Text → Option Made
    get_generator the_map options =
        ask the_map (parse_generator options).0 (parse_generator options).1 options

-- ===== src/Tests/Generating.antt =====
-- The generator on small inputs: names, texts, comments and the registry.
use sparsam.Base.{
  ℕ, pos, Text, txt, text_key, text_eq, Dict, find, insert, ◌≡◌, ◌↔◌, refl, List, [], ◌∷◌, ◌++◌,
  false, some, any, All, find_char,
}
use sparsam.Parse.Error.{ok}
use sparsam.Generator.Naming.{underscore, tolower, underscore_rest}
use sparsam.Generator.Escape.{escape_string, escape_byte, escape_of}
use sparsam.Generator.Quoted.{read_q, shown, shown_byte, is_control, read_q-escape_string}
use sparsam.Generator.Stream.{Stream, margin}
use sparsam.Generator.Docs.{generate_rdoc}
use sparsam.Generator.Comments.{IsOneLine, prefixed, legible, lines_from, generate_rdoc-lines}
use sparsam.Generator.Modules.{prefix_loop, last_prefix, rb_namespace_to_path_prefix}
use sparsam.Generator.Registry.{get_generator, register_generator, ask}
use sparsam.Generator.Options.{Given, key_only, key_value, inserted, get_generator-options}

-- The text a"b with a line feed behind it.
read_q-escape_string_example :
    (read_q [] (escape_string (txt "a\"b\n") ++ b'"' ∷ txt ",")
      ≡ some (shown (txt "a\"b\n"), txt ","))
    × ((shown (txt "a\"b\n") ≡ txt "a\"b\n") ↔ (any is_control (txt "a\"b\n") ≡ false))
read_q-escape_string_example = read_q-escape_string (txt "a\"b\n") (txt ",")

-- What Ruby reads for it is not it.
shown_line_feed : shown (txt "b\n") ≡ txt "b\\n"
unfolding shown shown_byte is_control escape_byte escape_of
shown_line_feed = refl

abbrev at_margin : Stream
at_margin = record { written = []; level = pos 1 }

generate_rdoc-lines_example :
    (generate_rdoc (some (txt "one\ntwo\n")) at_margin
      ≡ ok (record at_margin {
        written =
            []
            ++ margin (pos 1)
            ++ prefixed (txt "# ") (legible (lines_from [] (txt "one\ntwo\n")));
      }))
    × All IsOneLine (legible (lines_from [] (txt "one\ntwo\n")))
generate_rdoc-lines_example = generate_rdoc-lines (txt "one\ntwo\n") at_margin

prefix_my_shop : rb_namespace_to_path_prefix (txt "my.ShopFront") ≡ txt "my/shop_front/"
unfolding rb_namespace_to_path_prefix prefix_loop find_char underscore tolower underscore_rest
    last_prefix
prefix_my_shop = refl

-- The factory here answers what it is given.
abbrev registry : Dict Text ℕ
registry = (txt "ruby", 7) ∷ []

abbrev options : List Given
options = key_value (txt "out") (txt "x") ∷ []

abbrev hand : ℕ → Dict Text Text → Text → ℕ × Dict Text Text × Text
hand n parsed_options option_string = (n, parsed_options, option_string)

get_generator-options_example :
    get_generator hand registry (txt "ruby:namespaced,out=x")
    ≡ ask hand registry
        (txt "ruby")
        (inserted (key_only (txt "namespaced") ∷ options) [])
        (txt "ruby:namespaced,out=x")
unfolding find_char
get_generator-options_example =
    get_generator-options hand registry (txt "ruby") (key_only (txt "namespaced")) options refl
      ((refl, refl, λ h. cc), ((refl, refl, λ h. cc), tt))

registered : register_generator (txt "java") 8 registry ≡ some (insert (txt "java") 8 registry)
unfolding register_generator find insert text_eq
registered = refl

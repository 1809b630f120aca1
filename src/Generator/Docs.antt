-- ===== src/Generator/Docs.antt =====
-- compiler/src/generate/t_generator.cc: generate_docstring_comment, whose own indentation the Ruby
-- generator never raises; t_ruby_generator.cc: generate_rdoc. A doc is a C string: no byte of it is 0.
use sparsam.Base.{
  ℕ, ◌+◌, ◌==◌, if◌then◌else◌, Text, txt, [], ◌∷◌, ◌++◌, is_empty, Option, none, some,
}
use sparsam.Generator.Stream.{Out, ◌>>◌, put, indent, pass}

-- The loop over the lines: `line` is what getline has read so far, `n` its length. A line of 1023
-- bytes that does not end there fills the buffer, and the stream fails.
unfoldable pub comment_lines : Text → Text → ℕ → Text → Text
comment_lines line_prefix line n [] =
    if is_empty line then [] else line_prefix ++ line ++ b'\n' ∷ []
comment_lines line_prefix line n (c ∷ s) =
    let next = comment_lines line_prefix [] 0 s in
    let more = comment_lines line_prefix (line ++ c ∷ []) (n + 1) s in
    if c == b'\n'
    then line_prefix ++ line ++ b'\n' ∷ next
    else if n == 1023
    then line_prefix ++ line ++ b'\n' ∷ []
    else more

unfoldable pub generate_docstring_comment : Text → Text → Text → Text → Out
generate_docstring_comment comment_start line_prefix contents comment_end =
    put comment_start >> put (comment_lines line_prefix [] 0 contents) >> put comment_end

unfoldable pub generate_rdoc : Option Text → Out
generate_rdoc none = pass
generate_rdoc (some doc) = indent >> generate_docstring_comment [] (txt "# ") doc []

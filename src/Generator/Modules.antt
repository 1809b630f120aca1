-- ===== src/Generator/Modules.antt =====
-- compiler/src/generate/t_ruby_generator.cc: the modules and the path of a namespace. The loops run
-- on fuel: each round leaves a shorter text, so that more than the text's length is enough.
use sparsam.Base.{
  ℕ, zero, suc, Text, List, [], ◌∷◌, ◌++◌, none, some, find_char, take, drop, length,
}
use sparsam.Generator.Naming.{capitalize, underscore}

-- The loop of ruby_modules.
unfoldable pub modules_loop : ℕ → Text → List Text
modules_loop zero s = []
modules_loop (suc f) s = elim (find_char b'.' s) [
  | none ↦ capitalize s ∷ []
  | some i ↦ capitalize (take i s) ∷ modules_loop f (drop (suc i) s)
]

-- ruby_modules of a program whose namespace is the text.
unfoldable pub modules : Text → List Text
modules [] = []
modules (c ∷ s) = modules_loop (suc (length (c ∷ s))) (c ∷ s)

-- What rb_namespace_to_path_prefix adds behind its loop.
unfoldable pub last_prefix : Text → Text
last_prefix [] = []
last_prefix (c ∷ s) = underscore (c ∷ s) ++ b'/' ∷ []

unfoldable pub prefix_loop : ℕ → Text → Text → Text
prefix_loop zero path_prefix left = path_prefix
prefix_loop (suc f) path_prefix left = elim (find_char b'.' left) [
  | none ↦ path_prefix ++ last_prefix left
  | some i ↦
      prefix_loop f (path_prefix ++ underscore (take i left) ++ b'/' ∷ []) (drop (suc i) left)
]

unfoldable pub rb_namespace_to_path_prefix : Text → Text
rb_namespace_to_path_prefix ns = prefix_loop (suc (length ns)) [] ns

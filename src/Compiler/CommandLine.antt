-- ===== src/Compiler/CommandLine.antt =====
-- compiler/src/main.cc: the options of main, usage, help and check_is_directory. realpath and the
-- stat of check_is_directory are parameters; what is printed is not kept.
use sparsam.Base.{
  ℕ, zero, suc, ◌==◌, Text, txt, text_eq, Bool, true, false, ◌&&◌, ◌||◌, List, [], ◌∷◌, ◌++◌,
  length, is_empty, Option, none, some, if◌then◌else◌,
}

-- The globals and the locals of main that the options set.
pub record Options : Type 0 where
  pub g_debug : Bool
  pub g_warn : ℕ
  pub g_strict : ℕ
  pub g_verbose : Bool
  pub gen_recurse : Bool
  pub g_allow_neg_field_keys : Bool
  pub g_allow_64bit_consts : Bool
  pub g_incl_searchpath : List Text
  pub generator_strings : List Text
  pub namespaced_option : Bool
  pub out_path : Text
  pub out_path_is_absolute : Bool
  pub g_audit : Bool
  pub old_input_file : Text
  pub g_audit_fatal : Bool
  pub old_thrift_include_path : Text
  pub new_thrift_include_path : Text

abbrev pub defaults : Options
defaults = record {
  g_debug = false;
  g_warn = 1;
  g_strict = 127;
  g_verbose = false;
  gen_recurse = false;
  g_allow_neg_field_keys = false;
  g_allow_64bit_consts = false;
  g_incl_searchpath = [];
  generator_strings = [];
  namespaced_option = false;
  out_path = [];
  out_path_is_absolute = false;
  g_audit = false;
  old_input_file = [];
  g_audit_fatal = true;
  old_thrift_include_path = [];
  new_thrift_include_path = [];
}

-- Where the compiler ends early.
pub data Stop : Type 0 where
  usage : Stop
  help : Stop
  version : Stop
  failure : Stop
  no_directory : Stop

-- exit of usage, help, version and failure, and main's return -1, as a shell sees it
unfoldable pub stop_status : Stop → ℕ
stop_status usage = 1
stop_status help = 1
stop_status version = 0
stop_status failure = 1
stop_status no_directory = 255

pub data Reading (A : Type 0) : Type 0 where
  out_of_fuel : Reading A
  crash : Reading A
  stop : Stop → Reading A
  ready : A → Reading A

infixl 5 ◌>>=◌
abbrev pub ◌>>=◌ : {A B : Type 0} → Reading A → (A → Reading B) → Reading B
out_of_fuel >>= k = out_of_fuel
crash >>= k = crash
stop e >>= k = stop e
ready a >>= k = k a

-- What an option does: it ends the compiler, it sets something, or it takes the next argument.
pub data Kind : Type 0 where
  stops : Stop → Kind
  sets : (Options → Options) → Kind
  takes : (Text → Options → Reading Options) → Kind

-- strtok(s, " ") until it answers NULL. The word so far is the second argument.
unfoldable pub tokens_from : Text → Text → List Text
tokens_from word [] = if is_empty word then [] else word ∷ []
tokens_from word (c ∷ s) =
    let rest = tokens_from [] s in
    let longer = tokens_from (word ++ c ∷ []) s in
    if c == b' ' then if is_empty word then rest else word ∷ rest else longer

unfoldable pub tokens : Text → List Text
unfolding tokens_from
tokens s = tokens_from [] s

unfoldable pub single_dash : Text → Text
single_dash (a ∷ b ∷ s) = if a == b'-' && b == b'-' then b ∷ s else a ∷ b ∷ s
single_dash s = s

-- The two comparisons of the last argument.
unfoldable pub ending : Text → Option Stop
ending arg =
    if text_eq arg (txt "-help") || text_eq arg (txt "--help")
    then some help
    else if text_eq arg (txt "-version") || text_eq arg (txt "--version")
    then some version
    else none

unfoldable pub last_argument : Text → List Text → Text
last_argument a [] = a
last_argument a (b ∷ args) = last_argument b args

module _ (real : Text → Option Text) (is_directory : Text → Bool) where
  -- -o and -out, with their argument
  unfoldable pub set_out : Bool → Text → Options → Reading Options
  set_out absolute arg o =
      if is_directory arg
      then ready (record o { out_path = arg; out_path_is_absolute = absolute })
      else stop no_directory

  -- -audit, with its argument
  unfoldable pub set_audit : Text → Options → Reading Options
  set_audit arg o = elim (real arg) [
    | none ↦ stop failure
    | some rp ↦ ready (record o { g_audit = true; old_input_file = rp })
  ]

  -- The chain of comparisons.
  unfoldable pub kind : Text → Kind
  unfolding set_out set_audit
  kind arg =
      if text_eq arg (txt "-help")
      then stops help
      else if text_eq arg (txt "-version")
      then stops version
      else if text_eq arg (txt "-debug")
      then sets (λ o. record o { g_debug = true })
      else if text_eq arg (txt "-nowarn")
      then sets (λ o. record o { g_warn = 0 })
      else if text_eq arg (txt "-strict")
      then sets (λ o. record o { g_strict = 255; g_warn = 2 })
      else if text_eq arg (txt "-v") || text_eq arg (txt "-verbose")
      then sets (λ o. record o { g_verbose = true })
      else if text_eq arg (txt "-r") || text_eq arg (txt "-recurse")
      then sets (λ o. record o { gen_recurse = true })
      else if text_eq arg (txt "-allow-neg-keys")
      then sets (λ o. record o { g_allow_neg_field_keys = true })
      else if text_eq arg (txt "-allow-64bit-consts")
      then sets (λ o. record o { g_allow_64bit_consts = true })
      else if text_eq arg (txt "-I")
      then takes (λ d o. ready (record o { g_incl_searchpath = o.g_incl_searchpath ++ d ∷ [] }))
      else if text_eq arg (txt "-namespaced")
      then sets (λ o. record o {
        generator_strings = o.generator_strings ++ txt "ruby:namespaced" ∷ [];
        namespaced_option = true;
      })
      else if text_eq arg (txt "-o") || text_eq arg (txt "-out")
      then takes (set_out (text_eq arg (txt "-out")))
      else if text_eq arg (txt "-audit")
      then takes set_audit
      else if text_eq arg (txt "-audit-nofatal")
      then sets (λ o. record o { g_audit_fatal = false })
      else if text_eq arg (txt "-Iold")
      then takes (λ d o. ready (record o { old_thrift_include_path = d }))
      else if text_eq arg (txt "-Inew")
      then takes (λ d o. ready (record o { new_thrift_include_path = d }))
      else stops usage

  -- One token, with the arguments behind its own; an option that takes one and finds NULL shows the
  -- usage.
  unfoldable pub read_token : Text → List Text → Options → Reading (Options × List Text)
  unfolding kind single_dash
  read_token arg after o = elim (kind (single_dash arg)) [
    | stops e ↦ stop e
    | sets f ↦ ready (f o, after)
    | takes f ↦ elim after [ [] ↦ stop usage | a ∷ later ↦ f a o >>= λ t. ready (t, later) ]
  ]

  unfoldable pub read_tokens : List Text → List Text → Options → Reading (Options × List Text)
  unfolding read_token
  read_tokens [] after o = ready (o, after)
  read_tokens (arg ∷ args) after o = read_token arg after o >>= λ r. read_tokens args r.1 r.0

  -- The loop over argv[1] to argv[argc - 2], on fuel: each round takes an argument. What is left is
  -- argv[i], or nothing where i has become argc.
  unfoldable pub read_args : ℕ → List Text → Options → Reading (Options × Option Text)
  unfolding read_tokens tokens
  read_args f [] o = ready (o, none)
  read_args f (file ∷ []) o = ready (o, some file)
  read_args zero (arg ∷ next ∷ args) o = out_of_fuel
  read_args (suc f) (arg ∷ next ∷ args) o =
      read_tokens (tokens arg) (next ∷ args) o >>= λ r. read_args f r.1 r.0

  -- main up to the types: `args` is argv without the name of the program.
  unfoldable pub read_command_line : List Text → Reading (Options × Option Text)
  unfolding read_args last_argument ending
  read_command_line [] = stop usage
  read_command_line (a ∷ args) = read_args (length (a ∷ args)) (a ∷ args) defaults >>= λ r.
      elim (ending (last_argument a args)) [ none ↦ ready r | some e ↦ stop e ]

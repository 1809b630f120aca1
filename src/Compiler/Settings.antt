-- ===== src/Compiler/Settings.antt =====
-- Command lines as sequences of settings, one for each option of the help text.
use sparsam.Base.{
  ℕ, zero, suc, ◌≤◌, ◌<◌, ◌≡◌, refl, sym, ap, ◌∙◌, Text, txt, text_eq, Bool, true, false, List, [],
  ◌∷◌, ◌++◌, length, length-append, Option, none, some, if◌then◌else◌, arith,
}
use sparsam.Compiler.CommandLine.{
  Options, failure, no_directory, Reading, stop, ready, ◌>>=◌, tokens, single_dash, ending, set_out,
  set_audit, kind, read_token, read_tokens, read_args, last_argument, read_command_line, defaults,
}
use sparsam.Compiler.Readings.{>>=-assoc, >>=-eq}

pub data Setting : Type 0 where
  debug no_warnings strict verbose recurse neg_keys wide_consts namespaced audit_nofatal : Setting
  include_directory old_directory new_directory audit_of : Text → Setting
  output : Bool → Text → Setting

abbrev pub name_of : Setting → Text
name_of debug = txt "-debug"
name_of no_warnings = txt "-nowarn"
name_of strict = txt "-strict"
name_of verbose = txt "-verbose"
name_of recurse = txt "-recurse"
name_of neg_keys = txt "-allow-neg-keys"
name_of wide_consts = txt "-allow-64bit-consts"
name_of namespaced = txt "-namespaced"
name_of audit_nofatal = txt "-audit-nofatal"
name_of (include_directory d) = txt "-I"
name_of (old_directory d) = txt "-Iold"
name_of (new_directory d) = txt "-Inew"
name_of (audit_of file) = txt "-audit"
name_of (output false d) = txt "-o"
name_of (output true d) = txt "-out"

-- The argument that follows the name.
abbrev pub argument_of : Setting → List Text
argument_of (include_directory d) = d ∷ []
argument_of (old_directory d) = d ∷ []
argument_of (new_directory d) = d ∷ []
argument_of (audit_of file) = file ∷ []
argument_of (output absolute d) = d ∷ []
argument_of s = []

-- With one dash or with two.
abbrev pub spelled : Bool → Text → Text
spelled false name = name
spelled true name = b'-' ∷ name

-- The arguments of a command line that has these settings in front of `rest`.
pub written : List (Bool × Setting) → List Text → List Text
written [] rest = rest
written ((twice, s) ∷ settings) rest =
    spelled twice (name_of s) ∷ (argument_of s ++ written settings rest)

module _ (real : Text → Option Text) (is_directory : Text → Bool) where
  -- What a setting does to the options.
  abbrev pub apply : Setting → Options → Reading Options
  apply debug o = ready (record o { g_debug = true })
  apply no_warnings o = ready (record o { g_warn = 0 })
  apply strict o = ready (record o { g_strict = 255; g_warn = 2 })
  apply verbose o = ready (record o { g_verbose = true })
  apply recurse o = ready (record o { gen_recurse = true })
  apply neg_keys o = ready (record o { g_allow_neg_field_keys = true })
  apply wide_consts o = ready (record o { g_allow_64bit_consts = true })
  apply namespaced o = ready (record o {
    generator_strings = o.generator_strings ++ txt "ruby:namespaced" ∷ [];
    namespaced_option = true;
  })
  apply audit_nofatal o = ready (record o { g_audit_fatal = false })
  apply (include_directory d) o =
      ready (record o { g_incl_searchpath = o.g_incl_searchpath ++ d ∷ [] })
  apply (old_directory d) o = ready (record o { old_thrift_include_path = d })
  apply (new_directory d) o = ready (record o { new_thrift_include_path = d })
  apply (audit_of file) o = elim (real file) [
    | none ↦ stop failure
    | some rp ↦ ready (record o { g_audit = true; old_input_file = rp })
  ]
  apply (output absolute d) o =
      if is_directory d
      then ready (record o { out_path = d; out_path_is_absolute = absolute })
      else stop no_directory

  unfoldable pub apply_all : List (Bool × Setting) → Options → Reading Options
  apply_all [] o = ready o
  apply_all ((twice, s) ∷ settings) o = apply s o >>= apply_all settings

  token-apply :
      (twice : Bool) (s : Setting) (after : List Text) (o : Options)
      → read_token real is_directory (spelled twice (name_of s)) (argument_of s ++ after) o
        ≡ (apply s o >>= λ t. ready (t, after))
  unfolding read_token kind single_dash set_out set_audit text_eq
  token-apply true debug after o = refl
  token-apply true (output true d) after o = refl
  token-apply true s after o = refl
  token-apply false debug after o = refl
  token-apply false (output true d) after o = refl
  token-apply false s after o = refl

  -- No name of an option has a space in it.
  tokens-spelled :
      (twice : Bool) (s : Setting)
      → tokens (spelled twice (name_of s)) ≡ spelled twice (name_of s) ∷ []
  unfolding tokens
  tokens-spelled true debug = refl
  tokens-spelled true (output true d) = refl
  tokens-spelled true s = refl
  tokens-spelled false debug = refl
  tokens-spelled false (output true d) = refl
  tokens-spelled false s = refl

  step-read_args :
      (f : ℕ) (arg : Text) (args : List Text) (o : Options)
      → 0 < length args
      → read_args real is_directory (suc f) (arg ∷ args) o ≡ (
          read_tokens real is_directory (tokens arg) args o >>= λ r.
          read_args real is_directory f r.1 r.0)
  unfolding read_args
  step-read_args f arg [] o h = absurd (omega arith)
  step-read_args f arg (next ∷ args) o h = refl

  tokens-apply :
      (twice : Bool) (s : Setting) (after : List Text) (o : Options)
      → read_tokens real is_directory (spelled twice (name_of s) ∷ []) (argument_of s ++ after) o
        ≡ (apply s o >>= λ t. ready (t, after))
  unfolding read_tokens
  tokens-apply twice s after o =
      ap (λ m. m >>= λ r. ready (r.0, r.1)) (token-apply twice s after o)
      ∙ >>=-assoc (apply s o) _ _

  written_pos : (gs : List (Bool × Setting)) (file : Text) → 0 < length (written gs (file ∷ []))
  unfolding written
  written_pos [] file = omega arith
  written_pos ((twice, s) ∷ gs) file = omega arith

  read_args-written :
      (f : ℕ) (gs : List (Bool × Setting)) (file : Text) (o : Options)
      → length (written gs (file ∷ [])) ≤ f
      → read_args real is_directory f (written gs (file ∷ [])) o
        ≡ (apply_all gs o >>= λ t. ready (t, some file))
  unfolding written apply_all read_args
  read_args-written f [] file o h = refl
  read_args-written zero ((twice, s) ∷ gs) file o h = absurd (omega arith)
  read_args-written (suc f) ((twice, s) ∷ gs) file o h =
      let args : List Text = written gs (file ∷ []) in
      step-read_args f (spelled twice (name_of s)) (argument_of s ++ args) o
        (omega (arith, length-append (argument_of s) args, written_pos gs file))
      ∙ ap
          (λ ts. read_tokens real is_directory ts (argument_of s ++ args) o >>= λ r.
            read_args real is_directory f r.1 r.0)
          (tokens-spelled twice s)
      ∙ ap (λ m. m >>= λ r. read_args real is_directory f r.1 r.0) (tokens-apply twice s args o)
      ∙ >>=-assoc (apply s o) _ _
      ∙ >>=-eq (apply s o) _ _
          (λ t. read_args-written f gs file t (omega (arith, length-append (argument_of s) args)))
      ∙ sym (>>=-assoc (apply s o) _ _)

  last-append :
      (a : Text) (before args : List Text)
      → 0 < length args
      → last_argument a (before ++ args) ≡ last_argument a args
  unfolding last_argument
  last-append a [] args h = refl
  last-append a (b ∷ before) [] h = absurd (omega arith)
  last-append a (b ∷ before) (c ∷ args) h = last-append b before (c ∷ args) (omega arith)

  last-written :
      (gs : List (Bool × Setting)) (file a : Text) → last_argument a (written gs (file ∷ [])) ≡ file
  unfolding written last_argument
  last-written [] file a = refl
  last-written ((twice, s) ∷ gs) file a =
      last-append (spelled twice (name_of s)) (argument_of s) (written gs (file ∷ []))
        (written_pos gs file)
      ∙ last-written gs file (spelled twice (name_of s))

  -- A command line of settings in any order, each spelled with one dash or with two, before a file:
  -- main takes the settings one after another and ends early at the first that fails; otherwise the
  -- file is what is left, unless it asks for the help or the version.
  pub read_command_line-written :
      (gs : List (Bool × Setting)) (file : Text)
      → read_command_line real is_directory (written gs (file ∷ [])) ≡ (
          apply_all gs defaults >>= λ o. elim (ending file) [
            | none ↦ ready (o, some file)
            | some e ↦ stop e
          ])
  unfolding read_command_line written apply_all ending
  read_command_line-written [] file = refl
  read_command_line-written ((twice, s) ∷ gs) file =
      let settings : List (Bool × Setting) = (twice, s) ∷ gs in
      ap
        (λ m. m >>= λ r.
          elim (ending
            (last_argument (spelled twice (name_of s)) (argument_of s ++ written gs (file ∷ [])))) [
              | none ↦ ready r
              | some e ↦ stop e
            ])
        (read_args-written (length (written settings (file ∷ []))) settings file defaults
          (omega arith))
      ∙ ap
          (λ l. (apply_all settings defaults >>= λ t. ready (t, some file)) >>= λ r.
            elim (ending l) [ none ↦ ready r | some e ↦ stop e ])
          (last-written settings file [])
      ∙ >>=-assoc (apply_all settings defaults) _ _

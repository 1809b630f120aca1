-- ===== src/Compiler/LineEnds.antt =====
-- The options of a command line are read to their end.
use sparsam.Base.{
  ℕ, zero, suc, ◌≤◌, inl, inr, Text, Bool, true, false, Bool-cases, List, [], ◌∷◌, length, Option,
  none, some, Option-cases, if◌then◌else◌, arith,
}
use sparsam.Compiler.CommandLine.{
  Options, defaults, Stop, usage, stop, ready, ◌>>=◌, Kind, stops, sets, takes, tokens, single_dash,
  ending, set_out, set_audit, kind, read_token, read_tokens, read_args, last_argument,
  read_command_line,
}
use sparsam.Compiler.Readings.{Returns, >>=-Returns, weaken-Returns}

abbrev IsTotal : Type 0 → Kind → Type 0
IsTotal C (stops e) = Unit
IsTotal C (sets f) = Unit
IsTotal C (takes f) = (a : Text) (o : Options) → Returns C (λ t. Unit) (f a o)

either :
    (C : Type 0) (b : Bool) (x y : Kind)
    → IsTotal C x
    → IsTotal C y
    → IsTotal C (if b then x else y)
either C true x y h k = h
either C false x y h k = k

module _ (C : Type 0) (real : Text → Option Text) (is_directory : Text → Bool) where
  set_out-Returns :
      (absolute : Bool) (a : Text) (o : Options)
      → Returns C (λ t. Unit) (set_out real is_directory absolute a o)
  unfolding set_out
  set_out-Returns absolute a o = elim (Bool-cases (is_directory a)) [
    | inl d ↦ rw d tt
    | inr d ↦ rw d tt
  ]

  set_audit-Returns :
      (a : Text) (o : Options) → Returns C (λ t. Unit) (set_audit real is_directory a o)
  unfolding set_audit
  set_audit-Returns a o = elim (Option-cases (real a)) [
    | inl none_ ↦ rw (none_, set_audit) tt
    | inr (rp, found) ↦ rw (found, set_audit) tt
  ]

  kind-IsTotal : (arg : Text) → IsTotal C (kind real is_directory arg)
  unfolding kind
  kind-IsTotal arg = search (either, set_out-Returns, set_audit-Returns) depth 40

  run_kind-Returns :
      (k : Kind) (after : List Text) (o : Options)
      → IsTotal C k
      → Returns C
          (λ (r : Options × List Text). length r.1 ≤ length after)
          (elim k [
            | stops e ↦ stop e
            | sets f ↦ ready (f o, after)
            | takes f ↦ elim after [ [] ↦ stop usage | a ∷ later ↦ f a o >>= λ t. ready (t, later) ]
          ])
  run_kind-Returns (stops e) after o h = tt
  run_kind-Returns (sets f) after o h = omega arith
  run_kind-Returns (takes f) [] o h = tt
  run_kind-Returns (takes f) (a ∷ later) o h =
      >>=-Returns C (λ t. Unit) _ (f a o) _ (h a o) (λ t u. omega arith)

  read_token-Returns :
      (arg : Text) (after : List Text) (o : Options)
      → Returns C
          (λ (r : Options × List Text). length r.1 ≤ length after)
          (read_token real is_directory arg after o)
  unfolding read_token kind single_dash
  read_token-Returns arg after o = run_kind-Returns _ after o (kind-IsTotal (single_dash arg))

  read_tokens-Returns :
      (args after : List Text) (o : Options)
      → Returns C
          (λ (r : Options × List Text). length r.1 ≤ length after)
          (read_tokens real is_directory args after o)
  unfolding read_tokens
  read_tokens-Returns [] after o = omega arith
  read_tokens-Returns (arg ∷ args) after o =
      >>=-Returns C (λ (r : Options × List Text). length r.1 ≤ length after) _
        (read_token real is_directory arg after o) _ (read_token-Returns arg after o)
        (λ r h.
          weaken-Returns C (λ (t : Options × List Text). length t.1 ≤ length r.1)
            (λ (t : Options × List Text). length t.1 ≤ length after)
            (read_tokens real is_directory args r.1 r.0) (read_tokens-Returns args r.1 r.0)
            (λ t k. omega arith))

  read_args-Returns :
      (f : ℕ) (args : List Text) (o : Options)
      → length args ≤ f
      → Returns C (λ r. Unit) (read_args real is_directory f args o)
  unfolding read_args
  read_args-Returns f [] o h = tt
  read_args-Returns f (file ∷ []) o h = tt
  read_args-Returns zero (arg ∷ next ∷ args) o h = absurd (omega arith)
  read_args-Returns (suc f) (arg ∷ next ∷ args) o h =
      >>=-Returns C (λ (r : Options × List Text). length r.1 ≤ length (next ∷ args)) (λ r. Unit)
        (read_tokens real is_directory (tokens arg) (next ∷ args) o) _
        (read_tokens-Returns (tokens arg) (next ∷ args) o)
        (λ r k. read_args-Returns f r.1 r.0 (omega arith))

  pub command_line-Returns :
      (args : List Text) → Returns C (λ r. Unit) (read_command_line real is_directory args)
  unfolding read_command_line
  command_line-Returns [] = tt
  command_line-Returns (a ∷ args) =
      >>=-Returns C (λ r. Unit) (λ r. Unit)
        (read_args real is_directory (length (a ∷ args)) (a ∷ args) defaults) _
        (read_args-Returns (length (a ∷ args)) (a ∷ args) defaults (omega arith))
        (λ r u. ended r (ending (last_argument a args)))
    where
      ended :
          (r : Options × Option Text) (e : Option Stop)
          → Returns C
              (λ (t : Options × Option Text). Unit {0})
              (elim e [ none ↦ ready r | some x ↦ stop x ])
      ended r none = tt
      ended r (some x) = tt

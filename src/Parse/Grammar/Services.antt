-- ===== src/Parse/Grammar/Services.antt =====
-- The services that the grammar makes.
use mathlib.Core.List.{map-append}
use sparsam.Base.{
  ℕ, Text, txt, text_eq, text_eq_iff, is_empty, Bool, true, false, not, ◌&&◌, ◌≡◌, ◌≢◌, refl, sym,
  ap, subst, ◌∙◌, List, [], ◌∷◌, ◌++◌, append_assoc, append-nil, map, any, All, All-append, Option,
  none, some, some_injective, arith, Bool-cases, inl, inr,
}
use sparsam.Parse.Error.{ok, >>=-eq-ok, ok-injective}
use sparsam.Parse.Types.{Struct, Function, Service, Store}
use sparsam.Parse.Struct.{new_struct, set_name}
use sparsam.Parse.Validate.{validate_throws}
use sparsam.Parse.Collisions.{add_function, new_function}
use sparsam.Parse.Members.WellFormed.{IsWellFormed}
use sparsam.Parse.Grammar.{Settings, FieldList, field_list, validate_simple_identifier}
use sparsam.Parse.Grammar.Objects.{
  FunctionSource, flag_args, throws_list, function_definition, function_list, extends,
  service_definition,
}
use sparsam.Parse.Grammar.Throws.{IsException, validate_throws-IsException}
use sparsam.Parse.Grammar.Unions.{field_list-IsFresh, new_struct-IsFresh, set_name-IsWellFormed}

-- No two functions share a name.
abbrev pub UniqueFunctions : List Function → Type 0
UniqueFunctions [] = Unit {0}
UniqueFunctions (f ∷ fs) = All (λ h. f.name ≢ h.name) fs × UniqueFunctions fs

-- Its arguments and exceptions are well-formed, what it throws are exceptions, and it throws
-- nothing if it is oneway.
pub record IsSound (st : Store) (h : Function) : Type 0 where
  pub arguments : IsWellFormed h.arglist
  pub exceptions : IsWellFormed h.xceptions
  pub throws : All (λ f. IsException st f.type) h.xceptions.members
  pub quiet : h.oneway ≡ true → is_empty h.xceptions.members ≡ true

last-UniqueFunctions :
    (fs : List Function) (f : Function)
    → UniqueFunctions fs
    → All (λ h. h.name ≢ f.name) fs
    → UniqueFunctions (fs ++ f ∷ [])
last-UniqueFunctions [] f u a = (tt, tt)
last-UniqueFunctions (h ∷ fs) f u a =
    (All-append (λ k. h.name ≢ k.name) fs (f ∷ []) u.0 (a.0, tt), last-UniqueFunctions fs f u.1 a.1)

any-differ :
    (f : Function) (fs : List Function)
    → any (λ g. text_eq f.name g.name) fs ≡ false
    → All (λ h. h.name ≢ f.name) fs
any-differ f [] h = tt
any-differ f (g ∷ fs) h = elim (Bool-cases (text_eq f.name g.name)) [
  | inl same ↦ absurd (cc (rw same at h))
  | inr differ ↦ (
    λ e. cc (sym differ ∙ (text_eq_iff f.name g.name).1 (sym e)),
    any-differ f fs (rw differ at h),
  )
]

add_function-ok :
    (f : Function) (s u : Service)
    → add_function f s ≡ ok u
    → All (λ h. h.name ≢ f.name) s.functions × (u ≡ record s { functions = s.functions ++ f ∷ [] })
unfolding add_function
add_function-ok f s u h = elim (Bool-cases (any (λ g. text_eq f.name g.name) s.functions)) [
  | inl taken ↦ absurd (cc (rw taken at h))
  | inr free ↦ (any-differ f s.functions free, sym (ok-injective (rw free at h)))
]

module _ (g : Settings) (st : Store) (fuel : ℕ) where
  -- Nothing but exceptions.
  Throwing : Struct → Type 0
  Throwing t = All (λ f. IsException st f.type) t.members

  no_throws : Throwing (new_struct [])
  unfolding Throwing new_struct
  no_throws = tt

  throws_list-ok :
      (o : Option FieldList) (t : Struct)
      → throws_list g st fuel o ≡ ok t
      → IsWellFormed t × Throwing t
  unfolding throws_list Throwing
  throws_list-ok none t h =
      subst (λ x. IsWellFormed x × Throwing x) (ok-injective h) (new_struct-IsFresh.well, no_throws)
  throws_list-ok (some fs) t h =
      let listed = >>=-eq-ok (field_list (flag_args g) fs) _ h in
      let valid = >>=-eq-ok (validate_throws st fuel listed.0.0.members) _ listed.2 in
      let fresh = field_list-IsFresh (flag_args g) fs listed.0 listed.1 in
      elim (Bool-cases valid.0) [
        | inl good ↦
            subst (λ x. IsWellFormed x × Throwing x) (ok-injective (rw good at valid.2))
              (
                fresh.well,
                validate_throws-IsException st fuel listed.0.0.members (rw good at valid.1),
              )
        | inr bad ↦ absurd (cc (rw bad at valid.2))
      ]

  new_function-ok :
      (f : FunctionSource) (args xs : Struct) (h : Function)
      → new_function f.returntype f.name args xs f.oneway ≡ ok h
      → (h.name ≡ f.name)
        × (h.arglist ≡ args)
        × (h.xceptions ≡ xs)
        × (h.oneway ≡ true → is_empty xs.members ≡ true)
  unfolding new_function
  new_function-ok f args xs h went = elim (Bool-cases (f.oneway && not (is_empty xs.members))) [
    | inl loud ↦ absurd (cc (rw loud at went))
    | inr quiet ↦
        subst
          (λ (x : Function).
            (x.name ≡ f.name)
            × (x.arglist ≡ args)
            × (x.xceptions ≡ xs)
            × (x.oneway ≡ true → is_empty xs.members ≡ true))
          (ok-injective (rw quiet at went)) (refl, refl, refl, λ is. ground (arith, is, quiet))
  ]

  function_definition-IsSound :
      (f : FunctionSource) (h : Function)
      → function_definition g st fuel f ≡ ok h
      → (h.name ≡ f.name) × IsSound st h
  unfolding function_definition Throwing
  function_definition-IsSound f h went =
      let listed = >>=-eq-ok (field_list (flag_args g) f.arglist) _ went in
      let thrown = >>=-eq-ok (throws_list g st fuel f.throws) _ listed.2 in
      let checked = >>=-eq-ok (validate_simple_identifier f.name) _ thrown.2 in
      let args = >>=-eq-ok (set_name (f.name ++ txt "_args") listed.0.0) _ checked.2 in
      let fresh = field_list-IsFresh (flag_args g) f.arglist listed.0 listed.1 in
      let named = set_name-IsWellFormed _ listed.0.0 args.0 fresh.well args.1 in
      let xs = throws_list-ok f.throws thrown.0 thrown.1 in
      let (called, arguments, exceptions, quiet) = new_function-ok f args.0 thrown.0 h args.2 in
      (
        called,
        record {
          arguments = subst IsWellFormed (sym arguments) named.0;
          exceptions = subst IsWellFormed (sym exceptions) xs.0;
          throws = subst Throwing (sym exceptions) xs.1;
          quiet = λ is. ap (λ (x : Struct). is_empty x.members) exceptions ∙ quiet is;
        },
      )

  -- The functions of a service while they are read.
  record Holds (names : List Text) (s : Service) : Type 0 where
    unique : UniqueFunctions s.functions
    sound : All (IsSound st) s.functions
    order : map (λ (h : Function). h.name) s.functions ≡ names

  function_list-Holds :
      (fs : List FunctionSource) (names : List Text) (s u : Service)
      → Holds names s
      → function_list g st fuel fs s ≡ ok u
      → Holds (names ++ map (λ (f : FunctionSource). f.name) fs) u
  unfolding function_list
  function_list-Holds [] names s u h went =
      subst (λ x. Holds (names ++ []) x) (ok-injective went)
        (record { unique = h.unique; sound = h.sound; order = h.order ∙ sym (append-nil names) })
  function_list-Holds (f ∷ fs) names s u h went =
      let made = >>=-eq-ok (function_definition g st fuel f) _ went in
      let added = >>=-eq-ok (add_function made.0 s) _ made.2 in
      let (called, sound) = function_definition-IsSound f made.0 made.1 in
      let (fresh, longer) = add_function-ok made.0 s added.0 added.1 in
      let next : Holds (names ++ f.name ∷ []) added.0 =
        subst (Holds (names ++ f.name ∷ [])) (sym longer) (record {
          unique = last-UniqueFunctions s.functions made.0 h.unique fresh;
          sound = All-append (IsSound st) s.functions (made.0 ∷ []) h.sound (sound, tt);
          order =
              map-append (λ (k : Function). k.name) s.functions (made.0 ∷ [])
              ∙ rw (h.order, called) refl;
        }) in
      subst (λ ns. Holds ns u)
        (append_assoc names (f.name ∷ []) (map (λ (k : FunctionSource). k.name) fs))
        (function_list-Holds fs (names ++ f.name ∷ []) added.0 u next added.2)

  extends-ok :
      (defined : Text → Bool) (parent e : Option Text)
      → extends g st fuel defined parent ≡ ok e
      → (e ≡ parent) × ((n : Text) → parent ≡ some n → defined n ≡ true)
  unfolding extends
  extends-ok defined none e h = (sym (ok-injective h), λ n is. cc)
  extends-ok defined (some n) e h = elim (Bool-cases (defined n)) [
    | inl known ↦ (
      sym (ok-injective (rw known at h)),
      λ m is. subst (λ k. defined k ≡ true) (some_injective is) known,
    )
    | inr unknown ↦ absurd (cc (rw unknown at h))
  ]

  -- A service that is accepted has its name, a parent that is defined, if it has one, and its
  -- functions in their order, of which no two share a name. Their arguments and exceptions are
  -- sorted by id and free of double names; what they throw are
  -- exceptions, directly or through typedefs, and a oneway function throws nothing.
  pub service_definition-IsSound :
      (defined : Text → Bool) (name : Text) (parent : Option Text) (fs : List FunctionSource)
      (s : Service)
      → service_definition g st fuel defined name parent fs ≡ ok s
      → (s.name ≡ name)
        × (s.extends ≡ parent)
        × ((n : Text) → parent ≡ some n → defined n ≡ true)
        × (map (λ (h : Function). h.name) s.functions ≡ map (λ (f : FunctionSource). f.name) fs)
        × UniqueFunctions s.functions
        × All (IsSound st) s.functions
  unfolding service_definition
  service_definition-IsSound defined name parent fs s went =
      let found = >>=-eq-ok (extends g st fuel defined parent) _ went in
      let listed =
        >>=-eq-ok
          (function_list g st fuel fs (record { name = []; extends = none; functions = [] })) _
          found.2 in
      let checked = >>=-eq-ok (validate_simple_identifier name) _ listed.2 in
      let (same, known) = extends-ok defined parent found.0 found.1 in
      let held =
        function_list-Holds fs [] _ listed.0 (record { unique = tt; sound = tt; order = refl })
          listed.1 in
      subst
        (λ (x : Service).
          (x.name ≡ name)
          × (x.extends ≡ parent)
          × ((n : Text) → parent ≡ some n → defined n ≡ true)
          × (map (λ (h : Function). h.name) x.functions ≡ map (λ (f : FunctionSource). f.name) fs)
          × UniqueFunctions x.functions
          × All (IsSound st) x.functions)
        (ok-injective checked.2) (refl, same, known, held.order, held.unique, held.sound)

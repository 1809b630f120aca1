-- ===== src/Compiler/Ends.antt =====
-- The calls of a parse, in a row: no one of them but parse itself runs out of fuel.
use sparsam.Base.{◌≡◌, refl, Text, Bool, true, false, List, [], ◌∷◌, text_key, Dict, ◌++◌}
use sparsam.Parse.Error.{Fallible, throw, ok}
use sparsam.Parse.Types.{Const}
use sparsam.Parse.Scope.{add_constant}
use sparsam.Compiler.ParseFiles.{
  Scope, Declaration, declares_type, declares_service, declares_constant, declare, Parsing,
  out_of_fuel, failure, crash, parsed, Pass, refused, crashes, done, ◌>>=◌, declare_all, Parser,
  passed, parse_types,
}

pub >>=-eq :
    {A B : Type 0} (m : Parsing A) (k l : A → Parsing B)
    → ((a : A) → k a ≡ l a)
    → (m >>= k) ≡ (m >>= l)
>>=-eq out_of_fuel k l h = refl
>>=-eq failure k l h = refl
>>=-eq crash k l h = refl
>>=-eq (parsed a) k l h = h a

-- A pass of the parser over a file that crashes.
pub data Crashes (files : Parser) : Type 0 where
  in_includes :
      (path : Text) → files.opens path ≡ true → files.includes_pass path ≡ crashes → Crashes files
  in_types :
      (path : Text) (s : Scope)
      → files.opens path ≡ true
      → files.types_pass path s ≡ crashes
      → Crashes files

-- It ends, and crashes only where a pass does.
abbrev pub Ends : Parser → {A : Type 0} → Parsing A → Type 0
Ends files out_of_fuel = ⊥
Ends files failure = Unit
Ends files crash = Crashes files
Ends files (parsed a) = Unit

pub >>=-assoc :
    {A B C : Type 0} (m : Parsing A) (k : A → Parsing B) (l : B → Parsing C)
    → ((m >>= k) >>= l) ≡ (m >>= λ a. k a >>= l)
>>=-assoc out_of_fuel k l = refl
>>=-assoc failure k l = refl
>>=-assoc crash k l = refl
>>=-assoc (parsed a) k l = refl

module _ (files : Parser) where
  pub >>=-Ends :
      {A B : Type 0} (m : Parsing A) (k : A → Parsing B)
      → Ends files m
      → ((a : A) → Ends files (k a))
      → Ends files (m >>= k)
  >>=-Ends out_of_fuel k h next = absurd h
  >>=-Ends failure k h next = tt
  >>=-Ends crash k h next = h
  >>=-Ends (parsed a) k h next = next a

  passed-Ends :
      {A : Type 0} (opened : Bool) (p : Pass A)
      → (opened ≡ true → p ≡ crashes → Crashes files)
      → Ends files (passed opened p)
  unfolding passed
  passed-Ends false p h = tt
  passed-Ends true refused h = tt
  passed-Ends true crashes h = h refl refl
  passed-Ends true (done a) h = tt

  constant-Ends :
      (m : Fallible (Dict Text Const)) (s : Scope)
      → Ends files (elim m [ throw e ↦ failure | ok cs ↦ parsed (record s { constants = cs }) ])
  constant-Ends (throw e) s = tt
  constant-Ends (ok cs) s = tt

  declare-Ends : (pre : Text) (d : Declaration) (s : Scope) → Ends files (declare pre d s)
  unfolding declare
  declare-Ends pre (declares_type n t) s = tt
  declare-Ends pre (declares_service n t) s = tt
  declare-Ends pre (declares_constant n c) s =
      constant-Ends (add_constant (pre ++ n) c s.constants) s

  pub declare_all-Ends :
      (pre : Text) (ds : List Declaration) (s : Scope) → Ends files (declare_all pre ds s)
  unfolding declare_all
  declare_all-Ends pre [] s = tt
  declare_all-Ends pre (d ∷ ds) s =
      >>=-Ends (declare pre d s) _ (declare-Ends pre d s) (declare_all-Ends pre ds)

  pub parse_types-Ends : (path : Text) (s : Scope) → Ends files (parse_types files path s)
  unfolding parse_types
  parse_types-Ends path s =
      >>=-Ends (passed (files.opens path) (files.types_pass path s)) _
        (passed-Ends (files.opens path) (files.types_pass path s) (in_types path s))
        (λ ds. >>=-Ends (declare_all [] ds s) _ (declare_all-Ends [] ds s) (λ t. tt))

-- ===== src/Audit/Verdict/Unchanged.antt =====
-- A program audited against itself.
use sparsam.Base.{
  Text, text_eq_self, ◌≡◌, refl, ap, ◌∙◌, ◌<ℤ◌, eqb_ℤ, Bool, true, false, not, List, [], ◌∷◌,
  Option, none, some, if◌then◌else◌, any, All, All-map, last_named, arith,
}
use sparsam.Parse.Enum.{Enum, EnumValue}
use sparsam.Parse.Types.{Field, Struct, Function, Service, Program, Store, TType}
use sparsam.Parse.Members.Sorted.{IsSorted, has_id}
use sparsam.Audit.Types.{compare_type}
use sparsam.Audit.Structs.{bool_ne}
use sparsam.Audit.Shape.{IsNamed, compare_type_iff}
use sparsam.Audit.Log.{Log}
use sparsam.Audit.Run.{audit, exit_status}
use sparsam.Audit.Verdict.Unique.{any_none, UniqueBy, last_named_self, All-both, All-every}
use sparsam.Audit.Verdict.Flag.{flagged}
use sparsam.Audit.Verdict.Members.{find_id, field_breaks, old_breaks, new_breaks, members_break}
use sparsam.Audit.Verdict.Structs.{IsSortedStruct, struct_breaks, structs_break}
use sparsam.Audit.Verdict.Services.{
  IsSortedService, extends_breaks, function_breaks, functions_break, service_breaks, services_break,
}
use sparsam.Audit.Verdict.Enums.{value_missing, enum_breaks, enums_break}
use sparsam.Audit.Verdict.Program.{IsSortedProgram, program_breaks, exit_status-audit}

-- In a sorted list each field is the one of its id.
find_id-later :
    (f : Field) (fs gs : List Field)
    → All (λ g. f.key <ℤ g.key) gs
    → All (λ g. (find_id g.key fs ≡ some g) × (has_id g.key fs ≡ true)) gs
    → All (λ g. (find_id g.key (f ∷ fs) ≡ some g) × (has_id g.key (f ∷ fs) ≡ true)) gs
unfolding find_id has_id
find_id-later f fs [] h k = tt
find_id-later f fs (g ∷ gs) h k =
    ((ground (arith, h.0, k.0.0), ground (arith, k.0.1)), find_id-later f fs gs h.1 k.1)

find_id_self :
    (fs : List Field)
    → IsSorted fs
    → All (λ g. (find_id g.key fs ≡ some g) × (has_id g.key fs ≡ true)) fs
unfolding find_id has_id
find_id_self [] s = tt
find_id_self (f ∷ fs) s =
    ((ground arith, ground arith), find_id-later f fs fs s.0 (find_id_self fs s.1))

module _ (st : Store) where
  -- Every type in the members has a name.
  abbrev pub IsNamedStruct : Struct → Type 0
  IsNamedStruct t = All (λ f. IsNamed st f.type) t.members_in_id_order

  abbrev pub IsNamedFunction : Function → Type 0
  IsNamedFunction f = IsNamed st f.returntype × IsNamedStruct f.arglist × IsNamedStruct f.xceptions

  bool_ne_self : (b : Bool) → bool_ne b b ≡ false
  bool_ne_self true = refl
  bool_ne_self false = refl

  compare_type_self : (t : TType) → IsNamed st t → compare_type st t t ≡ true
  compare_type_self t n = (compare_type_iff st t t n n).1 refl

  field_breaks_self : (f : Field) → IsNamed st f.type → field_breaks st f f ≡ false
  unfolding field_breaks
  field_breaks_self f n = rw (compare_type_self f.type n, bool_ne_self) refl

  members_break_self :
      (fs : List Field)
      → IsSorted fs
      → All (λ f. IsNamed st f.type) fs
      → members_break st fs fs ≡ false
  unfolding members_break old_breaks new_breaks
  members_break_self fs s n =
      let found = find_id_self fs s in
      rw
        (
          any_none (λ o. old_breaks st (find_id o.key fs) o) fs
              (All-both (λ o k m. ap (λ x. old_breaks st x o) k.0 ∙ field_breaks_self o m) fs found
                n),
          any_none (new_breaks st fs) fs (All-map (λ o k. rw k.1 refl) fs found),
        )
        refl

  -- A list of named things in which none breaks itself.
  none_break :
      {A : Type 0} (name : A → Text) (breaks : Option A → A → Bool) (xs : List A)
      → UniqueBy name xs
      → All (λ x. breaks (some x) x ≡ false) xs
      → any (λ x. breaks (last_named name (name x) none xs) x) xs ≡ false
  none_break name breaks xs u h =
      any_none (λ x. breaks (last_named name (name x) none xs) x) xs
        (All-both (λ x l b. ap (λ y. breaks y x) l ∙ b) xs (last_named_self name xs u) h)

  structs_break_self :
      (ts : List Struct)
      → UniqueBy (λ t. t.name) ts
      → All IsSortedStruct ts
      → All IsNamedStruct ts
      → structs_break st ts ts ≡ false
  unfolding structs_break struct_breaks
  structs_break_self ts u s n =
      none_break (λ t. t.name) (struct_breaks st) ts u
        (All-both (λ t a b. members_break_self t.members_in_id_order a b) ts s n)

  function_breaks_self :
      (f : Function)
      → IsSortedStruct f.arglist × IsSortedStruct f.xceptions
      → IsNamedFunction f
      → function_breaks st (some f) f ≡ false
  unfolding function_breaks
  function_breaks_self f s n =
      rw
        (
          bool_ne_self f.oneway,
          compare_type_self f.returntype n.0,
          members_break_self f.arglist.members_in_id_order s.0 n.1,
          members_break_self f.xceptions.members_in_id_order s.1 n.2,
        )
        refl

  extends_breaks_self : (e : Option Text) → extends_breaks e e ≡ false
  unfolding extends_breaks
  extends_breaks_self none = refl
  extends_breaks_self (some n) = rw (text_eq_self n) refl

  -- The services of a program: unique functions, with sorted and named members.
  abbrev pub IsNamedService : Service → Type 0
  IsNamedService s = UniqueBy (λ f. f.name) s.functions × All IsNamedFunction s.functions

  service_breaks_self :
      (v : Service) → IsSortedService v → IsNamedService v → service_breaks st (some v) v ≡ false
  unfolding service_breaks functions_break
  service_breaks_self v s n =
      rw
        (
          extends_breaks_self v.extends,
          none_break (λ f. f.name) (function_breaks st) v.functions n.0
              (All-both (λ f x y. function_breaks_self f x y) v.functions s n.1),
        )
        refl

  services_break_self :
      (ss : List Service)
      → UniqueBy (λ s. s.name) ss
      → All IsSortedService ss
      → All IsNamedService ss
      → services_break st ss ss ≡ false
  unfolding services_break
  services_break_self ss u s n =
      none_break (λ s. s.name) (service_breaks st) ss u
        (All-both (λ v a b. service_breaks_self v a b) ss s n)

-- Each constant has its value.
has_value_later :
    (c : EnumValue) (cs ds : List EnumValue)
    → All (λ d. any (λ n. eqb_ℤ n.value d.value) cs ≡ true) ds
    → All (λ d. any (λ n. eqb_ℤ n.value d.value) (c ∷ cs) ≡ true) ds
has_value_later c cs [] h = tt
has_value_later c cs (d ∷ ds) h = (ground (arith, h.0), has_value_later c cs ds h.1)

has_value_self : (cs : List EnumValue) → All (λ d. any (λ n. eqb_ℤ n.value d.value) cs ≡ true) cs
has_value_self [] = tt
has_value_self (c ∷ cs) = (ground arith, has_value_later c cs cs (has_value_self cs))

enum_breaks_self : (e : Enum) → enum_breaks (some e) e ≡ false
unfolding enum_breaks value_missing
enum_breaks_self e =
    any_none (value_missing e) e.constants
      (All-map (λ c h. ap not h) e.constants (has_value_self e.constants))

module _ (st : Store) where
  -- No two declarations of a kind share a name, and every type that is compared has one.
  pub record IsNamedProgram (p : Program) : Type 0 where
    pub structs : UniqueBy (λ t. t.name) p.structs × All (IsNamedStruct st) p.structs
    pub xceptions : UniqueBy (λ t. t.name) p.xceptions × All (IsNamedStruct st) p.xceptions
    pub services : UniqueBy (λ s. s.name) p.services × All (IsNamedService st) p.services
    pub enums : UniqueBy (λ e. e.name) p.enums

  program_breaks_self :
      (p : Program) → IsSortedProgram p → IsNamedProgram p → program_breaks st p p ≡ false
  unfolding program_breaks enums_break
  program_breaks_self p s n =
      rw
        (
          services_break_self st p.services n.services.0 s.services n.services.1,
          none_break st (λ e. e.name) enum_breaks p.enums n.enums
              (All-every enum_breaks_self p.enums),
          structs_break_self st p.structs n.structs.0 s.structs n.structs.1,
          structs_break_self st p.xceptions n.xceptions.0 s.xceptions n.xceptions.1,
        )
        refl

  -- A fatal audit of a program against itself, started with the failure flag down, ends with status
  -- 0, for a program whose members are sorted by id, in which no two declarations of a kind share a
  -- name, and in which every compared type has a name.
  pub exit_status-audit_self :
      (p : Program) (s : Log)
      → IsSortedProgram p
      → IsNamedProgram p
      → flagged s ≡ false
      → exit_status true (audit st p p s) ≡ 0
  exit_status-audit_self p s a n h =
      exit_status-audit st p p s a a h ∙ ap (λ b. if b then 2 else 0) (program_breaks_self p a n)

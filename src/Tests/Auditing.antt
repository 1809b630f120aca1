-- ===== src/Tests/Auditing.antt =====
-- Two versions of a program: the new one drops a field of a struct and a value of an enumeration.
use mathlib.Core.Option
use sparsam.Base.{
  List, ℕ, Text, txt, pos, ◌≡◌, ◌≢◌, refl, ◌↔◌, [], ◌∷◌, true, false, ◌||◌, none, some,
  if◌then◌else◌, arith,
}
use sparsam.Parse.Enum.{Enum}
use sparsam.Parse.ConstValue.{string, integer, identifier, map, pair, no_pairs}
use sparsam.Parse.Types.{
  Field, Struct, Service, Program, Store, TType, base_type, type_i32, type_string, list_type,
  t_optional, Function,
}
use sparsam.Parse.Members.Sorted.{IsSorted}
use sparsam.Audit.Log.{Log}
use sparsam.Audit.Types.{compare_type}
use sparsam.Audit.Shape.{shape, IsNamed, compare_type_iff}
use sparsam.Audit.Defaults.{compare_defaults}
use sparsam.Audit.Erase.{erase, compare_defaults_iff, compare_defaults_map_order}
use sparsam.Audit.Structs.{compare_members}
use sparsam.Audit.Run.{audit, exit_status}
use sparsam.Audit.Verdict.Flag.{flagged}
use sparsam.Audit.Verdict.Members.{members_break, flagged-compare_members}
use sparsam.Audit.Verdict.Unchanged.{IsNamedProgram, exit_status-audit_self}
use sparsam.Audit.Verdict.Program.{IsSortedProgram, program_breaks, exit_status-audit}

abbrev i32 : TType
i32 = base_type (txt "i32") type_i32 false

abbrev field : ℕ → Text → Field
field k n = record {
  type = i32;
  name = n;
  key = pos k;
  req = t_optional;
  value = none;
  doc = none;
  annotations = [];
}

abbrev struct_of : Text → List Field → Struct
struct_of n fs = record {
  name = n;
  is_xception = false;
  is_union = false;
  members_validated = false;
  members_with_value = 0;
  members = fs;
  members_in_id_order = fs;
  doc = none;
  annotations = [];
}

abbrev pub store : Store
store = record {
  struct_at = λ a. struct_of [] [];
  scope_type = λ p n. none;
  namespaces_at = λ t. [];
}

abbrev old_fields : List Field
old_fields = field 1 (txt "low") ∷ field 2 (txt "high") ∷ []

abbrev new_fields : List Field
new_fields = field 2 (txt "high") ∷ []

abbrev get : Function
get = record {
  returntype = list_type i32;
  name = txt "get";
  arglist = struct_of (txt "get_args") new_fields;
  xceptions = struct_of (txt "get_result") [];
  oneway = false;
}

abbrev service : List Function → Service
service fs = record { name = txt "Store"; extends = none; functions = fs }

abbrev color : List Text → Enum
color ns = record {
  name = txt "Color";
  constants = elim ns [ [] ↦ [] | n ∷ _ ↦ record { name = n; value = pos 1; doc = none } ∷ [] ];
}

abbrev program : List Struct → List Service → List Enum → Program
program ss vs es = record {
  path = txt "a.thrift";
  name = txt "a";
  out_path = txt "./";
  out_path_is_absolute = false;
  namespaces = [];
  includes = [];
  typedefs = [];
  objects = ss;
  enums = es;
  consts = [];
  structs = ss;
  xceptions = [];
  services = vs;
}

abbrev silent : Log
silent = record { g_warn = 1; printed = []; reported = []; g_return_failure = false }

abbrev old_structs : List Struct
old_structs = struct_of (txt "Range") old_fields ∷ []

abbrev new_structs : List Struct
new_structs = struct_of (txt "Range") new_fields ∷ []

abbrev old_services : List Service
old_services = service (get ∷ []) ∷ []

abbrev new_services : List Service
new_services = service [] ∷ []

abbrev pub old_program : Program
old_program = program old_structs old_services (color (txt "RED" ∷ []) ∷ [])

abbrev pub new_program : Program
new_program = program new_structs new_services (color [] ∷ [])

old_fields-IsSorted : IsSorted old_fields
old_fields-IsSorted = ((omega arith, tt), (tt, tt))

new_fields-IsSorted : IsSorted new_fields
new_fields-IsSorted = (tt, tt)

-- The field of id 1 is gone.
flagged-compare_members_example :
    flagged (compare_members store new_fields old_fields (txt "Range") silent)
    ≡ (false || members_break store new_fields old_fields)
flagged-compare_members_example =
    flagged-compare_members store new_fields old_fields (txt "Range") silent new_fields-IsSorted
      old_fields-IsSorted

pub new_program-IsSorted : IsSortedProgram new_program
new_program-IsSorted = record {
  structs = (new_fields-IsSorted, tt);
  xceptions = tt;
  services = (tt, tt);
}

pub old_program-IsSorted : IsSortedProgram old_program
old_program-IsSorted = record {
  structs = (old_fields-IsSorted, tt);
  xceptions = tt;
  services = (((new_fields-IsSorted, tt), tt), tt);
}

exit_status-audit_example :
    exit_status true (audit store new_program old_program silent)
    ≡ (if program_breaks store new_program old_program then 2 else 0)
exit_status-audit_example =
    exit_status-audit store new_program old_program silent new_program-IsSorted old_program-IsSorted
      refl

i32-IsNamed : IsNamed store (list_type i32)
unfolding IsNamed
i32-IsNamed = refl

string-IsNamed : IsNamed store (list_type (base_type (txt "string") type_string false))
unfolding IsNamed
string-IsNamed = refl

-- A list of i32 and a list of string.
compare_type_iff_example :
    (compare_type store (list_type i32) (list_type (base_type (txt "string") type_string false))
      ≡ true)
    ↔ (shape store (list_type i32)
        ≡ shape store (list_type (base_type (txt "string") type_string false)))
compare_type_iff_example =
    compare_type_iff store (list_type i32) (list_type (base_type (txt "string") type_string false))
      i32-IsNamed string-IsNamed

-- The same identifier, with and without its enumeration.
compare_defaults_iff_example :
    (compare_defaults
        (some (identifier (txt "Color.RED") none))
        (some (identifier (txt "Color.RED") (some (color (txt "RED" ∷ [])))))
      ≡ true)
    ↔ (Option.map erase (some (identifier (txt "Color.RED") none))
        ≡ Option.map erase (some (identifier (txt "Color.RED") (some (color (txt "RED" ∷ []))))))
compare_defaults_iff_example =
    compare_defaults_iff (some (identifier (txt "Color.RED") none))
      (some (identifier (txt "Color.RED") (some (color (txt "RED" ∷ [])))))

low-ne-high : erase (string (txt "low")) ≢ erase (string (txt "high"))
unfolding erase
low-ne-high h = cc

compare_defaults_map_order_example :
    compare_defaults
      (some (
        map (
          pair
            (string (txt "low"))
            (integer (pos 1))
            (pair (string (txt "high")) (integer (pos 2)) no_pairs))))
      (some (
        map (
          pair
            (string (txt "high"))
            (integer (pos 2))
            (pair (string (txt "low")) (integer (pos 1)) no_pairs))))
    ≡ false
compare_defaults_map_order_example =
    compare_defaults_map_order (string (txt "low")) (string (txt "high")) (integer (pos 1))
      (integer (pos 2)) low-ne-high

abbrev plain_program : Program
plain_program = program old_structs [] (color (txt "RED" ∷ []) ∷ [])

i32-IsNamed_alone : IsNamed store i32
unfolding IsNamed
i32-IsNamed_alone = refl

plain_program-IsSorted : IsSortedProgram plain_program
plain_program-IsSorted = record {
  structs = (old_fields-IsSorted, tt);
  xceptions = tt;
  services = tt;
}

plain_program-IsNamed : IsNamedProgram store plain_program
plain_program-IsNamed = record {
  structs = ((tt, tt), ((i32-IsNamed_alone, (i32-IsNamed_alone, tt)), tt));
  xceptions = (tt, tt);
  services = (tt, tt);
  enums = (tt, tt);
}

exit_status-audit_self_example :
    exit_status true (audit store plain_program plain_program silent) ≡ 0
exit_status-audit_self_example =
    exit_status-audit_self store plain_program silent plain_program-IsSorted plain_program-IsNamed
      refl

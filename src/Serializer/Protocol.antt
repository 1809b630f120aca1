-- ===== src/Serializer/Protocol.antt =====
-- The Thrift protocol, which is not part of the repository: the calls that a writer makes, the
-- reader's calls as parameters, and what the code relies on between the two.
use sparsam.Base.{ℕ, ℤ, Text, Bool, List, ◌∷◌, ◌≡◌}
use sparsam.Serializer.Outcome.{Outcome, ok}
use sparsam.Serializer.Fields.{WireType, t_stop}

-- One call of tprot->write…, with its arguments.
pub data Event : Type 0 where
  struct_begin struct_end field_end field_stop list_end map_end : Event
  field_begin : WireType → ℤ → Event
  list_begin : WireType → ℕ → Event
  map_begin : WireType → WireType → ℕ → Event
  write_bool : Bool → Event
  write_byte write_i16 write_i32 write_i64 : ℤ → Event
  write_double : ℕ → Event
  write_string write_binary : Text → Event

abbrev pub Events : Type 0
Events = List Event

-- A call that changes the state `S` and may raise.
abbrev pub Call : Type 0 → Type 0 → Type 0
Call S A = S → Outcome (A × S)

-- tprot->read… and tprot->skip. The bytes still to be read and the protocol's own bookkeeping are
-- the state. An exception of Thrift is an outcome that raises.
pub record Reader : Type 1 where
  pub State : Type 0
  pub read_struct_begin : Call State (Unit {0})
  pub read_struct_end : Call State (Unit {0})
  pub read_field_begin : Call State (WireType × ℤ)
  pub read_field_end : Call State (Unit {0})
  pub read_list_begin : Call State (WireType × ℕ)
  pub read_list_end : Call State (Unit {0})
  pub read_set_begin : Call State (WireType × ℕ)
  pub read_set_end : Call State (Unit {0})
  pub read_map_begin : Call State (WireType × WireType × ℕ)
  pub read_map_end : Call State (Unit {0})
  pub read_bool : Call State Bool
  pub read_byte : Call State ℤ
  pub read_i16 : Call State ℤ
  pub read_i32 : Call State ℤ
  pub read_i64 : Call State ℤ
  pub read_double : Call State ℕ
  pub read_string : Call State Text
  pub read_binary : Call State Text
  pub skip : WireType → Call State (Unit {0})

-- What the code relies on: a reader that stands at the calls of a writer reads back their
-- arguments, one call after the other. A set is read back from the calls that write a list.
pub record Delivers (p : Reader) : Type 1 where
  pub Holds : p.State → Events → Type 0
  pub struct_begins :
      (s : p.State) (es : Events)
      → Holds s (struct_begin ∷ es)
      → (s' : p.State) × (p.read_struct_begin s ≡ ok (tt, s')) × Holds s' es
  pub struct_ends :
      (s : p.State) (es : Events)
      → Holds s (struct_end ∷ es)
      → (s' : p.State) × (p.read_struct_end s ≡ ok (tt, s')) × Holds s' es
  pub field_begins :
      (t : WireType) (k : ℤ) (s : p.State) (es : Events)
      → Holds s (field_begin t k ∷ es)
      → (s' : p.State) × (p.read_field_begin s ≡ ok ((t, k), s')) × Holds s' es
  pub field_stops :
      (s : p.State) (es : Events)
      → Holds s (field_stop ∷ es)
      → (k : ℤ) × (s' : p.State) × (p.read_field_begin s ≡ ok ((t_stop, k), s')) × Holds s' es
  pub field_ends :
      (s : p.State) (es : Events)
      → Holds s (field_end ∷ es)
      → (s' : p.State) × (p.read_field_end s ≡ ok (tt, s')) × Holds s' es
  pub list_begins :
      (t : WireType) (n : ℕ) (s : p.State) (es : Events)
      → Holds s (list_begin t n ∷ es)
      → (s' : p.State) × (p.read_list_begin s ≡ ok ((t, n), s')) × Holds s' es
  pub list_ends :
      (s : p.State) (es : Events)
      → Holds s (list_end ∷ es)
      → (s' : p.State) × (p.read_list_end s ≡ ok (tt, s')) × Holds s' es
  pub set_begins :
      (t : WireType) (n : ℕ) (s : p.State) (es : Events)
      → Holds s (list_begin t n ∷ es)
      → (s' : p.State) × (p.read_set_begin s ≡ ok ((t, n), s')) × Holds s' es
  pub set_ends :
      (s : p.State) (es : Events)
      → Holds s (list_end ∷ es)
      → (s' : p.State) × (p.read_set_end s ≡ ok (tt, s')) × Holds s' es
  pub map_begins :
      (t u : WireType) (n : ℕ) (s : p.State) (es : Events)
      → Holds s (map_begin t u n ∷ es)
      → (s' : p.State) × (p.read_map_begin s ≡ ok ((t, u, n), s')) × Holds s' es
  pub map_ends :
      (s : p.State) (es : Events)
      → Holds s (map_end ∷ es)
      → (s' : p.State) × (p.read_map_end s ≡ ok (tt, s')) × Holds s' es
  pub bools :
      (b : Bool) (s : p.State) (es : Events)
      → Holds s (write_bool b ∷ es)
      → (s' : p.State) × (p.read_bool s ≡ ok (b, s')) × Holds s' es
  pub bytes :
      (n : ℤ) (s : p.State) (es : Events)
      → Holds s (write_byte n ∷ es)
      → (s' : p.State) × (p.read_byte s ≡ ok (n, s')) × Holds s' es
  pub i16s :
      (n : ℤ) (s : p.State) (es : Events)
      → Holds s (write_i16 n ∷ es)
      → (s' : p.State) × (p.read_i16 s ≡ ok (n, s')) × Holds s' es
  pub i32s :
      (n : ℤ) (s : p.State) (es : Events)
      → Holds s (write_i32 n ∷ es)
      → (s' : p.State) × (p.read_i32 s ≡ ok (n, s')) × Holds s' es
  pub i64s :
      (n : ℤ) (s : p.State) (es : Events)
      → Holds s (write_i64 n ∷ es)
      → (s' : p.State) × (p.read_i64 s ≡ ok (n, s')) × Holds s' es
  pub doubles :
      (d : ℕ) (s : p.State) (es : Events)
      → Holds s (write_double d ∷ es)
      → (s' : p.State) × (p.read_double s ≡ ok (d, s')) × Holds s' es
  pub strings :
      (b : Text) (s : p.State) (es : Events)
      → Holds s (write_string b ∷ es)
      → (s' : p.State) × (p.read_string s ≡ ok (b, s')) × Holds s' es
  pub binaries :
      (b : Text) (s : p.State) (es : Events)
      → Holds s (write_binary b ∷ es)
      → (s' : p.State) × (p.read_binary s ≡ ok (b, s')) × Holds s' es

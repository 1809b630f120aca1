-- ===== src/Tests/Demo.antt =====
-- A protocol whose bytes are the calls themselves, a Ruby with its ranges, and a class of three fields, one a union.
use sparsam.Base.{
  ℕ, ◌==◌, ◌<◌, ltb_ℤ, ℤ, pos, negsuc, Text, txt, ◌≡◌, refl, ap, List, [], ◌∷◌, Bool, true, false,
  ◌||◌, Option, none, some, All, length, arith, if◌then◌else◌, Bool-cases, inl, inr, insert,
  int_key, text_eq,
}
use sparsam.Serializer.Ruby
use sparsam.Serializer.Ruby.{Klass, Value, Pairs, Ivars, Api, IsExact, ivar_get, ivar_set}
use sparsam.Serializer.Outcome.{ok, raise, native_error}
use sparsam.Serializer.Fields.{
  t_struct, WireType, Entry, entry, absent, present, Cache, t_i32, t_list, t_string, t_stop,
  create_field_info_map, fill_field_map, create_field_info, to_field_id,
}
use sparsam.Serializer.FieldMap.{IsCoherent, IsReady}
use sparsam.Serializer.Protocol.{
  Event, Events, Call, Reader, Delivers, struct_begin, struct_end, field_end, field_stop, list_end,
  map_end, field_begin, list_begin, map_begin, write_bool, write_byte, write_i16, write_i32,
  write_i64, write_double, write_string, write_binary,
}
use sparsam.Serializer.Write.{serialize, write_any}
use sparsam.Serializer.RoundTrip.Revive.{is_readable, is_readable_type}

abbrev pub Read : Type 0 → Type 0
Read A = Call Events A

abbrev pub take : {A : Type 0} → (Event → Option A) → Read A
take f [] = raise native_error
take f (e ∷ es) = elim (f e) [ none ↦ raise native_error | some a ↦ ok (a, es) ]

abbrev pub list_size : Event → Option (WireType × ℕ)
list_size (list_begin t n) = some (t, n)
list_size _ = none

abbrev pub tape : Reader
tape = record {
  State = Events;
  read_struct_begin = take (λ e. elim e [ struct_begin ↦ some tt | _ ↦ none ]);
  read_struct_end = take (λ e. elim e [ struct_end ↦ some tt | _ ↦ none ]);
  read_field_begin = take (λ e. elim e [
    | field_begin t k ↦ some (t, k)
    | field_stop ↦ some (t_stop, pos 0)
    | _ ↦ none
  ]);
  read_field_end = take (λ e. elim e [ field_end ↦ some tt | _ ↦ none ]);
  read_list_begin = take list_size;
  read_list_end = take (λ e. elim e [ list_end ↦ some tt | _ ↦ none ]);
  read_set_begin = take list_size;
  read_set_end = take (λ e. elim e [ list_end ↦ some tt | _ ↦ none ]);
  read_map_begin = take (λ e. elim e [ map_begin t u n ↦ some (t, u, n) | _ ↦ none ]);
  read_map_end = take (λ e. elim e [ map_end ↦ some tt | _ ↦ none ]);
  read_bool = take (λ e. elim e [ write_bool b ↦ some b | _ ↦ none ]);
  read_byte = take (λ e. elim e [ write_byte n ↦ some n | _ ↦ none ]);
  read_i16 = take (λ e. elim e [ write_i16 n ↦ some n | _ ↦ none ]);
  read_i32 = take (λ e. elim e [ write_i32 n ↦ some n | _ ↦ none ]);
  read_i64 = take (λ e. elim e [ write_i64 n ↦ some n | _ ↦ none ]);
  read_double = take (λ e. elim e [ write_double d ↦ some d | _ ↦ none ]);
  read_string = take (λ e. elim e [ write_string b ↦ some b | _ ↦ none ]);
  read_binary = take (λ e. elim e [ write_binary b ↦ some b | _ ↦ none ]);
  skip = λ t. take (λ e. some tt);
}

abbrev pub tape-Delivers : Delivers tape
tape-Delivers = record {
  Holds = λ s es. s ≡ es;
  struct_begins = λ s es h. (es, ap tape.read_struct_begin h, refl);
  struct_ends = λ s es h. (es, ap tape.read_struct_end h, refl);
  field_begins = λ t k s es h. (es, ap tape.read_field_begin h, refl);
  field_stops = λ s es h. (pos 0, es, ap tape.read_field_begin h, refl);
  field_ends = λ s es h. (es, ap tape.read_field_end h, refl);
  list_begins = λ t n s es h. (es, ap tape.read_list_begin h, refl);
  list_ends = λ s es h. (es, ap tape.read_list_end h, refl);
  set_begins = λ t n s es h. (es, ap tape.read_set_begin h, refl);
  set_ends = λ s es h. (es, ap tape.read_set_end h, refl);
  map_begins = λ t u n s es h. (es, ap tape.read_map_begin h, refl);
  map_ends = λ s es h. (es, ap tape.read_map_end h, refl);
  bools = λ b s es h. (es, ap tape.read_bool h, refl);
  bytes = λ n s es h. (es, ap tape.read_byte h, refl);
  i16s = λ n s es h. (es, ap tape.read_i16 h, refl);
  i32s = λ n s es h. (es, ap tape.read_i32 h, refl);
  i64s = λ n s es h. (es, ap tape.read_i64 h, refl);
  doubles = λ n s es h. (es, ap tape.read_double h, refl);
  strings = λ n s es h. (es, ap tape.read_string h, refl);
  binaries = λ n s es h. (es, ap tape.read_binary h, refl);
}

-- The integers of a width, by the largest.
abbrev pub within : ℕ → ℤ → Option ℤ
within max n = if ltb_ℤ (pos max) n || ltb_ℤ n (negsuc max) then none else some n

within-same : (max : ℕ) (n m : ℤ) → within max n ≡ some m → m ≡ n
within-same max n m h = elim (Bool-cases (ltb_ℤ (pos max) n || ltb_ℤ n (negsuc max))) [
  | inl outside ↦ cc (rw outside at h)
  | inr inside ↦ cc (rw inside at h)
]

abbrev pub put : Pairs → Value → Value → Pairs
put Ruby.no_pairs k v = Ruby.pair k v Ruby.no_pairs
put (Ruby.pair l w ps) k v = Ruby.pair l w (put ps k v)

abbrev pub ruby : Api
ruby = record {
  fix2short = within 32767;
  fix2int = within 2147483647;
  big2ll = within 9223372036854775807;
  ll2num = Ruby.fixnum;
  set_new = Ruby.set;
  hash_aset = put;
  class_of = λ v. 0;
  new_ivars = λ k. Ruby.no_ivars;
  inherits_union = λ k. k == 2;
  rb_t_string = 5;
  rb_t_array = 7;
  rb_t_hash = 8;
}

pub ruby-IsExact : IsExact ruby
ruby-IsExact = record {
  shorts = within-same 32767;
  ints = within-same 2147483647;
  longs = within-same 9223372036854775807;
}

abbrev pub plain : WireType → Text → Bool → Entry
plain t n opt = entry t opt n false 0 absent absent absent

-- FIELDS of class 1: a required i32, an optional list of strings, out of the order of their ids, and
-- a union, class 2, which has a string and an i32.
abbrev pub demo_fields : Klass → List (ℤ × Entry)
demo_fields k =
    if k == 1
    then (
      pos 2,
      entry t_list true (txt "names") false 0 (present (plain t_string [] false)) absent absent,
    )
      ∷ (pos 1, plain t_i32 (txt "count") false)
      ∷ (pos 3, entry t_struct true (txt "choice") false 2 absent absent absent)
      ∷ []
    else if k == 2
    then (pos 1, plain t_string (txt "text") true) ∷ (pos 2, plain t_i32 (txt "number") true) ∷ []
    else []

abbrev pub demo_ivars : Ivars
demo_ivars =
    Ruby.ivar (txt "@names") (Ruby.array (Ruby.value (Ruby.string true (txt "x")) Ruby.no_values)) (
      Ruby.ivar (txt "@count") (Ruby.fixnum (negsuc 4)) (
        Ruby.ivar (txt "@choice")
          (Ruby.object 2 (Ruby.ivar (txt "@text") (Ruby.string true (txt "y")) Ruby.no_ivars))
          Ruby.no_ivars))

abbrev pub demo_events : Events
demo_events =
    struct_begin
    ∷ field_begin t_i32 (pos 1)
    ∷ write_i32 (negsuc 4)
    ∷ field_end
    ∷ field_begin t_list (pos 2)
    ∷ list_begin t_string 1
    ∷ write_string (txt "x")
    ∷ list_end
    ∷ field_end
    ∷ field_begin t_struct (pos 3)
    ∷ struct_begin
    ∷ field_begin t_string (pos 1)
    ∷ write_string (txt "y")
    ∷ field_end
    ∷ field_stop
    ∷ struct_end
    ∷ field_end
    ∷ field_stop
    ∷ struct_end
    ∷ []

abbrev pub empty_cache : Cache
empty_cache = record { klass_cache = λ k. none; unions = λ k. false }

pub empty_cache-IsCoherent : IsCoherent ruby demo_fields empty_cache
empty_cache-IsCoherent = record {
  maps = λ k. inl refl;
  members = λ k h. cc;
  complete = λ k m h. cc;
}

pub serialize-demo :
    serialize ruby (λ j. create_field_info_map (demo_fields j)) 3 1 (Ruby.object 1 demo_ivars)
    ≡ ok demo_events
unfolding serialize create_field_info_map insert fill_field_map to_field_id create_field_info
    ivar_get text_eq write_any
serialize-demo = refl

-- The class of the union.
abbrev pub demo_warm : Klass → Bool
demo_warm k = k == 2

-- The cache after cache_fields of the union.
abbrev pub warm_cache : Cache
warm_cache = record {
  klass_cache = λ k. if k == 2 then some (create_field_info_map (demo_fields k)) else none;
  unions = λ k. k == 2;
}

pub warm_cache-IsReady : IsReady ruby demo_fields demo_warm warm_cache
warm_cache-IsReady = record {
  coherent = record {
    maps = λ k. elim (Bool-cases (k == 2)) [
      | inl same ↦ inr (rw same refl)
      | inr differ ↦ inl (rw differ refl)
    ];
    members = λ k h. h;
    complete = λ k m h. refl;
  };
  warmed = λ k w. refl;
}

pub demo-readable :
    (k : Klass)
    → All (λ e. is_readable ruby demo_warm e.1 ≡ true) (create_field_info_map (demo_fields k))
unfolding create_field_info_map is_readable is_readable_type insert fill_field_map to_field_id
    create_field_info
demo-readable k = elim (Bool-cases (k == 1)) [
  | inl same ↦ rw same (refl, (refl, (refl, tt)))
  | inr differ ↦ elim (Bool-cases (k == 2)) [
    | inl union ↦ rw (differ, union) (refl, (refl, tt))
    | inr other ↦ rw (differ, other) tt
  ]
]

pub demo-enough : (k : Klass) → length (create_field_info_map (demo_fields k)) < 4
unfolding create_field_info_map insert fill_field_map to_field_id
demo-enough k = elim (Bool-cases (k == 1)) [
  | inl same ↦ rw same (omega arith)
  | inr differ ↦ elim (Bool-cases (k == 2)) [
    | inl union ↦ rw (differ, union) (omega arith)
    | inr other ↦ rw (differ, other) (omega arith)
  ]
]

-- ===== src/Serializer/Fields.antt =====
-- ext/serializer.h and serializer.cpp: TType and its names, FieldInfo, and the cache of the field
-- maps that FindOrCreateFieldInfoMap fills.
use sparsam.Base.{
  ◌≡◌, ==_self, ℕ, zero, suc, ◌-◌, ◌%◌, ◌^◌, ltb, ◌==◌, ℤ, pos, negsuc, Text, txt, Bool, true,
  false, List, [], ◌∷◌, Option, none, some, if◌then◌else◌, Dict, insert, int_key, ◌&&◌, ◌||◌,
}
use sparsam.Serializer.Ruby.{Klass, Api}

-- protocol::TType; a byte on the wire that names no type is `t_other`.
pub data WireType : Type 0 where
  t_stop t_void t_bool t_byte t_double t_i16 t_i32 t_u64 t_i64 t_string t_struct t_map : WireType
  t_set t_list t_utf8 t_utf16 : WireType
  t_other : ℕ → WireType

unfoldable pub wire_id : WireType → ℕ
wire_id t_stop = 0
wire_id t_void = 1
wire_id t_bool = 2
wire_id t_byte = 3
wire_id t_double = 4
wire_id t_i16 = 6
wire_id t_i32 = 8
wire_id t_u64 = 9
wire_id t_i64 = 10
wire_id t_string = 11
wire_id t_struct = 12
wire_id t_map = 13
wire_id t_set = 14
wire_id t_list = 15
wire_id t_utf8 = 16
wire_id t_utf16 = 17
wire_id (t_other n) = n

unfoldable pub same_type : WireType → WireType → Bool
same_type t u = wire_id t == wire_id u

pub same_type_self : (t : WireType) → same_type t t ≡ true
unfolding same_type
same_type_self t = ==_self (wire_id t)

abbrev ttype_names : List Text
ttype_names =
    txt "T_STOP"
    ∷ txt "T_VOID"
    ∷ txt "T_BOOL"
    ∷ txt "T_BYTE or T_I08"
    ∷ txt "T_DOUBLE"
    ∷ txt "T_UNKNOWN"
    ∷ txt "T_I16"
    ∷ txt "T_UNKNOWN"
    ∷ txt "T_I32"
    ∷ txt "T_U64"
    ∷ txt "T_I64"
    ∷ txt "T_STRING or T_UTF7"
    ∷ txt "T_STRUCT"
    ∷ txt "T_MAP"
    ∷ txt "T_SET"
    ∷ txt "T_LIST"
    ∷ txt "T_UTF8"
    ∷ txt "T_UTF16"
    ∷ []

nth_name : ℕ → List Text → Text
nth_name n [] = txt "T_UNKNOWN"
nth_name zero (t ∷ ts) = t
nth_name (suc n) (t ∷ ts) = nth_name n ts

unfoldable pub ttype_name : ℕ → Text
unfolding nth_name
ttype_name n = nth_name n ttype_names

-- A FieldInfo*, which may be NULL in elementType and keyType.
mutual
  pub data FieldInfo : Type 0 where
    -- ftype, klass, name, isOptional, isBinaryString, elementType, keyType
    info : WireType → Klass → Text → Bool → Bool → InfoRef → InfoRef → FieldInfo

  pub data InfoRef : Type 0 where
    null : InfoRef
    ref : FieldInfo → InfoRef

abbrev pub ftype : FieldInfo → WireType
ftype (info t k n o b e m) = t

abbrev pub klass : FieldInfo → Klass
klass (info t k n o b e m) = k

-- symName; ivarName is the same name behind an `@`.
abbrev pub sym_name : FieldInfo → Text
sym_name (info t k n o b e m) = n

abbrev pub ivar_name : FieldInfo → Text
ivar_name i = b'@' ∷ sym_name i

abbrev pub is_optional : FieldInfo → Bool
is_optional (info t k n o b e m) = o

abbrev pub is_binary_string : FieldInfo → Bool
is_binary_string (info t k n o b e m) = b

abbrev pub element_type : FieldInfo → InfoRef
element_type (info t k n o b e m) = e

abbrev pub key_type : FieldInfo → InfoRef
key_type (info t k n o b e m) = m

-- The Ruby hash that describes a field in FIELDS; a key that is absent is `absent`, or false.
mutual
  pub data Entry : Type 0 where
    -- type, optional, name, binary, class, element, key, value
    entry : WireType → Bool → Text → Bool → Klass → EntryRef → EntryRef → EntryRef → Entry

  pub data EntryRef : Type 0 where
    absent : EntryRef
    present : Entry → EntryRef

-- CreateFieldInfo. An entry that a container needs and that is absent leaves no info.
unfoldable mutual
  pub create_field_info : Entry → FieldInfo
  create_field_info (entry t_string opt name binary k e m v) =
      info t_string 0 name opt binary null null
  create_field_info (entry t_struct opt name binary k e m v) =
      info t_struct k name opt false null null
  create_field_info (entry t_list opt name binary k e m v) =
      info t_list 0 name opt false (create_ref e) null
  create_field_info (entry t_set opt name binary k e m v) =
      info t_set 0 name opt false (create_ref e) null
  create_field_info (entry t_map opt name binary k e m v) =
      info t_map 0 name opt false (create_ref v) (create_ref m)
  create_field_info (entry t opt name binary k e m v) = info t 0 name opt false null null

  pub create_ref : EntryRef → InfoRef
  create_ref absent = null
  create_ref (present e) = ref (create_field_info e)

-- The conversion of an int to the int16_t FieldID.
unfoldable pub to_field_id : ℤ → ℤ
to_field_id (pos n) =
    let low = n % 2 ^ 16 in if ltb low (2 ^ 15) then pos low else negsuc (2 ^ 16 - 1 - low)
to_field_id (negsuc n) =
    let low = n % 2 ^ 16 in if ltb low (2 ^ 15) then negsuc low else pos (2 ^ 16 - 1 - low)

abbrev pub FieldInfoMap : Type 0
FieldInfoMap = Dict ℤ FieldInfo

-- CreateFieldInfoMap, over the entries of FIELDS in the order of the hash.
unfoldable pub fill_field_map : FieldInfoMap → List (ℤ × Entry) → FieldInfoMap
fill_field_map m [] = m
fill_field_map m ((k, e) ∷ es) = fill_field_map (insert (to_field_id k) (create_field_info e) m) es

unfoldable pub create_field_info_map : List (ℤ × Entry) → FieldInfoMap
create_field_info_map es = fill_field_map [] es

-- klassCache and unions.
pub record Cache : Type 0 where
  pub klass_cache : Klass → Option FieldInfoMap
  pub unions : Klass → Bool

module _ (api : Api) (fields : Klass → List (ℤ × Entry)) where
  -- FindOrCreateFieldInfoMap
  unfoldable pub find_or_create : Klass → Cache → FieldInfoMap × Cache
  find_or_create k c = elim (c.klass_cache k) [
    | some m ↦ (m, c)
    | none ↦
        let m = create_field_info_map (fields k) in
        (
          m,
          record {
            klass_cache = λ j. if j == k then some m else c.klass_cache j;
            unions = λ j. (j == k && api.inherits_union k) || c.unions j;
          },
        )
  ]

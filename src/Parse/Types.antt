-- ===== src/Parse/Types.antt =====
-- compiler/src/parse/t_type.h, t_base_type.h, t_typedef.h, t_container.h, t_list.h, t_set.h,
-- t_map.h, t_field.h, t_struct.h, t_function.h, t_service.h, t_const.h and t_program.h: the data.
-- A t_struct* is an address into the store, a t_program* a number; other nodes are values.
use sparsam.Base.{ℕ, ℤ, Text, Dict, Bool, true, false, not, List, [], Option}
use sparsam.Parse.Enum.{Enum}
use sparsam.Parse.ConstValue.{ConstValue}

pub data Base : Type 0 where
  type_void type_string type_bool type_byte type_i16 type_i32 type_i64 type_double : Base

-- The flag of a base type is binary_. `typedef_type` knows its type, `forward_typedef` looks its symbolic name up in a program's scope.
pub data TType : Type 0 where
  base_type : Text → Base → Bool → TType
  typedef_type : Text → TType → TType
  forward_typedef : ℕ → Text → TType
  enum_type : Enum → TType
  struct_type : ℕ → TType
  service_type : Text → TType
  list_type set_type : TType → TType
  map_type : TType → TType → TType

pub data Req : Type 0 where
  t_required t_optional t_opt_in_req_out : Req

pub record Field : Type 0 where
  pub type : TType
  pub name : Text
  pub key : ℤ
  pub req : Req
  pub value : Option ConstValue
  pub doc : Option Text
  pub annotations : Dict Text Text

pub record Struct : Type 0 where
  pub name : Text
  pub is_xception : Bool
  pub is_union : Bool
  pub members_validated : Bool
  pub members_with_value : ℕ
  pub members : List Field
  pub members_in_id_order : List Field
  pub doc : Option Text
  pub annotations : Dict Text Text

pub record Function : Type 0 where
  pub returntype : TType
  pub name : Text
  pub arglist : Struct
  pub xceptions : Struct
  pub oneway : Bool

pub record Service : Type 0 where
  pub name : Text
  pub extends : Option Text
  pub functions : List Function

pub record Const : Type 0 where
  pub type : TType
  pub name : Text
  pub value : ConstValue

pub record Typedef : Type 0 where
  pub symbolic : Text
  pub type : TType

-- What the generator reads of an included program.
pub record Included : Type 0 where
  pub name : Text
  pub namespaces : Dict Text Text

pub record Program : Type 0 where
  pub path : Text
  pub name : Text
  pub out_path : Text
  pub out_path_is_absolute : Bool
  pub namespaces : Dict Text Text
  pub includes : List Included
  pub typedefs : List Typedef
  pub enums : List Enum
  pub consts : List Const
  pub objects : List Struct
  pub structs : List Struct
  pub xceptions : List Struct
  pub services : List Service

-- The structs by address, the types of each program's scope by name, and namespaces_ of the program
-- that get_program answers for a type.
pub record Store : Type 0 where
  pub struct_at : ℕ → Struct
  pub scope_type : ℕ → Text → Option TType
  pub namespaces_at : TType → Dict Text Text

module _ (st : Store) where
  unfoldable pub get_name : TType → Text
  get_name (base_type n b q) = n
  get_name (typedef_type n t) = n
  get_name (forward_typedef p n) = n
  get_name (enum_type e) = e.name
  get_name (struct_type a) = (st.struct_at a).name
  get_name (service_type n) = n
  get_name (list_type t) = []
  get_name (set_type t) = []
  get_name (map_type k v) = []

  unfoldable pub is_struct : TType → Bool
  is_struct (struct_type a) = not (st.struct_at a).is_xception
  is_struct _ = false

  unfoldable pub is_xception : TType → Bool
  is_xception (struct_type a) = (st.struct_at a).is_xception
  is_xception _ = false

unfoldable pub is_void : TType → Bool
is_void (base_type n type_void q) = true
is_void _ = false

unfoldable pub is_list : TType → Bool
is_list (list_type t) = true
is_list _ = false

unfoldable pub is_set : TType → Bool
is_set (set_type t) = true
is_set _ = false

unfoldable pub is_map : TType → Bool
is_map (map_type k v) = true
is_map _ = false

unfoldable pub req_eq : Req → Req → Bool
req_eq t_required t_required = true
req_eq t_optional t_optional = true
req_eq t_opt_in_req_out t_opt_in_req_out = true
req_eq _ _ = false

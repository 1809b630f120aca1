-- ===== src/Parse/Grammar.antt =====
-- compiler/src/thrifty.yy: the actions that number fields and the values of an enumeration and put
-- them into their lists; compiler/src/main.cc: validate_simple_identifier. What bison and flex do
-- with the text is not modelled: the definitions of a file arrive here as they are written. In the
-- pass over the includes, where values are dropped, nothing of this is kept.
pub mod EnumValues
pub mod FieldKeys
pub mod Objects
pub mod Unions
pub mod Services
pub mod Throws
use sparsam.Base.{
  ℕ, zero, suc, ◌==◌, leb, ltb, ◌%◌, ◌^◌, ◌-◌, ℤ, pos, negsuc, ◌+ℤ◌, ltb_ℤ, eqb_ℤ, Text, Dict, Bool,
  true, false, ◌&&◌, ◌||◌, List, [], ◌∷◌, Option, none, some, find_char, if◌then◌else◌,
}
use sparsam.Parse.Error.{
  Fallible, throw, ok, ◌>>=◌, dotted_identifier, truncated_enum_value, enum_value_overflow,
  implicit_key, already_used,
}
use sparsam.Parse.Enum.{Enum, EnumValue}
use sparsam.Parse.Enum
use sparsam.Parse.ConstValue.{ConstValue}
use sparsam.Parse.Types.{TType, Field, Struct, Req, t_required, t_optional, t_opt_in_req_out}
use sparsam.Parse.Struct.{new_struct, append}

-- INT32_MIN and INT32_MAX
abbrev pub int32_min : ℤ
int32_min = negsuc 2147483647

abbrev pub int32_max : ℤ
int32_max = pos 2147483647

-- static_cast<int32_t>
unfoldable pub to_int32 : ℤ → ℤ
to_int32 (pos n) =
    let low = n % 2 ^ 32 in if ltb low (2 ^ 31) then pos low else negsuc (2 ^ 32 - 1 - low)
to_int32 (negsuc n) =
    let low = n % 2 ^ 32 in if ltb low (2 ^ 31) then negsuc low else pos (2 ^ 32 - 1 - low)

unfoldable pub validate_simple_identifier : Text → Fallible (Unit {0})
validate_simple_identifier identifier = elim (find_char b'.' identifier) [
  | none ↦ ok tt
  | some i ↦ throw (dotted_identifier identifier)
]

-- EnumValue with the doc of its EnumDef, as it is written.
pub record ValueSource : Type 0 where
  pub name : Text
  pub number : Option ℤ
  pub doc : Option Text

-- EnumValue, in its two forms: its number, which is y_enum_val afterwards.
unfoldable pub enum_number : Text → Option ℤ → ℤ → Fallible ℤ
unfolding validate_simple_identifier to_int32
enum_number name (some n) y_enum_val =
    if ltb_ℤ n int32_min || ltb_ℤ int32_max n
    then throw (truncated_enum_value name)
    else ok (to_int32 n)
enum_number name none y_enum_val = validate_simple_identifier name >>= λ _.
    if eqb_ℤ y_enum_val int32_max
    then throw (enum_value_overflow name)
    else ok (y_enum_val +ℤ pos 1)

-- EnumDefList, behind the definitions that it has.
unfoldable pub enum_values : List ValueSource → ℤ → Enum → Fallible Enum
unfolding enum_number
enum_values [] y_enum_val e = ok e
enum_values (v ∷ vs) y_enum_val e = enum_number v.name v.number y_enum_val >>= λ n.
    enum_values vs n (Enum.append (record { name = v.name; value = n; doc = v.doc }) e)

-- Enum, without the constants that it adds to the scopes.
unfoldable pub enum_definition : Text → List ValueSource → Fallible Enum
unfolding enum_values validate_simple_identifier
enum_definition name vs = enum_values vs (negsuc 0) (record { name = []; constants = [] }) >>= λ e.
    validate_simple_identifier name >>= λ _. ok (record e { name = name })

pub data Requiredness : Type 0 where
  required optional unspecified : Requiredness

-- Field as it is written, without its xsd settings and whether it is a reference.
pub record FieldSource : Type 0 where
  pub identifier : Option ℤ
  pub requiredness : Requiredness
  pub type : TType
  pub name : Text
  pub value : Option ConstValue
  pub doc : Option Text
  pub annotations : Dict Text Text

mutual
  pub data FieldList : Type 0 where
    no_fields : FieldList
    field : FieldSource → Attributes → FieldList → FieldList

  -- XsdAttributes
  pub data Attributes : Type 0 where
    no_attributes : Attributes
    xsd_attrs : FieldList → Attributes

-- t_field_id
pub record FieldId : Type 0 where
  pub value : ℤ
  pub auto_assigned : Bool

-- FieldIdentifier, with g_allow_neg_field_keys, and y_field_val afterwards.
unfoldable pub field_identifier : Bool → Option ℤ → ℤ → FieldId × ℤ
unfolding to_int32
field_identifier neg none y_field_val =
    (record { value = y_field_val; auto_assigned = true }, y_field_val +ℤ negsuc 0)
field_identifier neg (some n) y_field_val =
    if ltb_ℤ (pos 0) n
    then (record { value = to_int32 n; auto_assigned = false }, y_field_val)
    else if neg
    then (record { value = to_int32 n; auto_assigned = false }, to_int32 (n +ℤ negsuc 0))
    else (record { value = y_field_val; auto_assigned = true }, y_field_val +ℤ negsuc 0)

-- FieldRequiredness, with g_arglist
unfoldable pub field_requiredness : Bool → Requiredness → Req
field_requiredness g_arglist required = t_required
field_requiredness true optional = t_opt_in_req_out
field_requiredness false optional = t_optional
field_requiredness g_arglist unspecified = t_opt_in_req_out

-- The globals that these actions read, with resolve_const_value of g_scope and validate_field_value.
pub record Settings : Type 0 where
  pub g_allow_neg_field_keys : Bool
  pub g_strict : ℕ
  pub g_arglist : Bool
  pub resolve_const_value : ConstValue → TType → Fallible ConstValue
  pub validate_field_value : Field → ConstValue → Fallible (Unit {0})

module _ (g : Settings) where
  -- The field before its value.
  abbrev pub bare_field : FieldSource → ℤ → Field
  bare_field f key = record {
    type = f.type;
    name = f.name;
    key = key;
    req = field_requiredness g.g_arglist f.requiredness;
    value = none;
    doc = f.doc;
    annotations = f.annotations;
  }

  unfoldable pub with_value : Option ConstValue → Field → Fallible Field
  with_value none f = ok f
  with_value (some v) f = g.resolve_const_value v f.type >>= λ w.
      g.validate_field_value f w >>= λ _. ok (record f { value = some w })

  -- Field
  unfoldable pub make_field : FieldSource → FieldId → Fallible Field
  unfolding with_value validate_simple_identifier field_requiredness
  make_field f id =
      if id.auto_assigned && leb 192 g.g_strict
      then throw (implicit_key f.name)
      else validate_simple_identifier f.name >>= (λ _. with_value f.value (bare_field f id.value))

  -- FieldList: the answer of append
  unfoldable pub append_field : Field → Struct → Fallible Struct
  append_field f t = append f t >>= λ r. if r.0 then ok r.1 else throw (already_used f.key f.name)

  -- A field list, from y_field_val and the struct so far: the struct and y_field_val in the end.
  unfoldable mutual
    unfolding make_field append_field field_identifier

    pub fields_onto : FieldList → ℤ → Struct → Fallible (Struct × ℤ)
    fields_onto no_fields y_field_val t = ok (t, y_field_val)
    fields_onto (field f attrs fs) y_field_val t =
        let id = field_identifier g.g_allow_neg_field_keys f.identifier y_field_val in
        attributes attrs id.1 >>= λ y.
        make_field f id.0 >>= λ made. append_field made t >>= λ u. fields_onto fs y u

    -- XsdAttributes: the list of fields in it starts y_field_val anew.
    pub attributes : Attributes → ℤ → Fallible ℤ
    attributes no_attributes y_field_val = ok y_field_val
    attributes (xsd_attrs fs) y_field_val =
        fields_onto fs (negsuc 0) (new_struct []) >>= λ r. ok r.1

  -- FieldList from its start
  unfoldable pub field_list : FieldList → Fallible (Struct × ℤ)
  unfolding fields_onto
  field_list fs = fields_onto fs (negsuc 0) (new_struct [])

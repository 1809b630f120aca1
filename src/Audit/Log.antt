-- ===== src/Audit/Log.antt =====
-- compiler/src/audit/t_audit.cpp: what the audit prints, and the failure flag that main reads.
use sparsam.Base.{ℕ, ℤ, Text, Bool, true, false, List, [], ◌∷◌, ◌++◌, ltb, if◌then◌else◌}

-- One constructor for each message of the audit.
pub data Message : Type 0 where
  language_not_found : Text → Message
  namespace_changed : Text → Message
  value_name_changed : ℤ → Text → Message
  enum_value_missing : ℤ → Text → Message
  enum_not_found : Text → Message
  field_type_changed : ℤ → Text → Message
  field_requiredness_changed : ℤ → Text → Message
  default_value_changed : ℤ → Text → Message
  field_name_changed : ℤ → Text → Message
  field_removed : ℤ → Text → Message
  required_field_added : ℤ → Text → Message
  field_added_in_middle : ℤ → Text → Message
  struct_not_found : Text → Message
  oneway_changed : Text → Message
  return_type_changed : Text → Message
  function_missing : Text → Message
  service_missing : Text → Message
  inheritance_changed : Text → Message
  constant_missing : Text → Message
  constant_type_changed : Text → Message
  constant_value_changed : Text → Message

pub record Log : Type 0 where
  pub g_warn : ℕ
  pub printed : List Message
  pub reported : List Message
  pub g_return_failure : Bool

unfoldable pub thrift_audit_warning : ℕ → Message → Log → Log
thrift_audit_warning level m s =
    if ltb s.g_warn level then s else record s { printed = s.printed ++ m ∷ [] }

unfoldable pub thrift_audit_failure : Message → Log → Log
thrift_audit_failure m s = record s { reported = s.reported ++ m ∷ []; g_return_failure = true }

-- if (b) f();
abbrev pub when : Bool → (Log → Log) → Log → Log
when true f s = f s
when false f s = s

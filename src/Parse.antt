-- ===== src/Parse.antt =====
-- The parse tree of compiler/src/parse: enumerations, constants, types, fields, structs, services.
pub mod Error
pub mod Enum
pub mod ConstValue
pub mod Types
pub mod Struct
pub mod Members
pub mod Scope
pub mod Validate
pub mod Resolved
pub mod Collisions
pub mod EnumLookup
pub mod EnumBounds
pub mod EnumNames
pub mod Grammar
pub mod Definitions

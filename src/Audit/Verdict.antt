-- ===== src/Audit/Verdict.antt =====
-- When the audit fails: the flag after each comparison, against a description of what breaks.
pub mod Flag
pub mod Members
pub mod Structs
pub mod Services
pub mod Enums
pub mod Program
pub mod Unique
pub mod Unchanged

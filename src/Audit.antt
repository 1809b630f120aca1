-- ===== src/Audit.antt =====
-- compiler/src/audit/t_audit.cpp: the comparison of an old and a new version of a program.
pub mod Log
pub mod Types
pub mod Defaults
pub mod Structs
pub mod Services
pub mod Enums
pub mod Run
pub mod Shape
pub mod Erase
pub mod Verdict

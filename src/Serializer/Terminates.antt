-- ===== src/Serializer/Terminates.antt =====
-- The writer ends on every value.
pub mod Loops
pub mod Main

-- ===== src/Tests.antt =====
-- Runs of the theorems at concrete inputs.
mod Parsing
mod Auditing
mod Demo
mod Serializing
mod Compiling
mod Diamond
mod Running
mod Generating
mod Rendering
mod Numbering
mod Declaring

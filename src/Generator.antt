-- ===== src/Generator.antt =====
-- compiler/src/generate: t_generator, its registry, and the Ruby generator.
pub mod Naming
pub mod Escape
pub mod Quoted
pub mod Modules
pub mod Stream
pub mod Constants
pub mod Docs
pub mod Fields
pub mod Structs
pub mod Enums
pub mod Programs
pub mod RubyFiles
pub mod Writes
pub mod Resolution
pub mod WellTyped
pub mod Described
pub mod Completes
pub mod Shifts
pub mod WholeProgram
pub mod Pieces
pub mod Comments
pub mod ValueMap
pub mod Registry
pub mod Options

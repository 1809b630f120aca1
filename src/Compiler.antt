-- ===== src/Compiler.antt =====
-- compiler/src/main.cc and t_program.h: names of files, the parse of a program and of what it
-- includes with its headers and docs, the generation, and main with its options.
pub mod Names
pub mod Headers
pub mod NamesEnd
pub mod Including
pub mod Generate
pub mod Once
pub mod Runs
pub mod TreeRuns
pub mod Doctext
pub mod DocStatus
pub mod ProgramDoc
pub mod LineBytes
pub mod DocLines
pub mod Tidy
pub mod ParseFiles
pub mod Ends
pub mod Anew
pub mod Memo
pub mod CommandLine
pub mod Readings
pub mod ParseEnds
pub mod LineEnds
pub mod MainExits
pub mod Main
pub mod MainAudit
pub mod Settings

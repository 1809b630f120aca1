-- ===== src/Lib.antt =====
-- A verification library for sparsam, the Ruby binding of Thrift with its own Thrift compiler.
--
-- The program has two halves. The extension ext/serializer.cpp writes Ruby objects to a Thrift
-- protocol and reads them back; the compiler in compiler/src parses .thrift files into a tree
-- (compiler/src/parse), checks it (compiler/src/main.cc), generates Ruby from it, and audits a new
-- version of a file against an old one (compiler/src/audit/t_audit.cpp).
--
-- Base holds what the modules share: tests on the native numbers, lists, signed integers, byte
-- texts, and std::map as an association list in the order of its keys.
--
-- Parse is the parse tree. Enum is t_enum and t_enum_value, ConstValue is t_const_value, Types
-- the data of the other nodes, Struct is t_struct with append, set_name and the validation of
-- unions. Scope is t_scope's resolve_const_value and t_type's get_true_type, Validate is
-- main.cc's validate_const_rec and validate_throws. A t_struct* is an address into a store, so
-- that a type may name itself; the other nodes are values. What the code throws is a value of
-- Error. The tree after a throw is not kept, since the compiler exits. The proofs are in Members
-- (the invariant of the member vectors, unions), Resolved, EnumLookup, EnumNames and EnumBounds.
-- Collisions is is_unique_typename of t_program.h, with what t_service and t_function refuse.
-- Grammar and Definitions are actions of compiler/src/thrifty.yy: the keys and the list of fields
-- (Grammar.FieldKeys), the values of an enumeration (Grammar.EnumValues), the structs, unions,
-- exceptions, functions and services made of them (Grammar.Objects, with the proofs in
-- Grammar.Unions, Grammar.Throws and Grammar.Services), and what a definition adds to its program with the check
-- of its name (Definitions.Types, Definitions.Shared, Definitions.UniqueTypes).
--
-- Audit is t_audit.cpp, one module for each group of comparisons, and the part of main.cc that
-- calls them (Run). A Log carries what is printed and the flag g_return_failure. Verdict describes,
-- without the order of the code's loops, what makes a version break another, and follows the flag
-- through the comparisons; Shape and Erase describe compare_type and compare_defaults. A std::map
-- that the code fills from a vector is filled the same way.
--
-- Serializer is ext/serializer.cpp and serializer.h. Ruby has the values and a record of what the
-- code calls of the Ruby C API; Protocol has the protocol's calls as a record of readers, and what
-- is relied on of them (each call of a reader returns the arguments of the writer's call). Both
-- are parameters. A writer's result is the sequence of its calls of the protocol, or the exception
-- that it raises; the calls made before an exception are not kept. Fields is the description of a
-- class and the cache klassCache with unions, Write and Read are the two directions. The recursion
-- of readAny and writeAny runs on fuel, which counts nested calls: fuel of the size of a value is
-- enough to write it, and the fuel that wrote a value is enough to read it back. A value is a
-- finite tree: an object of Ruby that is reached from itself has no model, and on one writeAny and
-- writeStruct recur without end. The loop of readStruct has a budget of field headers, for which
-- one more than the fields of the class is enough. An entry of FIELDS that a container needs and
-- that is absent is a null reference here, where the code calls rb_hash_aref on nil. FieldMap,
-- FieldLookup, RoundTrip, Terminates and Accepts hold the proofs; a nested union is read back
-- where its class is in the cache, as after cache_fields.
--
-- Compiler is the rest of main.cc that is modelled: Names (program_name, include_file and the
-- directories of t_program.h), ParseFiles (parse with its cache program_to_scope, where the two
-- passes of the parser over a file are parameters, and with fuel for the depth of the includes; a
-- pass is refused, or crashes as on a file whose first doc is blank, or answers) and Generate
-- (generate with its set generated_files, over a tree of programs; the file system and the runs of
-- generators are parameters here). Headers is what the grammar does with the headers of a file in
-- the two passes, with set_namespace and add_include of t_program.h. CommandLine reads the options
-- of main, with fuel of the number of arguments, of which each round takes one at least; Main is
-- main behind them, and audit with its two parses, over a World: realpath, stat, the parser, the
-- programs that the grammar builds, and the generators. Doctext is clean_up_doctext, whose loop
-- over the lines has fuel: one more than the bytes of the doc, of which each round but the last
-- takes one. DocStatus is the status of the program's doc, with what the lexer and the grammar do
-- to it as a sequence of events. Once, Runs, TreeRuns, Including, NamesEnd, Headers.TwoPasses,
-- DocLines, LineBytes, Tidy, ProgramDoc, Ends, Anew, Memo, Readings, Settings, ParseEnds,
-- LineEnds, MainExits and MainAudit are the proofs.
--
-- Generator is compiler/src/generate: t_generator.h and t_generator.cc (Naming, Escape, Docs,
-- Registry, Programs) and the Ruby generator t_ruby_generator.cc (Stream is t_ruby_ofstream,
-- Modules the namespaces, Constants render_const_value, Fields and Structs what becomes of a
-- struct, Enums of an enumeration, RubyFiles the two files, the directories and the operations
-- of the generator). A function that writes is a step on the text and the indentation of its
-- file, which may throw; what was written before a throw is not kept. Programs has t_generator
-- as a record of its virtual operations, which RubyFiles fills. The loops over a namespace and
-- over options have fuel: the length of their text, of which each round takes a byte.
-- generate_field_data has fuel for the depth of the type behind its typedefs, which
-- IsDescribable measures. How an ostream writes a double, the version of Thrift and the
-- program's factories are parameters. Quoted, Comments, Pieces, Options, ValueMap, Resolution,
-- WellTyped, Described, Completes, Shifts and WholeProgram are proofs.
--
-- A read of a data member that nothing has set is the error `uninitialised` in Parse, where the
-- code takes what stands there and goes on; the model says nothing of what follows.
--
-- get_true_type has fuel too, which counts typedefs; where the code exits on an undefined type, it
-- throws.
--
-- Not modelled: the text that bison and flex read, with the actions of the grammar on typedefs
-- and constants beyond the operations of the parse tree that they call; the functions of
-- t_ruby_generator that nothing calls (generate_initialize, the accessors, the readers and writers
-- of fields) and the helpers for Java, the messages' wording, the dump of docs, the set-up of the
-- extension, md5 and sparsepp (copies of other projects' code), and the Ruby files.
pub mod Base
pub mod Parse
pub mod Audit
pub mod Serializer
pub mod Compiler
pub mod Generator
pub mod Tests

-- ===== src/Lib.antt =====
-- Whale: a compiler toolchain with its own intermediate representation, assemblers, object files,
-- linker and IR interpreter. This library models five of its parts and proves what they promise.
--
-- * Target (Target.antt; target-spec/src/lib.rs and extension.rs): object targets and the storage
--   contract of a target, `ObjectTarget::validate`, `validate_amd64`, `StorageLayout::validate`.
-- * Object (Object.antt, Object/; object/src/core/*.rs and formats/*/relocations.rs): the object
--   file in memory, the relocation tables and `ObjectFile::validate_diagnostic`, which is
--   `Validate.validate`. The linker and the writers only take objects that pass it.
-- * Linker (Linker/; linker/src/core): Layout.antt is layout.rs, `Layout::compute` as `compute`
--   over the loop bodies `place`, `place_sections` and `place_objects`. Symbols.antt is
--   symbol_table.rs, `SymbolTable::resolve` as `resolve` over `add_objects` and `refer_objects`; it
--   validates the objects first. Selection.antt is selection.rs, `select` with its work budget;
--   Selection/Demand.antt and Pulled.antt hold the rule that the loop over an archive follows.
--   Relocation.antt is relocation.rs, `apply_relocations`. Executable.antt and Executable/Emit.antt
--   are executable.rs, `executable_layout` and `write_executable_checked`, which asks the symbols
--   for the entry and the relocations for the payloads. Link.antt is linker.rs: `link_with_limit`
--   validates the inputs, selects objects and writes the executable of the selected ones.
-- * Ir (Ir.antt, Ir/; ir/src): types and constants; Ir/Layout.antt is layout.rs; Ir/Integer.antt is
--   interpreter/integer.rs and constant.rs; Ir/Memory/ is interpreter/memory.rs. The memory asks the
--   layout for sizes and the integers for patterns.
-- * Assembler (Assembler.antt, Assembler/; assembler/src/fixed.rs and
--   assembler/riscv64/src/encoding): `fixed::displacement`, the RISC-V instruction formats and the conditional branch.
--
-- Prelude, Names and Tests hold shared notions, names as byte lists, and runs at concrete inputs.
--
-- Machine integers are natural numbers with their bound or wrap-around written out; `usize` has 64
-- bits. An error is a value of a result type; messages are not modelled. A panic of the source is an
-- error value of its own: `panicked` or `unreachable`, but for the slice writes of the memory, whose
-- span `access` has found inside the bytes; a memory keeps one flag for each byte. Loops over lists are structural recursion. The
-- rescans of an archive take as many rounds as it has members and one more, which is proved to be
-- enough; the work budget of the selection and the nesting limit of a type layout are the source's.
-- A hash map is an association list. The memory takes a `Host`, which says which reservations of the
-- standard library succeed and what the capacity of a hash map is, and every theorem holds for all
-- of them.
--
-- Not modelled: the parser, printer, builder, verifier and engine of the IR, AST lowering, floating
-- point, the parsers of assembly and the other encoders, the readers and writers of object files and
-- archives, command lines and diagnostics.
pub mod Prelude
pub mod Names
pub mod Target
pub mod Object
pub mod Linker
pub mod Ir
pub mod Assembler
mod Tests

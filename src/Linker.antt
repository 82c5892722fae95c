-- ===== src/Linker.antt =====
-- linker/src/core: placement of sections, symbol resolution, archive selection, relocation.
pub mod Layout
pub mod Symbols
pub mod Selection
pub mod Relocation
pub mod Executable
pub mod Link

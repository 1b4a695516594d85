-- ===== src/Compiler.antt =====
-- MSLC, the compiler: its growing array, the numbers of its symbols, and the writing of its object files.
pub mod ChunkArray
pub mod Packer
pub mod UnhandledSymbols
mod Tests

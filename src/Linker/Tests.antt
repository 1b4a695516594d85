-- ===== src/Linker/Tests.antt =====
-- The linker on concrete input, and instances of the theorems about it.
mod Translation
mod Files

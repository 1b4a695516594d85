-- ===== src/Vm/Tests.antt =====
-- Runs of the machine on concrete input, and instances of its theorems.
pub mod Machine
mod Blocks
mod Memories
mod Instructions
mod Runs

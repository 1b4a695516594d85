-- ===== src/Vm.antt =====
-- The virtual machine, MSLVM.
pub mod Definitions
pub mod SpecialRegister
pub mod Flag
pub mod Errors
pub mod Stack
pub mod Memory
pub mod LinkedList
pub mod Interval
pub mod Heap
pub mod Reals
pub mod State
pub mod Instruction
pub mod Execution
pub mod Script
pub mod Tests

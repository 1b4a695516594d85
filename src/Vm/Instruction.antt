-- ===== src/Vm/Instruction.antt =====
-- The cases of the switch in `execute_code_switch`, MSLVM/source/execution/vm_execution.cpp.
pub mod Arithmetic
pub mod Logic
pub mod Compare
pub mod Access
pub mod Blocks
pub mod Control
pub mod Calls

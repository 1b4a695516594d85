-- ===== src/Vm/Errors.antt =====
-- MSLVM/include/mslvm/vm_errors.hpp: error codes, their types, and the frames of the error stack.
use malachite_scripting_lang.Prelude.{ℕ}

-- ErrorCode, less the SECTION_ marks, which no code uses.
pub data ErrorCode : Type 0 where
  no_error : ErrorCode
  invalid_magic invalid_file_path invalid_file another_vm_version : ErrorCode
  zero_division nan_value inf_value invalid_vm_call : ErrorCode
  invalid_vm_memory failed_memory_freeing failed_memory_allocation : ErrorCode
  stack_overflow stack_underflow invalid_memory_access : ErrorCode
  attempt_of_rod_rewriting frame_expansion_failed : ErrorCode

-- `static_cast<register_unsigned>(code)`
unfoldable pub error_number : ErrorCode → ℕ
error_number no_error = 0
error_number invalid_magic = 2
error_number invalid_file_path = 3
error_number invalid_file = 4
error_number another_vm_version = 5
error_number zero_division = 101
error_number nan_value = 102
error_number inf_value = 103
error_number invalid_vm_call = 104
error_number invalid_vm_memory = 401
error_number failed_memory_freeing = 402
error_number failed_memory_allocation = 403
error_number stack_overflow = 404
error_number stack_underflow = 405
error_number invalid_memory_access = 406
error_number attempt_of_rod_rewriting = 407
error_number frame_expansion_failed = 408

-- ErrorType; the type of a user's exception is never given by the map below.
pub data ErrorType : Type 0 where
  critical major minor no_error user_exception : ErrorType

-- ErrorsMap::GetType
unfoldable pub error_type : ErrorCode → ErrorType
error_type no_error = no_error
error_type nan_value = major
error_type inf_value = minor
error_type failed_memory_freeing = major
error_type failed_memory_allocation = major
error_type _ = critical

pub record ErrorFrame : Type 0 where
  pub instruction_counter : ℕ
  pub frame_fp : ℕ
  pub frame_sp : ℕ
  pub code : ErrorCode
  pub type : ErrorType

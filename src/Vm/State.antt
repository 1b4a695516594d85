-- ===== src/Vm/State.antt =====
-- VMState of MSLVM/include/mslvm/vm_types.hpp: registers, memory, free blocks, call stack and error
-- stack; and what the machine has printed.
pub mod Flags
use malachite_scripting_lang.Prelude.{
  ℕ, ◌-◌, ◌^◌, bit_and, bit_or, Bool, true, false, List, [], ◌∷◌, not, ltb, ◌==◌, if◌then◌else◌,
}
use malachite_scripting_lang.Prelude.Int.{ℤ}
use malachite_scripting_lang.Outcome.{Outcome, ok, undefined, ◌>>=◌}
use malachite_scripting_lang.Vm.Definitions.{u64, total_registers, error_stack_size}
use malachite_scripting_lang.Vm.SpecialRegister
use malachite_scripting_lang.Vm.Flag
use malachite_scripting_lang.Vm.Errors.{ErrorCode, ErrorType, ErrorFrame, error_type}
use malachite_scripting_lang.Vm.Stack
use malachite_scripting_lang.Vm.Stack.{VmStack}
use malachite_scripting_lang.Vm.Memory.{DynamicMemory, empty_memory}
use malachite_scripting_lang.Vm.Heap.{HeapFreeIntervals, no_intervals}

pub record CallFrame : Type 0 where
  pub sp : ℕ
  pub fp : ℕ
  pub ip : ℕ

-- What a print call sends to the standard output: an `int64_t`, a `uint64_t`, one byte, a `double`.
pub data Output : Type 0 where
  integer : ℤ → Output
  unsigned : ℕ → Output
  char : ℕ → Output
  real : ℕ → Output

pub record VmState : Type 0 where
  pub registers : ℕ → ℕ
  pub memory : DynamicMemory
  pub hfi : HeapFreeIntervals
  pub call_stack : VmStack CallFrame
  pub error_stack : VmStack ErrorFrame
  -- The last print first.
  pub output : List Output

-- `VMState()`
abbrev pub initial_state : VmState
initial_state = record {
  registers = λ r. 0;
  memory = empty_memory;
  hfi = no_intervals;
  call_stack = record { m_data = λ i. record { sp = 0; fp = 0; ip = 0 }; m_top = 0 };
  error_stack = record {
    m_data = λ i. record {
      instruction_counter = 0;
      frame_fp = 0;
      frame_sp = 0;
      code = ErrorCode.no_error;
      type = ErrorType.critical;
    };
    m_top = 0;
  };
  output = [];
}

-- `registers[r] = word` at an index that the array has.
abbrev pub put : VmState → ℕ → ℕ → VmState
put s r word = record s { registers = λ i. if i == r then word else s.registers i }

-- `registers[r]`
abbrev pub register : ℕ → VmState → Outcome ℕ
register r s = if ltb r total_registers then ok (s.registers r) else undefined

-- `registers[r] = word`
abbrev pub set_register : ℕ → ℕ → VmState → Outcome VmState
set_register r word s = if ltb r total_registers then ok (put s r word) else undefined

-- `registers[FL].u |= flags`
abbrev pub set_flags : ℕ → VmState → VmState
set_flags flags s = put s SpecialRegister.fl (bit_or (s.registers SpecialRegister.fl) flags)

-- `registers[FL].u &= ~flags`
abbrev pub clear_flags : ℕ → VmState → VmState
clear_flags flags s =
    put s SpecialRegister.fl (bit_and (s.registers SpecialRegister.fl) (2 ^ 64 - 1 - flags))

-- `registers[FL].u & flags`, as a condition
abbrev pub has_flags : ℕ → VmState → Bool
has_flags flags s = not (bit_and (s.registers SpecialRegister.fl) flags == 0)

abbrev pub is_critical : ErrorType → Bool
is_critical ErrorType.critical = true
is_critical _ = false

-- Raise
unfoldable pub raise : ErrorCode → VmState → Outcome VmState
unfolding error_type Stack.push
raise ecode s = do
  let frame : ErrorFrame = record {
    instruction_counter = s.registers SpecialRegister.ip;
    frame_fp = s.registers SpecialRegister.fp;
    frame_sp = s.registers SpecialRegister.sp;
    code = ecode;
    type = error_type ecode;
  }
  errors ← Stack.push error_stack_size frame s.error_stack
  let raised = record s { error_stack = errors }
  ok (if is_critical (error_type ecode) then set_flags Flag.stopped raised else raised)

-- ===== src/Vm/Tests/Runs.antt =====
-- Rounds and runs of the machine.
use malachite_scripting_lang.Prelude.{
  ℕ, ◌≤◌, ◌≡◌, refl, arith, true, false, leb, ltb, ◌==◌, ◌&&◌, if◌then◌else◌, Option, none, some,
}
use malachite_scripting_lang.Outcome.{Outcome, ok, undefined, ◌>>=◌, Returns, Returned}
use malachite_scripting_lang.Vm.Definitions.{
  VmOperation, VmOperationCode, call_stack_size, div_rrr_integer,
}
use malachite_scripting_lang.Vm.SpecialRegister
use malachite_scripting_lang.Vm.Flag
use malachite_scripting_lang.Vm.Errors.{zero_division}
use malachite_scripting_lang.Vm.Memory
use malachite_scripting_lang.Vm.Memory.{get_heap_end}
use malachite_scripting_lang.Vm.Heap.{allocate}
use malachite_scripting_lang.Vm.Heap.Reserve.{is_free}
use malachite_scripting_lang.Vm.Stack
use malachite_scripting_lang.Vm.State.{VmState, raise, set_flags}
use malachite_scripting_lang.Vm.Instruction.Control
use malachite_scripting_lang.Vm.Execution.{
  clear_vm_state, execute_operation, execute_loop, execute_code_switch,
}
use malachite_scripting_lang.Vm.Script.{FileStream, load_script}
use malachite_scripting_lang.Vm.Script.Failure.{Reported, load_script-hides_reason}
use malachite_scripting_lang.Vm.Execution.Behaves.{Behaves, frame}
use malachite_scripting_lang.Vm.Execution.Operations.{execute_operation-Behaves}
use malachite_scripting_lang.Vm.Execution.Rounds.{execute_loop-keeps}
use malachite_scripting_lang.Vm.Execution.Reset.{clear_vm_state-clears, clear_vm_state-frees_end}
use malachite_scripting_lang.Vm.Execution.Stops.{
  Recorded, IsAt, raise-records, execute_loop-halt, execute_loop-zero_division,
}
use malachite_scripting_lang.Vm.Tests.Machine.{
  whole_reals, machine, machine_of, memory_of-IsLaidOut, coded, operation_of,
}

abbrev halting : VmOperation
halting = operation_of 0 0 0 VmOperationCode.halt

abbrev halted : VmState
halted = set_flags Flag.stopped machine

machine-IsAt : IsAt halting machine
unfolding Memory.get_operation Memory.get_operations_count
machine-IsAt = record {
  in_code = refl;
  fetched = refl;
  not_jumped = refl;
  not_stopped = refl;
  no_status = refl;
}

execute_loop-halt_example : execute_loop whole_reals 3 machine ≡ ok (some halted)
execute_loop-halt_example = execute_loop-halt whole_reals halting machine machine-IsAt 2 refl

execute_loop-keeps_example :
    (frame halted.memory ≡ frame machine.memory)
    × (machine.call_stack.m_top ≤ call_stack_size → halted.call_stack.m_top ≤ call_stack_size)
execute_loop-keeps_example = execute_loop-keeps whole_reals 3 machine halted execute_loop-halt_run
  where
    execute_loop-halt_run : execute_loop whole_reals 3 machine ≡ ok (some halted)
    execute_loop-halt_run = execute_loop-halt whole_reals halting machine machine-IsAt 2 refl

-- IP at the end of a run.
abbrev ended_at : Option VmState → Outcome ℕ
ended_at none = undefined
ended_at (some s) = ok (s.registers SpecialRegister.ip)

-- NOP, HALT: the run ends at the second operation.
runs : (execute_code_switch whole_reals 9 (machine_of (coded 0 51) 0) >>= ended_at) ≡ ok 1
unfolding execute_code_switch Control.halt
runs = refl

execute_operation-Behaves_example :
    Behaves 2 machine (execute_operation whole_reals VmOperationCode.call halting machine)
execute_operation-Behaves_example =
    execute_operation-Behaves whole_reals machine halting VmOperationCode.call

raise-records_example : Returns (Recorded zero_division machine) (raise zero_division machine)
raise-records_example = raise-records zero_division machine (omega arith)

-- A division by register 0, which holds 0.
abbrev dividing : VmState
dividing = machine_of (coded 8 51) 0

abbrev division : VmOperation
division = operation_of 0 0 0 div_rrr_integer

dividing-IsAt : IsAt division dividing
unfolding Memory.get_operation Memory.get_operations_count
dividing-IsAt = record {
  in_code = refl;
  fetched = refl;
  not_jumped = refl;
  not_stopped = refl;
  no_status = refl;
}

execute_loop-zero_division_example :
    (s' : VmState) × (execute_loop whole_reals 1 dividing ≡ ok (some s'))
    × ((Stack.top s'.error_stack >>= λ frame. ok frame.code) ≡ ok zero_division)
execute_loop-zero_division_example =
    execute_loop-zero_division whole_reals division dividing dividing-IsAt 0 refl (omega arith) refl
      (omega arith)

clear_vm_state-clears_example :
    Returns
      (λ s'.
        (s'.registers SpecialRegister.sp ≡ 8)
        × ((r : ℕ) → (r == SpecialRegister.sp) ≡ false → s'.registers r ≡ 0)
        × (s'.call_stack.m_top ≡ 0)
        × (s'.error_stack.m_top ≡ 0)
        × ((a : ℕ)
            → s'.memory.cell a ≡ (if false && (leb 72 a && ltb a 65606) then 0 else coded 51 51 a)))
      (clear_vm_state false machine)
clear_vm_state-clears_example =
    clear_vm_state-clears machine (memory_of-IsLaidOut (coded 51 51)) false

clear_vm_state-frees_end_example :
    Returns (λ s'. is_free s'.hfi 65542 ≡ true) (clear_vm_state true machine)
clear_vm_state-frees_end_example =
    clear_vm_state-frees_end machine (memory_of-IsLaidOut (coded 51 51)) true

-- The addresses that two allocations of the whole heap give.
allocate_twice : VmState → Outcome (ℕ × ℕ)
unfolding allocate
allocate_twice s =
    let first = allocate 32768 0 s.hfi in
    let second = allocate 32768 0 first.intervals in ok (first.address, second.address)

-- After two resets the whole heap is twice in the list, and two allocations get the same address.
twice : (clear_vm_state true machine >>= clear_vm_state true >>= allocate_twice) ≡ ok (32775, 32775)
unfolding clear_vm_state allocate_twice
twice = refl

-- The four bytes "MSLI" and no more are read behind their end.
abbrev short_file : FileStream
short_file = record {
  file_size = 4;
  byte = λ a. if a == 0 then 0x4d else if a == 1 then 0x53 else if a == 2 then 0x4c else 0x49;
}

too_short :
    (load_script (some (λ a. 0)) (λ a. 0) (some short_file) machine >>= λ r. ok r.0) ≡ undefined
unfolding load_script
too_short = refl

load_script-hides_reason_example :
    Returned (Reported machine) (load_script (some (λ a. 0)) (λ a. 0) none machine)
load_script-hides_reason_example = load_script-hides_reason (some (λ a. 0)) (λ a. 0) machine none

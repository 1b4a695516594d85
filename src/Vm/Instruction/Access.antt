-- ===== src/Vm/Instruction/Access.antt =====
-- Moves, the stack and the memory accesses of `execute_code_switch`.
pub mod RoundTrip
pub mod Inside
pub mod Outside
use malachite_scripting_lang.Prelude.{ℕ, ◌+◌, Bool, ltb, leb, ◌==◌, if◌then◌else◌}
use malachite_scripting_lang.Outcome.{Outcome, ok, ◌>>=◌}
use malachite_scripting_lang.Vm.Definitions.{VmOperation, u64, sub64}
use malachite_scripting_lang.Vm.SpecialRegister
use malachite_scripting_lang.Vm.Errors.{stack_overflow, invalid_memory_access}
use malachite_scripting_lang.Vm.Memory
use malachite_scripting_lang.Vm.Memory.{DynamicMemory, check_intervals}
use malachite_scripting_lang.Vm.State.{VmState, put, register, set_register, raise}

unfoldable pub mov_rr : VmOperation → VmState → Outcome VmState
mov_rr o s = do a ← register o.arg1 s; set_register o.arg0 a s

unfoldable pub mov_ri : VmOperation → VmState → Outcome VmState
mov_ri o s = set_register o.arg0 o.arg1 s

-- `memory.Write`, and the state with the new memory.
unfoldable pub write_memory : ℕ → ℕ → ℕ → VmState → Outcome VmState
unfolding Memory.write
write_memory address value size s = do
  m ← Memory.write s.memory address value size
  ok (record s { memory = m })

-- `registers[arg0] = memory.Read(address, size)`
unfoldable pub read_into : ℕ → ℕ → ℕ → VmState → Outcome VmState
unfolding Memory.read
read_into r address size s = do value ← Memory.read s.memory address size; set_register r value s

unfoldable pub push : VmOperation → VmState → Outcome VmState
unfolding raise write_memory check_intervals
push o s =
    let size = o.arg1 in
    let sp = s.registers SpecialRegister.sp in
    if check_intervals s.memory.stack_sa s.memory.heap_sa sp size
    then (do
      value ← register o.arg0 s
      written ← write_memory sp value size s
      ok (put written SpecialRegister.sp (u64 (sp + size))))
    else raise stack_overflow s

unfoldable pub pop : VmOperation → VmState → Outcome VmState
unfolding raise read_into check_intervals
pop o s =
    let size = o.arg1 in
    let new_sp = sub64 (s.registers SpecialRegister.sp) size in
    if check_intervals s.memory.stack_sa s.memory.heap_sa new_sp 0
    then (do loaded ← read_into o.arg0 new_sp size s; ok (put loaded SpecialRegister.sp new_sp))
    else raise stack_overflow s

unfoldable pub load_absolute : VmOperation → VmState → Outcome VmState
unfolding raise read_into check_intervals
load_absolute o s =
    if check_intervals 0 s.memory.heap_sa o.arg1 o.arg2
    then read_into o.arg0 o.arg1 o.arg2 s
    else raise invalid_memory_access s

unfoldable pub load_local : VmOperation → VmState → Outcome VmState
unfolding raise read_into check_intervals
load_local o s =
    let address = u64 (s.registers SpecialRegister.fp + o.arg1) in
    if check_intervals 0 s.memory.heap_sa address o.arg2
    then read_into o.arg0 address o.arg2 s
    else raise invalid_memory_access s

unfoldable pub store_local : VmOperation → VmState → Outcome VmState
unfolding raise write_memory check_intervals
store_local o s = do
  value ← register o.arg0 s
  let address = u64 (s.registers SpecialRegister.fp + o.arg1)
  if check_intervals s.memory.stack_sa s.memory.heap_sa address o.arg2
      then write_memory address value o.arg2 s
      else raise invalid_memory_access s

unfoldable pub load_by_address : VmOperation → VmState → Outcome VmState
unfolding raise read_into check_intervals
load_by_address o s = do
  address ← register o.arg1 s
  if o.arg2 == 0
      then set_register o.arg0 0 s
      else if check_intervals 0 s.memory.end address o.arg2
      then read_into o.arg0 address o.arg2 s
      else raise invalid_memory_access s

-- There is no check of the interval here.
unfoldable pub store_by_address : VmOperation → VmState → Outcome VmState
unfolding write_memory
store_by_address o s = do
  value ← register o.arg0 s
  address ← register o.arg1 s
  if o.arg2 == 0 then ok s else write_memory address value o.arg2 s

unfoldable pub calc_frame_address : VmOperation → VmState → Outcome VmState
calc_frame_address o s = set_register o.arg0 (u64 (s.registers SpecialRegister.fp + o.arg1)) s

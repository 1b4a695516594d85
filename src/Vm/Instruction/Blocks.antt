-- ===== src/Vm/Instruction/Blocks.antt =====
-- Allocation, copies and GRAB_FRAME of `execute_code_switch`.
use malachite_scripting_lang.Prelude.{ℕ, ◌+◌, ltb, ◌==◌, ◌||◌, if◌then◌else◌}
use malachite_scripting_lang.Outcome.{Outcome, ok, ◌>>=◌}
use malachite_scripting_lang.Vm.Definitions.{VmOperation, u64, sub64}
use malachite_scripting_lang.Vm.SpecialRegister
use malachite_scripting_lang.Vm.Errors.{
  ErrorCode, failed_memory_allocation, failed_memory_freeing, invalid_memory_access,
  frame_expansion_failed, stack_underflow,
}
use malachite_scripting_lang.Vm.Memory
use malachite_scripting_lang.Vm.Memory.{no_errors}
use malachite_scripting_lang.Vm.Heap
use malachite_scripting_lang.Vm.Heap.{Allocation}
use malachite_scripting_lang.Vm.Stack
use malachite_scripting_lang.Vm.State.{VmState, put, register, set_register, raise}

-- `if (t != NoError) { Raise(t); break; }` and what follows it.
abbrev pub unless_error : ErrorCode → VmState → Outcome VmState → Outcome VmState
unless_error code s next = if no_errors code then next else raise code s

unfoldable pub allocate_memory : VmOperation → VmState → Outcome VmState
unfolding raise Heap.allocate
allocate_memory o s = do
  size ← register o.arg1 s
  let given = Heap.allocate size s.memory.heap_sa s.hfi
  if size == 0
      then raise failed_memory_allocation s
      else unless_error given.code (record s { hfi = given.intervals })
          (set_register o.arg0 given.address (record s { hfi = given.intervals }))

unfoldable pub free_memory : VmOperation → VmState → Outcome VmState
unfolding raise Heap.free
free_memory o s = do
  address ← register o.arg0 s
  size ← register o.arg1 s
  let freed = Heap.free address size s.hfi
  if ltb address s.memory.heap_sa || ltb s.memory.end (u64 (address + size))
      then raise failed_memory_freeing s
      else unless_error freed.0 (record s { hfi = freed.1 }) (ok (record s { hfi = freed.1 }))

-- The part that both copies share.
unfoldable pub copy_checked : ℕ → ℕ → ℕ → VmState → Outcome VmState
unfolding raise Memory.copy
copy_checked dest src size s =
    if ltb s.memory.end (u64 (dest + size))
    then raise invalid_memory_access s
    else (do m ← Memory.copy s.memory dest src size; ok (record s { memory = m }))

unfoldable pub static_copy : VmOperation → VmState → Outcome VmState
unfolding copy_checked
static_copy o s = copy_checked o.arg0 o.arg1 o.arg2 s

unfoldable pub dynamic_copy : VmOperation → VmState → Outcome VmState
unfolding copy_checked
dynamic_copy o s = do
  dest ← register o.arg0 s
  src ← register o.arg1 s
  size ← register o.arg2 s
  copy_checked dest src size s

unfoldable pub grab_frame : VmOperation → VmState → Outcome VmState
unfolding raise Stack.empty Stack.top Stack.set_top
grab_frame o s =
    let new_fp = sub64 (s.registers SpecialRegister.fp) o.arg0 in
    if Stack.empty s.call_stack then raise frame_expansion_failed s else do
      t ← Stack.top s.call_stack
      if ltb s.memory.heap_sa new_fp
          then raise stack_underflow s
          else if ltb new_fp t.fp
          then raise frame_expansion_failed s
          else do
            frames ← Stack.set_top (record t { sp = sub64 t.sp o.arg0 }) s.call_stack
            ok (put (record s { call_stack = frames }) SpecialRegister.fp new_fp)

-- ===== src/Vm/Execution/Operations/Blocks.antt =====
-- The cases of the switch that use the heap's blocks, the call stack or the error stack.
use malachite_scripting_lang.Prelude.{
  ℕ, ◌+◌, refl, arith, ltb, leb, ◌==◌, ◌||◌, Bool-cases, inl, inr,
}
use malachite_scripting_lang.Outcome.{Outcome, ok}
use malachite_scripting_lang.Vm.Definitions.{
  VmOperation, call_stack_size, total_registers, u64, sub64,
}
use malachite_scripting_lang.Vm.SpecialRegister
use malachite_scripting_lang.Vm.Errors.{
  ErrorCode, stack_overflow, stack_underflow, failed_memory_allocation, failed_memory_freeing,
  frame_expansion_failed,
}
use malachite_scripting_lang.Vm.Stack
use malachite_scripting_lang.Vm.Stack.{VmStack}
use malachite_scripting_lang.Vm.Memory.{no_errors}
use malachite_scripting_lang.Vm.State.{VmState, raise}
use malachite_scripting_lang.Vm.Execution.Behaves.{
  Behaves, Follows, Follows-refl, Follows-if, Follows-put, Behaves-then, Behaves-if,
  Behaves-set_register,
}
use malachite_scripting_lang.Vm.Heap
use malachite_scripting_lang.Vm.Heap.{HeapFreeIntervals, Allocation}
use malachite_scripting_lang.Vm.Instruction.Blocks.{
  allocate_memory, free_memory, static_copy, dynamic_copy, grab_frame, unless_error,
}
use malachite_scripting_lang.Vm.Instruction.Control.{jmp, jmp_cv, jmp_cnv, call, ret, halt, jump_to}
use malachite_scripting_lang.Vm.Instruction.Calls.{
  VmCallType, print_integer, print_real, print_unsigned, print_char, get_error, unlisted,
  handle_vm_call, handle_call, call_type, get_error_into,
}
use malachite_scripting_lang.Vm.Execution.Operations.Registers.{raises, reads, writes}
use malachite_scripting_lang.Vm.Execution.Operations.Memories.{copy_checked-Behaves}

module _ (s : VmState) where
  with_blocks : (n : ℕ) (h : HeapFreeIntervals) → Follows n s (record s { hfi = h })
  with_blocks n h = record { same_frame = refl; calls = λ c. c; errors = omega arith }

  unless_error-Behaves :
      (code : ErrorCode) (h : HeapFreeIntervals) (next : Outcome VmState)
      → Behaves 2 s next
      → Behaves 2 s (unless_error code (record s { hfi = h }) next)
  unless_error-Behaves code h next b =
      Behaves-if 2 s (no_errors code) next (raise code (record s { hfi = h })) b (
        Behaves-then 0 2 s (ok (record s { hfi = h })) (raise code) (with_blocks 0 h)
          (raises 1 code))

  module _ (o : VmOperation) where
    pub allocate_memory-Behaves : Behaves 2 s (allocate_memory o s)
    unfolding allocate_memory
    allocate_memory-Behaves = reads 2 s o.arg1 _ λ size.
        Behaves-if 2 s (size == 0) _ _ (raises 1 failed_memory_allocation s) (
          unless_error-Behaves (given size).code (given size).intervals _ (
            Behaves-set_register 2 o.arg0 (given size).address s
              (record s { hfi = (given size).intervals }) (with_blocks 2 (given size).intervals)))
      where
        given : ℕ → Allocation
        given size = Heap.allocate size s.memory.heap_sa s.hfi

    pub free_memory-Behaves : Behaves 2 s (free_memory o s)
    unfolding free_memory
    free_memory-Behaves = reads 2 s o.arg0 _ λ address. reads 2 s o.arg1 _ λ size.
        Behaves-if 2 s (ltb address s.memory.heap_sa || ltb s.memory.end (u64 (address + size))) _ _
          (raises 1 failed_memory_freeing s)
          (unless_error-Behaves (Heap.free address size s.hfi).0 (Heap.free address size s.hfi).1 _
            (with_blocks 2 (Heap.free address size s.hfi).1))

    pub static_copy-Behaves : Behaves 2 s (static_copy o s)
    unfolding static_copy
    static_copy-Behaves = copy_checked-Behaves s o.arg0 o.arg1 o.arg2

    pub dynamic_copy-Behaves : Behaves 2 s (dynamic_copy o s)
    unfolding dynamic_copy
    dynamic_copy-Behaves = reads 2 s o.arg0 _ λ dest.
        reads 2 s o.arg1 _ λ src. reads 2 s o.arg2 _ λ size. copy_checked-Behaves s dest src size

    pub jmp-Behaves : Behaves 2 s (jmp o s)
    unfolding jmp jump_to
    jmp-Behaves = record { same_frame = refl; calls = λ h. h; errors = omega arith }

    jump_to-Follows : (place : ℕ) → Follows 2 s (jump_to place s)
    unfolding jump_to
    jump_to-Follows place = record { same_frame = refl; calls = λ h. h; errors = omega arith }

    pub jmp_cv-Behaves : Behaves 2 s (jmp_cv o s)
    unfolding jmp_cv
    jmp_cv-Behaves =
        reads 2 s o.arg1 _ λ condition.
          Follows-if 2 s (condition == 0) _ _ (Follows-refl 2 s) (jump_to-Follows o.arg0)

    pub jmp_cnv-Behaves : Behaves 2 s (jmp_cnv o s)
    unfolding jmp_cnv
    jmp_cnv-Behaves =
        reads 2 s o.arg1 _ λ condition.
          Follows-if 2 s (condition == 0) _ _ (jump_to-Follows o.arg0) (Follows-refl 2 s)

    pub halt-Behaves : Behaves 2 s (halt o s)
    unfolding halt
    halt-Behaves = Follows-put 2 s s _ _ (Follows-refl 2 s)

    pub call-Behaves : Behaves 2 s (call o s)
    unfolding call Stack.size Stack.push jump_to
    call-Behaves = elim (Bool-cases (leb call_stack_size s.call_stack.m_top)) [
      | inl full ↦ rw full (raises 1 stack_overflow s)
      | inr room ↦
          rw room
            (record { same_frame = refl; calls = λ h. ground (arith, room); errors = omega arith })
    ]

    pub ret-Behaves : Behaves 2 s (ret o s)
    unfolding ret Stack.empty Stack.pop
    ret-Behaves = elim (Bool-cases (s.call_stack.m_top == 0)) [
      | inl nothing ↦ rw nothing (raises 1 stack_underflow s)
      | inr some_frame ↦
          rw some_frame
            (record { same_frame = refl; calls = λ h. omega (arith, h); errors = omega arith })
    ]

    pub grab_frame-Behaves : Behaves 2 s (grab_frame o s)
    unfolding grab_frame Stack.empty Stack.top Stack.set_top
    grab_frame-Behaves = elim (Bool-cases (s.call_stack.m_top == 0)) [
      | inl nothing ↦ rw nothing (raises 1 frame_expansion_failed s)
      | inr some_frame ↦ rw some_frame (
          Behaves-if 2 s (ltb s.memory.heap_sa (sub64 (s.registers SpecialRegister.fp) o.arg0)) _ _
            (raises 1 stack_underflow s)
            (Behaves-if 2 s (ltb (sub64 (s.registers SpecialRegister.fp) o.arg0) _) _ _
              (raises 1 frame_expansion_failed s)
              (record { same_frame = refl; calls = λ h. h; errors = omega arith })))
    ]

  get_error_into-Behaves : (r : ℕ) → Behaves 2 s (get_error_into r s)
  unfolding get_error_into Stack.empty Stack.top Stack.pop
  get_error_into-Behaves r = elim (Bool-cases (s.error_stack.m_top == 0)) [
    | inl nothing ↦ rw nothing (writes 2 s r _)
    | inr some_frame ↦ rw some_frame (elim (Bool-cases (ltb r total_registers)) [
      | inl inside ↦
          rw (inside, some_frame)
            (record { same_frame = refl; calls = λ h. h; errors = omega arith })
      | inr outside ↦ rw outside tt
    ])
  ]

  module _ (o : VmOperation) where
    pub handle_vm_call-Behaves : Behaves 2 s (handle_vm_call o s)
    unfolding handle_vm_call handle_call
    handle_vm_call-Behaves = by_type (call_type o.arg0)
      where
        by_type : (c : VmCallType) → Behaves 2 s (handle_call c o s)
        by_type print_integer =
            reads 2 s o.arg1 _
              λ a. record { same_frame = refl; calls = λ h. h; errors = omega arith }
        by_type print_unsigned =
            reads 2 s o.arg1 _
              λ a. record { same_frame = refl; calls = λ h. h; errors = omega arith }
        by_type print_char =
            reads 2 s o.arg1 _
              λ a. record { same_frame = refl; calls = λ h. h; errors = omega arith }
        by_type print_real =
            reads 2 s o.arg1 _
              λ a. record { same_frame = refl; calls = λ h. h; errors = omega arith }
        by_type get_error = get_error_into-Behaves o.arg1
        by_type unlisted = Follows-refl 2 s

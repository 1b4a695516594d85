-- ===== src/Vm/Execution/Reset.antt =====
-- The reset before a run: what it hands to the list of free blocks.
use malachite_scripting_lang.Prelude.{
  ℕ, ◌+◌, ◌≡◌, refl, Bool, true, false, arith, ltb, leb, ◌==◌, ◌&&◌, if◌then◌else◌, ◌∙◌,
}
use malachite_scripting_lang.Outcome.{Returns}
use malachite_scripting_lang.Vm.Definitions.{u64, default_alignment}
use malachite_scripting_lang.Vm.SpecialRegister
use malachite_scripting_lang.Vm.Stack
use malachite_scripting_lang.Vm.Memory.{extent, to_native, clear_dynamic_part, get_heap_end}
use malachite_scripting_lang.Vm.Memory.Layout.{IsLaidOut, extent-IsLaidOut}
use malachite_scripting_lang.Vm.Heap.{set_heap}
use malachite_scripting_lang.Vm.Heap.Reserve.{is_free}
use malachite_scripting_lang.Vm.Heap.Reset.{set_heap-keeps_blocks}
use malachite_scripting_lang.Vm.State.{VmState}
use malachite_scripting_lang.Vm.Execution.{clear_vm_state}

module _ (s : VmState) (l : IsLaidOut s.memory) where
  zeroed-inside :
      leb
        (to_native s.memory s.memory.stack_sa + u64 (s.memory.stack_size + s.memory.heap_size))
        (extent s.memory.m_pointer)
      ≡ true
  unfolding to_native
  zeroed-inside = rw (extent-IsLaidOut l) (ground (arith, l.whole, l.small, l.stack_next))

  to_native-stack : to_native s.memory s.memory.stack_sa ≡ s.memory.code_size + s.memory.rod_size
  unfolding to_native
  to_native-stack = omega (arith, l.whole, l.small, l.stack_next)

  -- The reset of a machine whose memory is laid out returns: the registers are 0, but SP at the
  -- start of the stack, both stacks are empty. Where the dynamic
  -- part is cleared, the bytes of the stack and the heap are 0 and those of the code and the ROD as
  -- before; where it is not, the whole memory is as before.
  pub clear_vm_state-clears :
      (clear_memory : Bool)
      → Returns
          (λ s'.
            (s'.registers SpecialRegister.sp ≡ s.memory.stack_sa)
            × ((r : ℕ) → (r == SpecialRegister.sp) ≡ false → s'.registers r ≡ 0)
            × (s'.call_stack.m_top ≡ 0)
            × (s'.error_stack.m_top ≡ 0)
            × ((a : ℕ)
                → s'.memory.cell a ≡ (
                    if clear_memory
                      && (leb (s.memory.code_size + s.memory.rod_size) a && ltb a s.memory.size)
                    then 0
                    else s.memory.cell a)))
          (clear_vm_state clear_memory s)
  unfolding clear_vm_state Stack.clear clear_dynamic_part
  clear_vm_state-clears false = (refl, λ r ne. ground (arith, ne), refl, refl, λ a. refl)
  clear_vm_state-clears true = rw zeroed-inside (
    refl,
    λ r ne. ground (arith, ne),
    refl,
    refl,
    λ a. rw to_native-stack (ground (arith, l.whole, l.small, l.stack_next)),
  )

  end-is_free :
      is_free
        (set_heap s.memory.heap_sa (get_heap_end s.memory) default_alignment s.hfi)
        s.memory.end
      ≡ true
  unfolding get_heap_end
  end-is_free =
      set_heap-keeps_blocks s.memory.heap_sa (get_heap_end s.memory) default_alignment s.memory.end
        s.hfi
      ∙ ground (arith, l.whole, l.small, l.heap_next, l.ends)

  -- The reset makes the heap's end, the first address behind the memory, free to be allocated.
  pub clear_vm_state-frees_end :
      (clear_memory : Bool)
      → Returns (λ s'. is_free s'.hfi s.memory.end ≡ true) (clear_vm_state clear_memory s)
  unfolding clear_vm_state clear_dynamic_part
  clear_vm_state-frees_end true = rw zeroed-inside end-is_free
  clear_vm_state-frees_end false = end-is_free

-- ===== src/Vm/Instruction/Access/RoundTrip.antt =====
-- PUSH then POP, STORE_LOCAL then LOAD_LOCAL: the value comes back.
use malachite_scripting_lang.Prelude.{
  ℕ, ◌+◌, ◌*◌, ◌%◌, ◌^◌, ◌≤◌, ◌<◌, ◌≡◌, ◌≢◌, refl, arith, true, ◌==◌, lt→ltb, ne→==, ==_self,
  if◌then◌else◌,
}
use malachite_scripting_lang.Outcome.{ok, ◌>>=◌, Returns}
use malachite_scripting_lang.Vm.Definitions.{VmOperation, total_registers, u64, sub64}
use malachite_scripting_lang.Vm.SpecialRegister
use malachite_scripting_lang.Vm.Memory
use malachite_scripting_lang.Vm.Memory.{DynamicMemory, check_intervals}
use malachite_scripting_lang.Vm.Memory.Layout.{IsLaidOut, HoldsBytes}
use malachite_scripting_lang.Vm.Memory.Bytes.{written, write-cells}
use malachite_scripting_lang.Vm.Memory.RoundTrip.{read-write}
use malachite_scripting_lang.Vm.State.{VmState, put}
use malachite_scripting_lang.Vm.Instruction.Access.{
  push, pop, store_local, load_local, write_memory, read_into,
}

-- An access of `size` bytes at `address` that stays in an interval passes its check.
pub check_intervals-inside :
    (start end address size : ℕ)
    → start ≤ address
    → address < end
    → address + size ≤ end
    → end < 2 ^ 63
    → check_intervals start end address size ≡ true
unfolding check_intervals
check_intervals-inside start end address size above below fits small = ground arith

module _ (s : VmState) (l : IsLaidOut s.memory) (hb : HoldsBytes s.memory) where
  -- The memory after a write of `n` bytes at `address`.
  abbrev pub memory_after : ℕ → ℕ → ℕ → DynamicMemory
  memory_after address value n = record (s.memory) {
    cell = written s.memory.cell (s.memory.code_size + address) value n 0;
  }

  module _ (address value n : ℕ) (short : n ≤ 8) (above : s.memory.stack_sa ≤ address)
      (below : address + n ≤ s.memory.heap_sa) where
    write_memory-after :
        write_memory address value n s ≡ ok (record s { memory = memory_after address value n })
    unfolding write_memory
    write_memory-after =
        rw (write-cells l address value n short above (omega (arith, l.heap_next, l.ends)))

    read-after : Memory.read (memory_after address value n) address n ≡ ok (value % 2 ^ (n * 8))
    read-after =
        rw (write-cells l address value n short above (omega (arith, l.heap_next, l.ends))) at
          (read-write l hb address value n short above (omega (arith, l.heap_next, l.ends)))

  module _ (o o' : VmOperation) (in0 : o.arg0 < total_registers) (in0' : o'.arg0 < total_registers)
      (short : o.arg1 ≤ 8) (same_size : o'.arg1 ≡ o.arg1) (ne_sp : o'.arg0 ≢ SpecialRegister.sp)
      (above : s.memory.stack_sa ≤ s.registers SpecialRegister.sp)
      (below : s.registers SpecialRegister.sp < s.memory.heap_sa)
      (room : s.registers SpecialRegister.sp + o.arg1 ≤ s.memory.heap_sa) where
    abbrev sp : ℕ
    sp = s.registers SpecialRegister.sp

    small : s.memory.heap_sa < 2 ^ 63
    small = omega (arith, l.heap_next, l.whole, l.small)

    abbrev pushed : VmState
    pushed =
        put (record s { memory = memory_after sp (s.registers o.arg0) o.arg1 }) SpecialRegister.sp
          (sp + o.arg1)

    push-pushed : push o s ≡ ok pushed
    unfolding push
    push-pushed =
        let next : u64 (sp + o.arg1) ≡ sp + o.arg1 = omega (arith, small, room) in
        rw (
          check_intervals-inside s.memory.stack_sa s.memory.heap_sa sp o.arg1 above below room
              small,
          lt→ltb _ _ in0,
          write_memory-after sp (s.registers o.arg0) o.arg1 short above room,
          next,
        )

    -- In a laid-out memory of bytes, where the bytes fit between SP and the end of the stack:
    -- PUSH of a register and POP of as many bytes, at most 8, into a register other than SP
    -- leaves the bytes of the first register in the second, and SP where it was.
    pub pop-push_register :
        Returns
          (λ s'.
            (s'.registers o'.arg0 ≡ s.registers o.arg0 % 2 ^ (o.arg1 * 8))
            × (s'.registers SpecialRegister.sp ≡ s.registers SpecialRegister.sp))
          (push o s >>= pop o')
    unfolding pop read_into
    pop-push_register =
        let back : sub64 (sp + o.arg1) o.arg1 ≡ sp = omega (arith, small, room) in
        rw
          (
            push-pushed,
            same_size,
            back,
            check_intervals-inside s.memory.stack_sa s.memory.heap_sa sp 0 above below (omega arith)
                small,
            read-after sp (s.registers o.arg0) o.arg1 short above room,
            lt→ltb _ _ in0',
          )
          (ne_self, refl)
      where
        ne_self :
            (if o'.arg0 == SpecialRegister.sp
              then sp
              else (if o'.arg0 == o'.arg0
                  then s.registers o.arg0 % 2 ^ (o.arg1 * 8)
                  else (if o'.arg0 == SpecialRegister.sp
                      then sp + o.arg1
                      else s.registers o'.arg0)))
            ≡ s.registers o.arg0 % 2 ^ (o.arg1 * 8)
        ne_self = rw (ne→== _ _ ne_sp, ==_self o'.arg0)

  module _ (o o' : VmOperation) (in0 : o.arg0 < total_registers) (in0' : o'.arg0 < total_registers)
      (same_offset : o'.arg1 ≡ o.arg1) (same_size : o'.arg2 ≡ o.arg2) (short : o.arg2 ≤ 8)
      (above : s.memory.stack_sa ≤ s.registers SpecialRegister.fp + o.arg1)
      (below : s.registers SpecialRegister.fp + o.arg1 < s.memory.heap_sa)
      (room : s.registers SpecialRegister.fp + o.arg1 + o.arg2 ≤ s.memory.heap_sa) where
    abbrev variable : ℕ
    variable = s.registers SpecialRegister.fp + o.arg1

    small_heap : s.memory.heap_sa < 2 ^ 63
    small_heap = omega (arith, l.heap_next, l.whole, l.small)

    -- In a laid-out memory of bytes, where the variable lies in the stack: STORE_LOCAL of a
    -- register at an offset from FP and LOAD_LOCAL of as many bytes, at most 8, from there
    -- leaves the bytes of the first register in the second.
    pub load_local-store_local :
        Returns
          (λ s'. s'.registers o'.arg0 ≡ s.registers o.arg0 % 2 ^ (o.arg2 * 8))
          (store_local o s >>= load_local o')
    unfolding store_local load_local
    load_local-store_local =
        let at : u64 variable ≡ variable = omega (arith, small_heap, below) in
        rw
          (
            lt→ltb _ _ in0,
            at,
            check_intervals-inside s.memory.stack_sa s.memory.heap_sa variable o.arg2 above below
                room small_heap,
            write_memory-after variable (s.registers o.arg0) o.arg2 short above room,
          )
          (rw
            (
              same_offset,
              same_size,
              at,
              check_intervals-inside 0 s.memory.heap_sa variable o.arg2 (omega arith) below room
                  small_heap,
              read-after variable (s.registers o.arg0) o.arg2 short above room,
              lt→ltb _ _ in0',
            )
            (rw (==_self o'.arg0)))

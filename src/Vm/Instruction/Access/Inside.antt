-- ===== src/Vm/Instruction/Access/Inside.antt =====
-- Which accesses stay inside the block of memory, and which do not.
use malachite_scripting_lang.Prelude.{
  ℕ, ◌+◌, ◌^◌, ◌≤◌, ◌<◌, ◌≡◌, refl, arith, Bool, true, false, leb, ◌==◌, lt→ltb, if◌then◌else◌,
  Bool-cases, inl, inr,
}
use malachite_scripting_lang.Outcome.{Outcome, ok, throws, undefined, ◌>>=◌}
use malachite_scripting_lang.Vm.Definitions.{
  VmOperation, total_registers, u64, sub64, error_stack_size,
}
use malachite_scripting_lang.Vm.SpecialRegister
use malachite_scripting_lang.Vm.Errors.{ErrorCode}
use malachite_scripting_lang.Vm.Memory.{check_intervals}
use malachite_scripting_lang.Vm.Memory.Layout.{IsLaidOut, HoldsBytes}
use malachite_scripting_lang.Vm.Memory.Bytes.{read-value, write-cells}
use malachite_scripting_lang.Vm.State.{VmState, put, register, raise}
use malachite_scripting_lang.Vm.Instruction.Access.{
  push, pop, load_absolute, load_local, store_local, load_by_address, write_memory, read_into,
}

-- The code has a meaning: it returns or throws.
abbrev pub IsDefined {ℓ} : {A : Type ℓ} → Outcome A → Type 0
IsDefined (ok a) = Unit
IsDefined (throws e) = Unit
IsDefined undefined = ⊥

raise-IsDefined : (e : ErrorCode) (s : VmState) → IsDefined (raise e s)
unfolding raise
raise-IsDefined e s = elim (Bool-cases (leb error_stack_size s.error_stack.m_top)) [
  | inl full ↦ rw full tt
  | inr room ↦ rw room tt
]

if-IsDefined {ℓ} :
    {A : Type ℓ} (b : Bool) (m n : Outcome A)
    → (b ≡ true → IsDefined m)
    → (b ≡ false → IsDefined n)
    → IsDefined (if b then m else n)
if-IsDefined true m n h k = h refl
if-IsDefined false m n h k = k refl

check_intervals-bounds :
    (start end address size : ℕ)
    → check_intervals start end address size ≡ true
    → (start ≤ address) × (address < end) × (u64 (address + size) ≤ end)
unfolding check_intervals
check_intervals-bounds start end address size h = ground arith

module _ (s : VmState) (l : IsLaidOut s.memory) (hb : HoldsBytes s.memory) where
  heap-le-end : s.memory.heap_sa ≤ s.memory.end
  heap-le-end = omega (arith, l.heap_next, l.ends)

  end-small : s.memory.end < 2 ^ 63
  end-small = omega (arith, l.whole, l.ends, l.small)

  read_into-IsDefined :
      (r address n : ℕ)
      → r < total_registers
      → n ≤ 8
      → address + n ≤ s.memory.end
      → IsDefined (read_into r address n s)
  unfolding read_into
  read_into-IsDefined r address n in0 short inside =
      rw (read-value l address n hb short inside, lt→ltb _ _ in0) tt

  write_memory-IsDefined :
      (address value n : ℕ)
      → n ≤ 8
      → s.memory.stack_sa ≤ address
      → address + n ≤ s.memory.end
      → IsDefined (write_memory address value n s)
  unfolding write_memory
  write_memory-IsDefined address value n short above inside =
      rw (write-cells l address value n short above inside) tt

  module _ (o : VmOperation) (in0 : o.arg0 < total_registers) where
    -- Where the access fits into 8 bytes, a checked access never leaves the block.
    push-IsDefined : o.arg1 ≤ 8 → IsDefined (push o s)
    unfolding push write_memory
    push-IsDefined short =
        if-IsDefined (check_intervals s.memory.stack_sa s.memory.heap_sa sp o.arg1) _ _
          (λ c. inside (check_intervals-bounds s.memory.stack_sa s.memory.heap_sa sp o.arg1 c))
          (λ _. raise-IsDefined _ s)
      where
        sp : ℕ
        sp = s.registers SpecialRegister.sp

        inside :
            (s.memory.stack_sa ≤ sp)
              × (sp < s.memory.heap_sa)
              × (u64 (sp + o.arg1) ≤ s.memory.heap_sa)
            → IsDefined (
                register o.arg0 s >>= λ value. write_memory sp value o.arg1 s >>= λ written.
                ok (put written SpecialRegister.sp (u64 (sp + o.arg1))))
        inside b =
            rw
              (
                lt→ltb _ _ in0,
                write-cells l sp (s.registers o.arg0) o.arg1 short b.0
                    (omega (arith, heap-le-end, end-small, b)),
              )
              tt

    load_absolute-IsDefined : o.arg2 ≤ 8 → IsDefined (load_absolute o s)
    unfolding load_absolute
    load_absolute-IsDefined short =
        if-IsDefined (check_intervals 0 s.memory.heap_sa o.arg1 o.arg2) _ _
          (λ c.
            let b = check_intervals-bounds 0 s.memory.heap_sa o.arg1 o.arg2 c in
            read_into-IsDefined o.arg0 o.arg1 o.arg2 in0 short
              (omega (arith, heap-le-end, end-small, b)))
          (λ _. raise-IsDefined _ s)

    load_local-IsDefined : o.arg2 ≤ 8 → IsDefined (load_local o s)
    unfolding load_local
    load_local-IsDefined short =
        if-IsDefined (check_intervals 0 s.memory.heap_sa address o.arg2) _ _
          (λ c.
            let b = check_intervals-bounds 0 s.memory.heap_sa address o.arg2 c in
            read_into-IsDefined o.arg0 address o.arg2 in0 short
              (omega (arith, heap-le-end, end-small, b)))
          (λ _. raise-IsDefined _ s)
      where
        address : ℕ
        address = u64 (s.registers SpecialRegister.fp + o.arg1)

    store_local-IsDefined : o.arg2 ≤ 8 → IsDefined (store_local o s)
    unfolding store_local
    store_local-IsDefined short = rw (lt→ltb _ _ in0) (
        if-IsDefined (check_intervals s.memory.stack_sa s.memory.heap_sa address o.arg2) _ _
          (λ c.
            let b = check_intervals-bounds s.memory.stack_sa s.memory.heap_sa address o.arg2 c in
            write_memory-IsDefined address (s.registers o.arg0) o.arg2 short b.0
              (omega (arith, heap-le-end, end-small, b)))
          (λ _. raise-IsDefined _ s))
      where
        address : ℕ
        address = u64 (s.registers SpecialRegister.fp + o.arg1)

    load_by_address-IsDefined :
        o.arg1 < total_registers → o.arg2 ≤ 8 → IsDefined (load_by_address o s)
    unfolding load_by_address
    load_by_address-IsDefined in1 short = rw (lt→ltb _ _ in1) (
        if-IsDefined (o.arg2 == 0) _ _ (λ _. rw (lt→ltb _ _ in0) tt)
          (λ _.
            if-IsDefined (check_intervals 0 s.memory.end address o.arg2) _ _
              (λ c.
                let b = check_intervals-bounds 0 s.memory.end address o.arg2 c in
                read_into-IsDefined o.arg0 address o.arg2 in0 short (omega (arith, end-small, b)))
              (λ _. raise-IsDefined _ s)))
      where
        address : ℕ
        address = s.registers o.arg1

    pop-IsDefined : o.arg1 ≤ 8 → 8 ≤ s.memory.heap_size → IsDefined (pop o s)
    unfolding pop read_into
    pop-IsDefined short heap =
        if-IsDefined (check_intervals s.memory.stack_sa s.memory.heap_sa new_sp 0) _ _
          (λ c. inside (check_intervals-bounds s.memory.stack_sa s.memory.heap_sa new_sp 0 c))
          (λ _. raise-IsDefined _ s)
      where
        new_sp : ℕ
        new_sp = sub64 (s.registers SpecialRegister.sp) o.arg1

        inside :
            (s.memory.stack_sa ≤ new_sp)
              × (new_sp < s.memory.heap_sa)
              × (u64 (new_sp + 0) ≤ s.memory.heap_sa)
            → IsDefined (
                read_into o.arg0 new_sp o.arg1 s >>= λ loaded.
                ok (put loaded SpecialRegister.sp new_sp))
        inside b =
            rw
              (
                read-value l new_sp o.arg1 hb short (omega (arith, l.heap_next, l.ends, b)),
                lt→ltb _ _ in0,
              )
              tt

  -- In a laid-out memory of bytes with a heap of 8 bytes or more, the accesses that check their interval
  -- never leave the block of memory, nor any other array: PUSH and POP of at most 8 bytes,
  -- LOAD_ABSOLUTE, LOAD_LOCAL and STORE_LOCAL of at most 8 bytes at any offset, LOAD_BY_ADDRESS of at
  -- most 8 bytes at the address in any register that exists; the register that is loaded or stored
  -- exists, too.
  pub accesses-IsDefined :
      (stacked offsetted addressed : VmOperation)
      → stacked.arg0 < total_registers
      → stacked.arg1 ≤ 8
      → offsetted.arg0 < total_registers
      → offsetted.arg2 ≤ 8
      → addressed.arg0 < total_registers
      → addressed.arg1 < total_registers
      → addressed.arg2 ≤ 8
      → 8 ≤ s.memory.heap_size
      → IsDefined (push stacked s)
        × IsDefined (pop stacked s)
        × IsDefined (load_absolute offsetted s)
        × IsDefined (load_local offsetted s)
        × IsDefined (store_local offsetted s)
        × IsDefined (load_by_address addressed s)
  accesses-IsDefined o p q in_o short_o in_p short_p in_q address_q short_q heap = (
    push-IsDefined o in_o short_o,
    pop-IsDefined o in_o short_o heap,
    load_absolute-IsDefined p in_p short_p,
    load_local-IsDefined p in_p short_p,
    store_local-IsDefined p in_p short_p,
    load_by_address-IsDefined q in_q address_q short_q,
  )

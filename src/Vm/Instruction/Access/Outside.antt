-- ===== src/Vm/Instruction/Access/Outside.antt =====
-- Accesses that leave the block, or that come into the code: a size that wraps the check of
-- LOAD_BY_ADDRESS, and STORE_BY_ADDRESS, which has no check.
use malachite_scripting_lang.Prelude.{
  ℕ, zero, suc, ◌+◌, ◌^◌, ◌≤◌, ◌<◌, ◌≡◌, arith, false, ltb, leb, ◌==◌, lt→ltb, le→ltb, Bool-cases,
  inl, inr,
}
use malachite_scripting_lang.Outcome.{ok, undefined}
use malachite_scripting_lang.Vm.Definitions.{VmOperation, total_registers, u64}
use malachite_scripting_lang.Vm.Memory
use malachite_scripting_lang.Vm.Memory.{
  DynamicMemory, check_intervals, extent, update, load, store, read_loop, write_loop, access_size,
  to_native,
}
use malachite_scripting_lang.Vm.Memory.Layout.{IsLaidOut, extent-IsLaidOut, to_native-IsLaidOut}
use malachite_scripting_lang.Vm.Memory.Bytes.{written, write_loop-cells}
use malachite_scripting_lang.Vm.State.{VmState}
use malachite_scripting_lang.Vm.Instruction.Access.{
  load_by_address, store_by_address, write_memory, read_into,
}

-- A loop of Read or Write that comes to a byte behind the block.
read_loop-outside :
    (m : DynamicMemory) (native n i value : ℕ)
    → native + i + n < 2 ^ 64
    → native + i ≤ extent m.m_pointer
    → extent m.m_pointer < native + i + n
    → read_loop m native n i value ≡ undefined
unfolding read_loop
read_loop-outside m native zero i value small before past = absurd (omega arith)
read_loop-outside m native (suc n) i value small before past =
    let at : u64 (native + i) ≡ native + i = omega arith in
    elim (Bool-cases (ltb (native + i) (extent m.m_pointer))) [
      | inl in_block ↦
          rw (at, in_block)
            (read_loop-outside m native n (i + 1) _ (omega arith) (ground arith) (omega arith))
      | inr out ↦ rw (at, out)
    ]

write_loop-outside :
    (m : DynamicMemory) (native value n i : ℕ)
    → native + i + n < 2 ^ 64
    → native + i ≤ extent m.m_pointer
    → extent m.m_pointer < native + i + n
    → write_loop m native value n i ≡ undefined
unfolding write_loop
write_loop-outside m native value zero i small before past = absurd (omega arith)
write_loop-outside m native value (suc n) i small before past =
    let at : u64 (native + i) ≡ native + i = omega arith in
    elim (Bool-cases (ltb (native + i) (extent m.m_pointer))) [
      | inl in_block ↦
          rw (at, in_block)
            (write_loop-outside (record m { cell = update m.cell (native + i) _ }) native value n
              (i + 1) (omega arith) (ground arith) (omega arith))
      | inr out ↦ rw (at, out)
    ]

module _ (o : VmOperation) (s : VmState) (l : IsLaidOut s.memory) (in0 : o.arg0 < total_registers)
    (in1 : o.arg1 < total_registers) where
  abbrev address : ℕ
  address = s.registers o.arg1

  -- In a laid-out memory, with registers that exist: LOAD_BY_ADDRESS less than 8 bytes before
  -- the end of the memory, with a size so large that address and size wrap around 2 ^ 64,
  -- passes its check and has no meaning: it reads over the end of the block.
  pub load_by_address-wraps :
      address < s.memory.end
      → s.memory.end < address + 8
      → 2 ^ 64 ≤ address + o.arg2
      → o.arg2 < 2 ^ 64
      → load_by_address o s ≡ undefined
  unfolding load_by_address read_into Memory.read check_intervals
  load_by_address-wraps below last wraps word =
      let at : to_native s.memory address ≡ s.memory.code_size + address =
        to_native-IsLaidOut l address (omega (arith, l.whole, l.ends, l.small)) in
      let eight : access_size o.arg2 ≡ 8 = ground arith in
      let some_size : (o.arg2 == 0) ≡ false = ground arith in
      let lower : ltb address 0 ≡ false = ground arith in
      let upper : leb s.memory.end address ≡ false = ground arith in
      let fits : ltb s.memory.end (u64 (address + o.arg2)) ≡ false = ground arith in
      rw (
        lt→ltb _ _ in1,
        some_size,
        lower,
        upper,
        fits,
        at,
        eight,
        read_loop-outside s.memory (s.memory.code_size + address) 8 0 0
            (omega (arith, l.whole, l.ends, l.small))
            (omega (arith, extent-IsLaidOut l, l.whole, l.ends))
            (omega (arith, extent-IsLaidOut l, l.whole, l.ends)),
      )

  -- In a laid-out memory, with registers that exist: STORE_BY_ADDRESS of up to 8 bytes at an
  -- address above the ROD that reach over the end of the memory has no meaning: it leaves the
  -- block.
  pub store_by_address-past_end :
      s.memory.stack_sa ≤ address
      → address ≤ s.memory.end
      → s.memory.end < address + o.arg2
      → o.arg2 ≤ 8
      → store_by_address o s ≡ undefined
  unfolding store_by_address write_memory Memory.write
  store_by_address-past_end above below past short =
      let at : to_native s.memory address ≡ s.memory.code_size + address =
        to_native-IsLaidOut l address (omega (arith, l.whole, l.ends, l.small)) in
      let n : access_size o.arg2 ≡ o.arg2 = ground arith in
      let some_size : (o.arg2 == 0) ≡ false = ground arith in
      rw (
        lt→ltb _ _ in0,
        lt→ltb _ _ in1,
        some_size,
        le→ltb _ _ above,
        at,
        n,
        write_loop-outside s.memory (s.memory.code_size + address) (s.registers o.arg0) o.arg2 0
            (omega (arith, l.whole, l.ends, l.small))
            (omega (arith, extent-IsLaidOut l, l.whole, l.ends))
            (omega (arith, extent-IsLaidOut l, l.whole, l.ends)),
      )

  -- In a laid-out memory, with registers that exist: STORE_BY_ADDRESS of 1 to 8 bytes at an
  -- address that the native address wraps into the code at `k` overwrites the code there with
  -- the bytes of the register, and raises nothing.
  pub store_by_address-overwrites_code :
      (k : ℕ)
      → address < 2 ^ 64
      → s.memory.code_size + address ≡ 2 ^ 64 + k
      → k + o.arg2 ≤ s.memory.code_size
      → 0 < o.arg2
      → o.arg2 ≤ 8
      → store_by_address o s
        ≡ ok (record s {
          memory = record (s.memory) {
            cell = written s.memory.cell k (s.registers o.arg0) o.arg2 0;
          };
        })
  unfolding store_by_address write_memory Memory.write to_native
  store_by_address-overwrites_code k word wraps in_code some_bytes short =
      let at : u64 (s.memory.code_size + address) ≡ k = omega (arith, l.whole, l.small) in
      let n : access_size o.arg2 ≡ o.arg2 = ground arith in
      let some_size : (o.arg2 == 0) ≡ false = ground arith in
      let above : s.memory.stack_sa ≤ address = omega (arith, l.whole, l.small, l.stack_next) in
      rw (
        lt→ltb _ _ in0,
        lt→ltb _ _ in1,
        some_size,
        le→ltb _ _ above,
        at,
        n,
        write_loop-cells s.memory k (s.registers o.arg0) o.arg2 0
            (omega (arith, extent-IsLaidOut l, l.whole)) (omega (arith, l.whole, l.small)),
      )

-- ===== src/Vm/Execution/Operations/Memories.antt =====
-- The cases of the switch that use the memory, the stacks or the heap.
use malachite_scripting_lang.Prelude.{
  ℕ, zero, suc, ◌+◌, ◌≡◌, refl, ◌∙◌, Bool, true, false, arith, ltb, leb, ◌==◌, ◌||◌, ◌&&◌,
  if◌then◌else◌, Bool-cases, inl, inr,
}
use malachite_scripting_lang.Outcome.{Outcome, ok, throws, undefined, ◌>>=◌}
use malachite_scripting_lang.Vm.Definitions.{VmOperation, u64, sub64}
use malachite_scripting_lang.Vm.SpecialRegister
use malachite_scripting_lang.Vm.Errors.{stack_overflow, invalid_memory_access}
use malachite_scripting_lang.Vm.Memory
use malachite_scripting_lang.Vm.Memory.{
  DynamicMemory, no_errors, check_intervals, copy_bytes, store, write_loop, extent, load, read_loop,
}
use malachite_scripting_lang.Vm.State.{VmState}
use malachite_scripting_lang.Vm.Execution.Behaves.{
  Behaves, Quiet, frame, Follows-refl, Follows-put, Behaves-then, Behaves-after, Behaves-if,
  Quiet-then,
}
use malachite_scripting_lang.Vm.Instruction.Access.{
  push, pop, load_absolute, load_local, store_local, load_by_address, store_by_address,
  write_memory, read_into,
}
use malachite_scripting_lang.Vm.Instruction.Blocks.{copy_checked}
use malachite_scripting_lang.Vm.Execution.Operations.Registers.{raises, reads, writes}

-- The memory of a piece that changes at most its cells and its status.
abbrev SameFrame : DynamicMemory → Outcome DynamicMemory → Type 0
SameFrame m (ok m') = frame m' ≡ frame m
SameFrame m (throws e) = ⊥
SameFrame m undefined = Unit

SameFrame-then :
    (m : DynamicMemory) (x : Outcome DynamicMemory) (f : DynamicMemory → Outcome DynamicMemory)
    → SameFrame m x
    → ((m' : DynamicMemory) → SameFrame m' (f m'))
    → SameFrame m (x >>= f)
SameFrame-then m (ok m') f p q = join (f m') (q m')
  where
    join : (y : Outcome DynamicMemory) → SameFrame m' y → SameFrame m y
    join (ok m'') r = r ∙ p
    join (throws e) r = r
    join undefined r = tt
SameFrame-then m (throws e) f p q = p
SameFrame-then m undefined f p q = tt

store-SameFrame : (m : DynamicMemory) (native byte : ℕ) → SameFrame m (store m native byte)
unfolding store
store-SameFrame m native byte = elim (Bool-cases (ltb native (extent m.m_pointer))) [
  | inl e ↦ rw e refl
  | inr e ↦ rw e tt
]

write_loop-SameFrame :
    (m : DynamicMemory) (native value n i : ℕ) → SameFrame m (write_loop m native value n i)
unfolding write_loop
write_loop-SameFrame m native value zero i = refl
write_loop-SameFrame m native value (suc n) i =
    SameFrame-then m _ _ (store-SameFrame m _ _)
      λ m'. write_loop-SameFrame m' native value n (i + 1)

write-SameFrame :
    (m : DynamicMemory) (address value size : ℕ) → SameFrame m (Memory.write m address value size)
unfolding Memory.write
write-SameFrame m address value size = elim (Bool-cases (ltb address m.stack_sa)) [
  | inl e ↦ rw e refl
  | inr e ↦ rw e (write_loop-SameFrame m _ value _ 0)
]

copy_bytes-SameFrame :
    (m : DynamicMemory) (destination source size : ℕ)
    → SameFrame m (copy_bytes m destination source size)
unfolding copy_bytes
copy_bytes-SameFrame m destination source size =
    elim (Bool-cases (
      leb (destination + size) (extent m.m_pointer)
      && leb (source + size) (extent m.m_pointer)
      && (leb (destination + size) source || leb (source + size) destination))) [
        | inl e ↦ rw e refl
        | inr e ↦ rw e tt
      ]

copy-SameFrame :
    (m : DynamicMemory) (destination source size : ℕ)
    → SameFrame m (Memory.copy m destination source size)
unfolding Memory.copy
copy-SameFrame m destination source size = elim (Bool-cases (ltb destination m.stack_sa)) [
  | inl e ↦ rw e refl
  | inr e ↦ rw e (copy_bytes-SameFrame m _ _ size)
]

-- The state with the memory that a piece returns.
with_memory :
    (n : ℕ) (s : VmState) (x : Outcome DynamicMemory)
    → SameFrame s.memory x
    → Behaves n s (x >>= λ m. ok (record s { memory = m }))
with_memory n s (ok m) p = record { same_frame = p; calls = λ h. h; errors = omega arith }
with_memory n s (throws e) p = absurd p
with_memory n s undefined p = tt

pub load-Quiet : (m : DynamicMemory) (native : ℕ) → Quiet (load m native)
unfolding load
load-Quiet m native = either (ltb native (extent m.m_pointer))
  where
    either : (b : Bool) → Quiet (if b then ok (m.cell native) else undefined)
    either true = tt
    either false = tt

pub read_loop-Quiet :
    (m : DynamicMemory) (native n i value : ℕ) → Quiet (read_loop m native n i value)
unfolding read_loop
read_loop-Quiet m native zero i value = tt
read_loop-Quiet m native (suc n) i value =
    Quiet-then (load m _) _ (load-Quiet m _) λ byte. read_loop-Quiet m native n (i + 1) _

module _ (n : ℕ) (s : VmState) where
  write_memory-Behaves : (address value size : ℕ) → Behaves n s (write_memory address value size s)
  unfolding write_memory
  write_memory-Behaves address value size =
      with_memory n s _ (write-SameFrame s.memory address value size)

  read_into-Behaves : (r address size : ℕ) → Behaves n s (read_into r address size s)
  unfolding read_into Memory.read
  read_into-Behaves r address size =
      Behaves-after n s _ _ (read_loop-Quiet s.memory _ _ 0 0) λ value. writes n s r value

module _ (s : VmState) (o : VmOperation) where
  pub push-Behaves : Behaves 2 s (push o s)
  unfolding push
  push-Behaves =
      Behaves-if 2 s
        (check_intervals s.memory.stack_sa s.memory.heap_sa (s.registers SpecialRegister.sp) o.arg1)
        _ _
        (reads 2 s o.arg0 _ λ value.
          Behaves-then 0 2 s _ _ (write_memory-Behaves 0 s _ value o.arg1)
            λ t. Follows-put 2 t t _ _ (Follows-refl 2 t))
        (raises 1 stack_overflow s)

  pub pop-Behaves : Behaves 2 s (pop o s)
  unfolding pop
  pop-Behaves =
      Behaves-if 2 s
        (check_intervals s.memory.stack_sa s.memory.heap_sa
          (sub64 (s.registers SpecialRegister.sp) o.arg1) 0)
        _ _
        (Behaves-then 0 2 s _ _ (read_into-Behaves 0 s o.arg0 _ o.arg1)
          λ t. Follows-put 2 t t _ _ (Follows-refl 2 t))
        (raises 1 stack_overflow s)

  pub load_absolute-Behaves : Behaves 2 s (load_absolute o s)
  unfolding load_absolute
  load_absolute-Behaves =
      Behaves-if 2 s (check_intervals 0 s.memory.heap_sa o.arg1 o.arg2) _ _
        (read_into-Behaves 2 s o.arg0 o.arg1 o.arg2) (raises 1 invalid_memory_access s)

  pub load_local-Behaves : Behaves 2 s (load_local o s)
  unfolding load_local
  load_local-Behaves =
      Behaves-if 2 s
        (check_intervals 0 s.memory.heap_sa (u64 (s.registers SpecialRegister.fp + o.arg1)) o.arg2)
        _ _ (read_into-Behaves 2 s o.arg0 (u64 (s.registers SpecialRegister.fp + o.arg1)) o.arg2)
        (raises 1 invalid_memory_access s)

  pub store_local-Behaves : Behaves 2 s (store_local o s)
  unfolding store_local
  store_local-Behaves = reads 2 s o.arg0 _ λ value.
      Behaves-if 2 s
        (check_intervals s.memory.stack_sa s.memory.heap_sa
          (u64 (s.registers SpecialRegister.fp + o.arg1)) o.arg2)
        _ _ (write_memory-Behaves 2 s (u64 (s.registers SpecialRegister.fp + o.arg1)) value o.arg2)
        (raises 1 invalid_memory_access s)

  pub load_by_address-Behaves : Behaves 2 s (load_by_address o s)
  unfolding load_by_address
  load_by_address-Behaves = reads 2 s o.arg1 _ λ address.
      Behaves-if 2 s (o.arg2 == 0) _ _ (writes 2 s o.arg0 0) (
        Behaves-if 2 s (check_intervals 0 s.memory.end address o.arg2) _ _
          (read_into-Behaves 2 s o.arg0 address o.arg2) (raises 1 invalid_memory_access s))

  pub store_by_address-Behaves : Behaves 2 s (store_by_address o s)
  unfolding store_by_address
  store_by_address-Behaves = reads 2 s o.arg0 _ λ value. reads 2 s o.arg1 _ λ address.
      Behaves-if 2 s (o.arg2 == 0) _ _ (Follows-refl 2 s)
        (write_memory-Behaves 2 s address value o.arg2)

pub copy_checked-Behaves :
    (s : VmState) (dest src size : ℕ) → Behaves 2 s (copy_checked dest src size s)
unfolding copy_checked
copy_checked-Behaves s dest src size =
    Behaves-if 2 s (ltb s.memory.end (u64 (dest + size))) _ _ (raises 1 invalid_memory_access s)
      (with_memory 2 s _ (copy-SameFrame s.memory dest src size))

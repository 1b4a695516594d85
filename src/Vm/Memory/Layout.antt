-- ===== src/Vm/Memory/Layout.antt =====
-- The layout of the block: code, ROD, stack and heap lie behind one another and fill it.
use malachite_scripting_lang.Prelude.{ℕ, ◌+◌, ◌%◌, ◌^◌, ◌≤◌, ◌<◌, ◌≡◌, refl, arith, some}
use malachite_scripting_lang.Vm.Memory.{
  Pointer, DynamicMemory, extent, block, to_native, allocate, align8,
}

pub record IsLaidOut (m : DynamicMemory) : Type 0 where
  pub owned : m.m_pointer ≡ block m.size
  pub whole : m.code_size + m.rod_size + m.stack_size + m.heap_size ≡ m.size
  pub small : m.size < 2 ^ 63
  pub code_first : m.code_sa ≡ 0
  pub rod_first : m.rod_sa ≡ 0
  pub stack_next : m.stack_sa ≡ m.rod_size
  pub heap_next : m.heap_sa ≡ m.rod_size + m.stack_size
  pub ends : m.end ≡ m.rod_size + m.stack_size + m.heap_size

-- Every cell is a byte.
abbrev pub HoldsBytes : DynamicMemory → Type 0
HoldsBytes m = (a : ℕ) → m.cell a < 256

module _ {m : DynamicMemory} (l : IsLaidOut m) where
  pub extent-IsLaidOut : extent m.m_pointer ≡ m.size
  extent-IsLaidOut = ap_extent l.owned
    where
      ap_extent : {p : Pointer} → p ≡ block m.size → extent p ≡ m.size
      ap_extent e = λ i. extent (e i)

  pub to_native-IsLaidOut :
      (address : ℕ) → address < 2 ^ 63 → to_native m address ≡ m.code_size + address
  unfolding to_native
  to_native-IsLaidOut address h = omega (arith, l.whole, l.small)

-- Where code and ROD together are below 2 ^ 62, a block that `malloc` grants is laid out: code,
-- ROD, stack and heap behind one another, in their rounded sizes, filling the block.
pub allocate-IsLaidOut :
    (fresh : ℕ → ℕ) (code_size rod_size : ℕ) (m : DynamicMemory)
    → code_size + rod_size < 2 ^ 62
    → IsLaidOut (allocate (some fresh) code_size rod_size m)
unfolding allocate align8
allocate-IsLaidOut fresh code_size rod_size m h = record {
  owned = refl;
  whole = omega arith;
  small = omega arith;
  code_first = refl;
  rod_first = refl;
  stack_next = refl;
  heap_next = omega arith;
  ends = omega arith;
}

-- Where code and ROD together are below 2 ^ 62: the sizes of code and ROD are not smaller than
-- what was asked for, and the size of the code and the start of the stack are multiples of 8.
pub allocate-sizes :
    (fresh : ℕ → ℕ) (code_size rod_size : ℕ) (m : DynamicMemory)
    → code_size + rod_size < 2 ^ 62
    → (code_size ≤ (allocate (some fresh) code_size rod_size m).code_size)
      × (rod_size ≤ (allocate (some fresh) code_size rod_size m).rod_size)
      × ((allocate (some fresh) code_size rod_size m).code_size % 8 ≡ 0)
      × ((allocate (some fresh) code_size rod_size m).stack_sa % 8 ≡ 0)
unfolding allocate align8
allocate-sizes fresh code_size rod_size m h = omega arith

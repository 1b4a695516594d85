-- ===== src/Vm/Memory/RoundTrip.antt =====
-- Reads after writes, and after the heap has grown.
use malachite_scripting_lang.Prelude.{
  ℕ, ◌+◌, ◌-◌, ◌*◌, ◌/◌, ◌%◌, ◌^◌, ◌≤◌, ◌<◌, ◌≡◌, ap, ◌∙◌, sym, arith, ◌⊎◌, inl, inr,
}
use malachite_scripting_lang.Prelude.Bytes.{bytes_value_ext, bytes_value-digits}
use malachite_scripting_lang.Outcome.{ok, ◌>>=◌}
use malachite_scripting_lang.Vm.Memory.{DynamicMemory, read, write}
use malachite_scripting_lang.Vm.Memory.Layout.{IsLaidOut, HoldsBytes}
use malachite_scripting_lang.Vm.Memory.Bytes.{written, read-value, write-cells}

-- The layout does not depend on the bytes.
pub IsLaidOut-cell :
    {m : DynamicMemory} (cell : ℕ → ℕ) → IsLaidOut m → IsLaidOut (record m { cell = cell })
IsLaidOut-cell cell l = record {
  owned = l.owned;
  whole = l.whole;
  small = l.small;
  code_first = l.code_first;
  rod_first = l.rod_first;
  stack_next = l.stack_next;
  heap_next = l.heap_next;
  ends = l.ends;
}

pub written-HoldsBytes :
    (cell : ℕ → ℕ) (native value n i : ℕ)
    → ((a : ℕ) → cell a < 256)
    → (a : ℕ) → written cell native value n i a < 256
written-HoldsBytes cell native value n i h a = ground (arith, h a)

module _ {m : DynamicMemory} (l : IsLaidOut m) (hb : HoldsBytes m) where
  -- In a laid-out memory of bytes: after a Write of up to 8 bytes at an address above the ROD
  -- and inside the memory, a Read of as many bytes there gives the value cut to them, and
  -- neither fails.
  pub read-write :
      (address value n : ℕ)
      → n ≤ 8
      → m.stack_sa ≤ address
      → address + n ≤ m.end
      → (write m address value n >>= λ m'. read m' address n) ≡ ok (value % 2 ^ (n * 8))
  read-write address value n short above inside =
      rw (write-cells l address value n short above inside) (
        read-value (IsLaidOut-cell _ l) address n
          (written-HoldsBytes m.cell (m.code_size + address) value n 0 hb) short inside
        ∙ ap ok (bytes_value-digits _ value (m.code_size + address) n digit))
    where
      digit :
          (i : ℕ)
          → i < n
          → written m.cell (m.code_size + address) value n 0 (m.code_size + address + i)
            ≡ value / 2 ^ (i * 8) % 256
      digit i lt =
          let e : m.code_size + address + i - (m.code_size + address) ≡ i = omega arith in
          rw e (ground arith)

  -- In a laid-out memory of bytes: a Write of up to 8 bytes above the ROD and inside the memory
  -- changes no Read of up to 8 bytes at addresses that it does not touch.
  pub read-write_apart :
      (address value n other k : ℕ)
      → n ≤ 8
      → k ≤ 8
      → m.stack_sa ≤ address
      → address + n ≤ m.end
      → other + k ≤ m.end
      → (other + k ≤ address) ⊎ (address + n ≤ other)
      → (write m address value n >>= λ m'. read m' other k) ≡ read m other k
  read-write_apart address value n other k short short' above inside inside' apart =
      rw (write-cells l address value n short above inside) (
        read-value (IsLaidOut-cell _ l) other k
          (written-HoldsBytes m.cell (m.code_size + address) value n 0 hb) short' inside'
        ∙ ap ok (bytes_value_ext _ m.cell (m.code_size + other) k same)
        ∙ sym (read-value l other k hb short' inside'))
    where
      same :
          (a : ℕ)
          → m.code_size + other ≤ a
          → a < m.code_size + other + k
          → written m.cell (m.code_size + address) value n 0 a ≡ m.cell a
      same a lo hi = elim apart [ inl before ↦ ground arith | inr behind ↦ ground arith ]

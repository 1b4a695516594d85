-- ===== src/Vm/Memory/Growth.antt =====
-- IncreaseHeap: the heap is twice as large, and the program finds its data where it was.
use malachite_scripting_lang.Prelude.{
  ℕ, ◌+◌, ◌-◌, ◌*◌, ◌^◌, ◌≤◌, ◌<◌, ◌≡◌, refl, ap, ◌∙◌, sym, arith, some,
}
use malachite_scripting_lang.Prelude.Bytes.{bytes_value_ext}
use malachite_scripting_lang.Outcome.{ok, ◌>>=◌}
use malachite_scripting_lang.Vm.Definitions.{u64}
use malachite_scripting_lang.Vm.Memory.{
  DynamicMemory, block, read, to_native, transferred, increase_heap,
}
use malachite_scripting_lang.Vm.Memory.Layout.{IsLaidOut, HoldsBytes, extent-IsLaidOut}
use malachite_scripting_lang.Vm.Memory.Bytes.{read-value}

module _ {m : DynamicMemory} (l : IsLaidOut m) (fresh : ℕ → ℕ) where
  -- The memory after IncreaseHeap.
  abbrev pub grown : DynamicMemory
  grown = record m {
    cell = transferred m fresh m.stack_size;
    heap_sa = m.stack_sa + m.stack_size;
    heap_size = m.heap_size * 2;
    size = m.size + m.heap_size;
    end = m.end + m.heap_size;
    m_pointer = block (m.size + m.heap_size);
  }

  module _ (room : m.size + m.heap_size < 2 ^ 63) where
    increase_heap-grown : increase_heap (some fresh) m ≡ ok grown
    unfolding increase_heap to_native
    increase_heap-grown = ground (
      arith,
      extent-IsLaidOut l,
      l.owned,
      l.whole,
      l.small,
      l.stack_next,
      l.heap_next,
      l.ends,
      room,
    )

    grown-IsLaidOut : IsLaidOut grown
    grown-IsLaidOut = record {
      owned = refl;
      whole = omega (arith, l.whole);
      small = room;
      code_first = l.code_first;
      rod_first = l.rod_first;
      stack_next = l.stack_next;
      heap_next = omega (arith, l.stack_next);
      ends = omega (arith, l.ends);
    }

    -- What lies below the old end is carried over, and the rest is what `malloc` left there.
    grown-cell : (a : ℕ) → a < m.size → transferred m fresh m.stack_size a ≡ m.cell a
    unfolding transferred to_native
    grown-cell a inside =
        ground (
          arith,
          l.whole,
          l.small,
          l.stack_next,
          l.heap_next,
          l.ends,
          room,
          inside,
          ap m.cell moved,
        )
      where
        moved :
            u64 (m.code_size + m.heap_sa) + (a - (u64 (m.code_size + m.stack_sa) + m.stack_size))
            ≡ u64 (m.code_size + m.heap_sa) + (a - u64 (m.code_size + m.heap_sa))
        moved = omega (arith, l.whole, l.small, l.stack_next, l.heap_next)

    grown-HoldsBytes : HoldsBytes m → ((a : ℕ) → fresh a < 256) → HoldsBytes grown
    unfolding transferred
    grown-HoldsBytes hb hf a = ground (
      arith,
      hb a,
      hf a,
      hb (to_native m m.heap_sa + (a - (to_native m m.stack_sa + m.stack_size))),
    )

    -- IncreaseHeap of a laid-out memory, granted its block, where the new size is below 2 ^ 63,
    -- gives a laid-out memory with twice the heap, the same stack and the heap where it was.
    pub increase_heap-IsLaidOut :
        (m' : DynamicMemory) × (increase_heap (some fresh) m ≡ ok m')
        × IsLaidOut m'
        × (m'.heap_size ≡ m.heap_size * 2)
        × (m'.stack_size ≡ m.stack_size)
        × (m'.heap_sa ≡ m.heap_sa)
    increase_heap-IsLaidOut = (
      grown,
      increase_heap-grown,
      grown-IsLaidOut,
      refl,
      refl,
      omega (arith, l.stack_next, l.heap_next),
    )

    -- IncreaseHeap of a laid-out memory of bytes, granted a block of bytes, where the new size
    -- is below 2 ^ 63: a Read of up to 8 bytes inside the old memory gives the same as before.
    pub read-increase_heap :
        (address n : ℕ)
        → HoldsBytes m
        → ((a : ℕ) → fresh a < 256)
        → n ≤ 8
        → address + n ≤ m.end
        → (increase_heap (some fresh) m >>= λ m'. read m' address n) ≡ read m address n
    read-increase_heap address n hb hf short inside = rw increase_heap-grown (
        read-value grown-IsLaidOut address n (grown-HoldsBytes hb hf) short (omega arith)
        ∙ ap ok (bytes_value_ext _ m.cell (m.code_size + address) n same)
        ∙ sym (read-value l address n hb short inside))
      where
        same :
            (a : ℕ)
            → m.code_size + address ≤ a
            → a < m.code_size + address + n
            → transferred m fresh m.stack_size a ≡ m.cell a
        same a lo hi = grown-cell a (omega (arith, l.whole, l.ends))

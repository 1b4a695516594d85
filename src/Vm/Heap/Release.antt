-- ===== src/Vm/Heap/Release.antt =====
-- Free gives addresses back: they are free afterwards, with neighbours joined.
use malachite_scripting_lang.Prelude.{
  ℕ, ◌+◌, ◌-◌, ◌^◌, ◌≤◌, ◌<◌, ◌≡◌, refl, ◌∙◌, true, false, ◌||◌, List, [], ◌∷◌, none, arith, ltb,
  ◌==◌, Bool-cases, inl, inr,
}
use malachite_scripting_lang.Vm.Definitions.{u64, sub64}
use malachite_scripting_lang.Vm.Errors.{no_error}
use malachite_scripting_lang.Vm.LinkedList.{coalesce}
use malachite_scripting_lang.Vm.Interval.{
  HeapFreeInterval, interval, contains, can_merge_with, merge_with,
}
use malachite_scripting_lang.Vm.Heap.{
  HeapFreeIntervals, allocate, add_interval, coalesce_intervals, rebuild_size_index, index_blocks,
  index_block, free, aligned_size,
}
use malachite_scripting_lang.Vm.Heap.Chain.{IsBlock, Chain, covered}
use malachite_scripting_lang.Vm.Heap.Index.{Indexes, rebuild-by_addr, rebuild_size_index-Indexes}
use malachite_scripting_lang.Vm.Heap.Merge.{coalesce-Chain, covered-coalesce}
use malachite_scripting_lang.Vm.Heap.Reserve.{
  IsHeap, is_free, in_range, rounded, add_interval-IsHeap, is_free-add, aligned_size-rounded,
  allocate-reserves,
}

index_blocks-alignment :
    (bs : List HeapFreeInterval) (h : HeapFreeIntervals)
    → (index_blocks bs h).alignment ≡ h.alignment
unfolding index_blocks index_block
index_blocks-alignment [] h = refl
index_blocks-alignment (b ∷ bs) h = index_blocks-alignment bs (index_block b h)

-- What Coalesce rebuilds the index of.
abbrev merged : HeapFreeIntervals → HeapFreeIntervals
merged h = record h {
  free_intervals_by_addr = coalesce can_merge_with merge_with h.free_intervals_by_addr;
}

coalesce-alignment : (h : HeapFreeIntervals) → (coalesce_intervals h).alignment ≡ h.alignment
unfolding coalesce_intervals rebuild_size_index
coalesce-alignment h = index_blocks-alignment (merged h).free_intervals_by_addr (record (merged h) {
  free_intervals_by_size = λ size. none;
  min_block_size = 2 ^ 64 - 1;
  max_block_size = 0;
})

module _ (lo hi : ℕ) (h : HeapFreeIntervals) (heap : IsHeap lo hi h) (small : hi ≤ 2 ^ 63) where
  coalesce_intervals-by_addr :
      (coalesce_intervals h).free_intervals_by_addr
      ≡ coalesce can_merge_with merge_with h.free_intervals_by_addr
  unfolding coalesce_intervals
  coalesce_intervals-by_addr = rebuild-by_addr (merged h)

  coalesce_intervals-Indexes :
      Indexes (coalesce can_merge_with merge_with h.free_intervals_by_addr) (coalesce_intervals h)
  unfolding coalesce_intervals
  coalesce_intervals-Indexes = rebuild_size_index-Indexes (merged h)

  -- Coalesce of a heap is a heap,
  coalesce_intervals-IsHeap : IsHeap lo hi (coalesce_intervals h)
  unfolding coalesce_intervals
  coalesce_intervals-IsHeap = record {
    chain =
        rw coalesce_intervals-by_addr
          (coalesce-Chain hi small lo h.free_intervals_by_addr heap.chain);
    indexes = rw coalesce_intervals-by_addr coalesce_intervals-Indexes;
    aligned = coalesce-alignment h ∙ heap.aligned;
  }

  -- with the same free addresses.
  is_free-coalesce : (a : ℕ) → is_free (coalesce_intervals h) a ≡ is_free h a
  is_free-coalesce a =
      rw coalesce_intervals-by_addr
        (covered-coalesce hi small lo h.free_intervals_by_addr a heap.chain)

module _ (lo hi address size : ℕ) (h : HeapFreeIntervals) (heap : IsHeap lo hi h)
    (small : hi ≤ 2 ^ 63) (positive : 0 < size) (above : lo ≤ address)
    (below : address + rounded size ≤ hi)
    (taken : (a : ℕ) → in_range address (rounded size) a ≡ true → is_free h a ≡ false) where
  abbrev freed : HeapFreeInterval
  freed = interval address (address + rounded size - 1)

  rounds : aligned_size h.alignment size ≡ rounded size
  rounds = rw heap.aligned (aligned_size-rounded size (omega (arith, below, small)))

  positive_rounded : 0 < rounded size
  positive_rounded = omega (arith, positive)

  free-freed : free address size h ≡ (no_error, coalesce_intervals (add_interval freed h))
  unfolding free
  free-freed =
      let more : (size == 0) ≡ false = ground arith in
      let end : sub64 (u64 (address + rounded size)) 1 ≡ address + rounded size - 1 =
        omega (arith, below, small, positive_rounded) in
      let order : ltb (address + rounded size - 1) address ≡ false =
        ground (arith, positive_rounded) in
      rw (rounds, more, end, order) refl

  freed-IsBlock : IsBlock lo hi freed
  freed-IsBlock = omega (arith, above, below, small, positive_rounded)

  added : IsHeap lo hi (add_interval freed h)
  added =
      add_interval-IsHeap lo hi freed h heap freed-IsBlock
        (record { apart = λ a i. taken a (ground (arith, i, positive_rounded)) })

  -- In a heap below 2 ^ 63: Free of `size` > 0 bytes, rounded up to a multiple of 8, that are
  -- in the heap and of which none is free reports no error and leaves a heap; the addresses
  -- that are free afterwards are those that were and those that it gave back.
  pub free-releases :
      ((free address size h).0 ≡ no_error)
      × IsHeap lo hi (free address size h).1
      × ((a : ℕ)
          → is_free (free address size h).1 a ≡ (is_free h a || in_range address (rounded size) a))
  free-releases = rw free-freed (
    refl,
    coalesce_intervals-IsHeap lo hi (add_interval freed h) added small,
    λ a.
        is_free-coalesce lo hi (add_interval freed h) added small a
        ∙ is_free-add lo hi freed h a
        ∙ ground (arith, positive_rounded),
  )

covered-within :
    (lo hi : ℕ) (bs : List HeapFreeInterval) (a : ℕ)
    → Chain lo hi bs
    → covered bs a ≡ true
    → (lo ≤ a) × (a < hi)
covered-within lo hi [] a c e = absurd (cc e)
covered-within lo hi (b ∷ bs) a (v, c) e = elim (Bool-cases (contains b a)) [
  | inl inside ↦ (omega (arith, v.above, starts inside), omega (arith, v.below, ends inside))
  | inr outside ↦
      let (above, below) = covered-within (b.end + 1) hi bs a c (rw outside at e) in
      (omega (arith, above, v.above, v.ordered), below)
]
  where
    starts : contains b a ≡ true → b.start ≤ a
    starts i = ground (arith, i)

    ends : contains b a ≡ true → a ≤ b.end
    ends i = ground (arith, i)

module _ (lo hi size address : ℕ) (h : HeapFreeIntervals) (heap : IsHeap lo hi h)
    (small : hi ≤ 2 ^ 63) (positive : 0 < size) (word : size < 2 ^ 63) where
  -- In a heap below 2 ^ 63: Free of what Allocate of `size` bytes, 0 < `size` < 2 ^ 63, handed
  -- out reports no error and leaves a heap in which an address is free exactly where it was
  -- before Allocate.
  pub free-allocate :
      (allocate size address h).code ≡ no_error
      → let r = allocate size address h in
        ((free r.address size r.intervals).0 ≡ no_error)
        × IsHeap lo hi (free r.address size r.intervals).1
        × ((a : ℕ) → is_free (free r.address size r.intervals).1 a ≡ is_free h a)
  free-allocate done =
      let r = allocate size address h in
      let (heap', were_free, left) =
        allocate-reserves lo hi size address h heap small positive word done in
      let was : (a : ℕ) → in_range r.address (rounded size) a ≡ true → is_free h a ≡ true =
        λ a i. ground (arith, were_free a, i) in
      let first =
        covered-within lo hi h.free_intervals_by_addr r.address heap.chain
          (was r.address (ground (arith, positive))) in
      let last =
        covered-within lo hi h.free_intervals_by_addr (r.address + rounded size - 1) heap.chain
          (was (r.address + rounded size - 1) (ground (arith, positive))) in
      let (ok, heap'', given) =
        free-releases lo hi r.address size r.intervals heap' small positive first.0
          (omega (arith, last.1, positive)) (λ a i. ground (arith, left a, i)) in
      (ok, heap'', λ a. given a ∙ ground (arith, left a, were_free a))

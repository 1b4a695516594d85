-- ===== src/Vm/Heap/Reserve.antt =====
-- Allocate reserves whole free addresses, and fails only where no free block is large enough.
use malachite_scripting_lang.Prelude.{
  ℕ, ◌+◌, ◌*◌, ◌/◌, ◌^◌, ◌≤◌, ◌<◌, ◌≡◌, refl, sym, ◌∙◌, Bool, true, false, not, ◌&&◌, ◌||◌, none,
  some, arith, ltb, leb, ◌==◌, Bool-cases, Option-cases, inl, inr,
}
use malachite_scripting_lang.Vm.Definitions.{u64, default_alignment}
use malachite_scripting_lang.Vm.Errors.{no_error, failed_memory_allocation}
use malachite_scripting_lang.Vm.LinkedList.{insert_sorted}
use malachite_scripting_lang.Vm.Interval.{HeapFreeInterval, interval, contains, split}
use malachite_scripting_lang.Vm.Heap.{
  HeapFreeIntervals, allocate, take_block, add_interval, remove_interval, same_ends, starts_before,
  find_fit_block, aligned_size, index_block,
}
use malachite_scripting_lang.Vm.Heap.Chain.{
  covered, count, IsBlock, Chain, Chain-count, covered-count,
}
use malachite_scripting_lang.Vm.Heap.Change.{
  IsApart, covered-remove, covered-insert, insert-Chain, remove_if-Chain,
}
use malachite_scripting_lang.Vm.Heap.Index.{Indexes, remove_interval-Indexes, add_interval-Indexes}
use malachite_scripting_lang.Vm.Heap.Fit.{find_fit_block-held, find_fit_block-best}

-- The free blocks lie apart in `lo`, ..., `hi` - 1, the index agrees with the list, and sizes are
-- rounded up to 8.
pub record IsHeap (lo hi : ℕ) (h : HeapFreeIntervals) : Type 0 where
  pub chain : Chain lo hi h.free_intervals_by_addr
  pub indexes : Indexes h.free_intervals_by_addr h
  pub aligned : h.alignment ≡ default_alignment

-- Whether the heap has an address to give.
abbrev pub is_free : HeapFreeIntervals → ℕ → Bool
is_free h a = covered h.free_intervals_by_addr a

-- `start`, ..., `start + n - 1`
abbrev pub in_range : ℕ → ℕ → ℕ → Bool
in_range start n a = leb start a && ltb a (start + n)

abbrev pub rounded : ℕ → ℕ
rounded size = (size + 7) / 8 * 8

pub add_interval-by_addr :
    (b : HeapFreeInterval) (h : HeapFreeIntervals)
    → (add_interval b h).free_intervals_by_addr
      ≡ insert_sorted starts_before b h.free_intervals_by_addr
unfolding add_interval index_block
add_interval-by_addr b h = refl

pub add_interval-alignment :
    (b : HeapFreeInterval) (h : HeapFreeIntervals) → (add_interval b h).alignment ≡ h.alignment
unfolding add_interval index_block
add_interval-alignment b h = refl

module _ (lo hi : ℕ) where
  -- AddInterval of addresses that are not free.
  pub add_interval-IsHeap :
      (b : HeapFreeInterval) (h : HeapFreeIntervals)
      → IsHeap lo hi h
      → IsBlock lo hi b
      → IsApart b h.free_intervals_by_addr
      → IsHeap lo hi (add_interval b h)
  add_interval-IsHeap b h heap v p = record {
    chain =
        rw (add_interval-by_addr b h)
          (insert-Chain hi b lo h.free_intervals_by_addr heap.chain v p);
    indexes = add_interval-Indexes b h heap.indexes;
    aligned = add_interval-alignment b h ∙ heap.aligned;
  }

  pub is_free-add :
      (b : HeapFreeInterval) (h : HeapFreeIntervals) (a : ℕ)
      → is_free (add_interval b h) a ≡ (contains b a || is_free h a)
  is_free-add b h a = rw (add_interval-by_addr b h) (covered-insert b h.free_intervals_by_addr a)

  module _ (b : HeapFreeInterval) (h : HeapFreeIntervals) (heap : IsHeap lo hi h)
      (held : 0 < count b h.free_intervals_by_addr) where
    remove_interval-IsHeap : IsHeap lo hi (remove_interval b h)
    unfolding remove_interval
    remove_interval-IsHeap = record {
      chain = remove_if-Chain (same_ends b) lo hi h.free_intervals_by_addr heap.chain;
      indexes = remove_interval-Indexes lo hi b h heap.chain heap.indexes held;
      aligned = heap.aligned;
    }

    is_free-remove : (a : ℕ) → is_free (remove_interval b h) a ≡ (is_free h a && not (contains b a))
    unfolding remove_interval
    is_free-remove a = covered-remove lo hi b h.free_intervals_by_addr a heap.chain held

    module _ (small : hi ≤ 2 ^ 63) (n : ℕ) (some_bytes : 0 < n) (fits : n ≤ b.size) where
      block : IsBlock lo hi b
      block = Chain-count lo hi h.free_intervals_by_addr b heap.chain held

      abbrev remainder : HeapFreeInterval
      remainder = interval (u64 (b.start + n)) b.end

      module _ (more : n < b.size) where
        remainder-IsBlock : IsBlock lo hi remainder
        remainder-IsBlock = omega (arith, block, small, some_bytes, more)

        remainder-apart :
            (a : ℕ) → contains remainder a ≡ true → is_free (remove_interval b h) a ≡ false
        remainder-apart a i =
            is_free-remove a
            ∙ ground (arith, i, block.sized, block.below, block.above, small, some_bytes)

        remainder-contains :
            (a : ℕ) → contains remainder a ≡ (contains b a && not (in_range b.start n a))
        remainder-contains a =
            ground (arith, block.sized, block.ordered, block.below, small, some_bytes, more)

      -- Allocate on the block that it found.
      take_block-IsHeap : IsHeap lo hi (take_block b n h)
      unfolding take_block split
      take_block-IsHeap = elim (Bool-cases (ltb n b.size)) [
        | inl more ↦
            let whole : leb b.size n ≡ false = ground arith in
            rw (more, whole)
              (add_interval-IsHeap remainder (remove_interval b h) remove_interval-IsHeap
                (remainder-IsBlock (ground arith))
                (record { apart = remainder-apart (ground arith) }))
        | inr exact ↦ rw exact remove_interval-IsHeap
      ]

      is_free-take_block :
          (a : ℕ) → is_free (take_block b n h) a ≡ (is_free h a && not (in_range b.start n a))
      unfolding take_block split
      is_free-take_block a = elim (Bool-cases (ltb n b.size)) [
        | inl more ↦
            let whole : leb b.size n ≡ false = ground arith in
            rw (more, whole, is_free-add remainder (remove_interval b h) a, is_free-remove a)
              (rejoin (ground arith))
        | inr exact ↦
            rw (exact, is_free-remove a) (ground (arith, block.sized, block.ordered, fits, exact))
      ]
        where
          rejoin :
              n < b.size
              → (contains remainder a || is_free h a && not (contains b a))
                ≡ (is_free h a && not (in_range b.start n a))
          rejoin more = rw (remainder-contains more a) (elim (Bool-cases (contains b a)) [
            | inl inside ↦
                rw (inside, covered-count h.free_intervals_by_addr b a held inside) (ground arith)
            | inr outside ↦ rw outside (ground (arith, outside, block.sized, block.ordered, more))
          ])

      -- The addresses that are taken were free.
      taken-is_free : (a : ℕ) → (in_range b.start n a && not (is_free h a)) ≡ false
      taken-is_free a = elim (Bool-cases (contains b a)) [
        | inl inside ↦ rw (covered-count h.free_intervals_by_addr b a held inside) (ground arith)
        | inr outside ↦ ground (arith, outside, block.sized, block.ordered, fits)
      ]

pub aligned_size-rounded :
    (size : ℕ) → size ≤ 2 ^ 63 → aligned_size default_alignment size ≡ rounded size
unfolding aligned_size
aligned_size-rounded size small = omega (arith, small)

allocate-refused :
    (size address : ℕ) (h : HeapFreeIntervals)
    → find_fit_block (aligned_size h.alignment size) h ≡ none
    → (allocate size address h).code ≡ failed_memory_allocation
unfolding allocate
allocate-refused size address h nothing = elim (Bool-cases (size == 0)) [
  | inl zero_size ↦ rw zero_size refl
  | inr more ↦ rw (more, nothing) refl
]

allocate-found :
    (size address : ℕ) (h : HeapFreeIntervals) (b : HeapFreeInterval)
    → 0 < size
    → find_fit_block (aligned_size h.alignment size) h ≡ some b
    → allocate size address h ≡ record {
      code = no_error;
      address = b.start;
      intervals = take_block b (aligned_size h.alignment size) h;
    }
unfolding allocate
allocate-found size address h b more found =
    let more' : (size == 0) ≡ false = ground arith in rw (more', found) refl

module _ (lo hi size address : ℕ) (h : HeapFreeIntervals) (heap : IsHeap lo hi h)
    (small : hi ≤ 2 ^ 63) (positive : 0 < size) (word : size < 2 ^ 63) where
  rounds : aligned_size h.alignment size ≡ rounded size
  rounds = rw heap.aligned (aligned_size-rounded size (omega (arith, word)))

  found_block :
      (b : HeapFreeInterval)
      → find_fit_block (aligned_size h.alignment size) h ≡ some b
      → (0 < count b h.free_intervals_by_addr) × (rounded size ≤ b.size)
  found_block b found =
      let (held, le, least) =
        find_fit_block-held (rounded size) h heap.indexes b (rw rounds at found) in
      (held, le)

  -- In a heap below 2 ^ 63: where Allocate of `size` bytes, 0 < `size` < 2 ^ 63, reports no
  -- error, it leaves a heap, the addresses that it hands out, `size` rounded up to a multiple
  -- of 8, were all free, and the addresses that are free afterwards are the others that were.
  pub allocate-reserves :
      (allocate size address h).code ≡ no_error
      → IsHeap lo hi (allocate size address h).intervals
        × ((a : ℕ)
            → (in_range (allocate size address h).address (rounded size) a && not (is_free h a))
              ≡ false)
        × ((a : ℕ)
            → is_free (allocate size address h).intervals a
              ≡ (is_free h a && not (in_range (allocate size address h).address (rounded size) a)))
  allocate-reserves done = elim (Option-cases (find_fit_block (aligned_size h.alignment size) h)) [
    | inl nothing ↦ absurd (refused (sym (allocate-refused size address h nothing) ∙ done))
    | inr (b, found) ↦
        let (held, le) = found_block b found in
        rw (allocate-found size address h b positive found, rounds)
          (
            take_block-IsHeap lo hi b h heap held small (rounded size) rounded-positive le,
            taken-is_free lo hi b h heap held small (rounded size) rounded-positive le,
            is_free-take_block lo hi b h heap held small (rounded size) rounded-positive le,
          )
  ]
    where
      refused : failed_memory_allocation ≡ no_error → ⊥
      refused e = cc

      rounded-positive : 0 < rounded size
      rounded-positive = omega (arith, positive)

  -- In a heap below 2 ^ 63: Allocate of `size` bytes, 0 < `size` < 2 ^ 63, reports no error
  -- where a free block has `size` bytes, rounded up to a multiple of 8.
  pub allocate-succeeds :
      (c : HeapFreeInterval)
      → 0 < count c h.free_intervals_by_addr
      → rounded size ≤ c.size
      → (allocate size address h).code ≡ no_error
  allocate-succeeds c held large =
      let (b, found, _, _, _) = find_fit_block-best (rounded size) h heap.indexes c held large in
      rw (allocate-found size address h b positive (rw rounds found)) refl

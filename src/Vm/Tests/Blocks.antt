-- ===== src/Vm/Tests/Blocks.antt =====
-- The free blocks of a heap of the addresses 1000 to 1999.
use malachite_scripting_lang.Prelude.{
  ℕ, ◌-◌, ◌^◌, ◌≤◌, ◌<◌, ◌≡◌, refl, arith, true, false, not, ◌&&◌, ◌||◌, List, [], ◌∷◌, some,
}
use malachite_scripting_lang.Vm.Definitions.{default_alignment}
use malachite_scripting_lang.Vm.Errors.{no_error, failed_memory_allocation}
use malachite_scripting_lang.Vm.LinkedList.{coalesce}
use malachite_scripting_lang.Vm.Interval.{HeapFreeInterval, interval, can_merge_with, merge_with}
use malachite_scripting_lang.Vm.Heap.{
  HeapFreeIntervals, no_intervals, set_heap, allocate, allocate_aligned, free, find_fit_block,
}
use malachite_scripting_lang.Vm.Heap.Chain.{covered, count, Chain}
use malachite_scripting_lang.Vm.Heap.Fit.{find_fit_block-best}
use malachite_scripting_lang.Vm.Heap.Merge.{covered-coalesce}
use malachite_scripting_lang.Vm.Heap.Reserve.{
  IsHeap, is_free, in_range, rounded, allocate-reserves, allocate-succeeds,
}
use malachite_scripting_lang.Vm.Heap.Release.{free-releases, free-allocate}
use malachite_scripting_lang.Vm.Heap.Reset.{set_heap-IsHeap}

abbrev whole : HeapFreeInterval
whole = interval 1000 1999

abbrev fresh : HeapFreeIntervals
fresh = set_heap 1000 1999 default_alignment no_intervals

fresh-IsHeap : IsHeap 1000 2000 fresh
fresh-IsHeap = (set_heap-IsHeap 1000 1999 (omega arith) (omega arith)).0

-- 20 bytes take 24 from the front.
allocates : ((allocate 20 0 fresh).code ≡ no_error) × ((allocate 20 0 fresh).address ≡ 1000)
unfolding allocate set_heap
allocates = (refl, refl)

-- Two allocations are apart, and what is asked for in excess is refused.
allocates_twice :
    ((allocate 8 0 (allocate 20 0 fresh).intervals).address ≡ 1024)
    × ((allocate 1001 0 fresh).code ≡ failed_memory_allocation)
unfolding allocate set_heap
allocates_twice = (refl, refl)

-- The size of a request is rounded up in 64 bits: one near 2 ^ 64 is granted without taking anything.
allocates_nothing :
    ((allocate (2 ^ 64 - 1) 0 fresh).code ≡ no_error)
    × ((allocate (2 ^ 64 - 1) 0 fresh).intervals.free_intervals_by_addr ≡ whole ∷ [])
unfolding allocate set_heap
allocates_nothing = (refl, refl)

-- Blocks freed in the other order join again.
frees :
    (free 1000 20 (free 1024 8 (allocate 8 0 (allocate 20 0 fresh).intervals).intervals).1
      ).1.free_intervals_by_addr
    ≡ whole ∷ []
unfolding allocate set_heap free
frees = refl

-- AllocateAligned: the front and the back of the block stay free.
aligns : (allocate_aligned 64 256 0 fresh).address ≡ 1024
unfolding allocate_aligned set_heap
aligns = refl

allocate-reserves_example :
    IsHeap 1000 2000 (allocate 20 0 fresh).intervals
    × ((a : ℕ)
        → (in_range (allocate 20 0 fresh).address (rounded 20) a && not (is_free fresh a)) ≡ false)
    × ((a : ℕ)
        → is_free (allocate 20 0 fresh).intervals a
          ≡ (is_free fresh a && not (in_range (allocate 20 0 fresh).address (rounded 20) a)))
allocate-reserves_example =
    allocate-reserves 1000 2000 20 0 fresh fresh-IsHeap (omega arith) (omega arith) (omega arith)
      allocates.0

whole-held : 0 < count whole fresh.free_intervals_by_addr
unfolding set_heap
whole-held = omega arith

allocate-succeeds_example : (allocate 20 0 fresh).code ≡ no_error
allocate-succeeds_example =
    allocate-succeeds 1000 2000 20 0 fresh fresh-IsHeap (omega arith) (omega arith) (omega arith)
      whole whole-held (omega arith)

free-allocate_example :
    ((free (allocate 20 0 fresh).address 20 (allocate 20 0 fresh).intervals).0 ≡ no_error)
    × IsHeap 1000 2000 (free (allocate 20 0 fresh).address 20 (allocate 20 0 fresh).intervals).1
    × ((a : ℕ)
        → is_free (free (allocate 20 0 fresh).address 20 (allocate 20 0 fresh).intervals).1 a
          ≡ is_free fresh a)
free-allocate_example =
    free-allocate 1000 2000 20 0 fresh fresh-IsHeap (omega arith) (omega arith) (omega arith)
      allocates.0

wide-Chain : Chain 1000 3000 fresh.free_intervals_by_addr
unfolding set_heap
wide-Chain = (omega arith, tt)

-- A heap up to 3000 whose addresses from 2000 are taken.
wide-IsHeap : IsHeap 1000 3000 fresh
wide-IsHeap = record {
  chain = wide-Chain;
  indexes = fresh-IsHeap.indexes;
  aligned = fresh-IsHeap.aligned;
}

taken : (a : ℕ) → in_range 2000 (rounded 8) a ≡ true → is_free fresh a ≡ false
unfolding set_heap
taken a i = ground (arith, i)

free-releases_example :
    ((free 2000 8 fresh).0 ≡ no_error)
    × IsHeap 1000 3000 (free 2000 8 fresh).1
    × ((a : ℕ) → is_free (free 2000 8 fresh).1 a ≡ (is_free fresh a || in_range 2000 (rounded 8) a))
free-releases_example =
    free-releases 1000 3000 2000 8 fresh wide-IsHeap (omega arith) (omega arith) (omega arith)
      (omega arith) taken

find_fit_block-best_example :
    (b : HeapFreeInterval) × (find_fit_block 24 fresh ≡ some b)
    × (0 < count b fresh.free_intervals_by_addr)
    × (24 ≤ b.size)
    × (b.size ≤ whole.size)
find_fit_block-best_example =
    find_fit_block-best 24 fresh fresh-IsHeap.indexes whole whole-held (omega arith)

abbrev halves : List HeapFreeInterval
halves = interval 1000 1499 ∷ interval 1500 1999 ∷ []

covered-coalesce_example :
    covered (coalesce can_merge_with merge_with halves) 1500 ≡ covered halves 1500
covered-coalesce_example =
    covered-coalesce 2000 (omega arith) 1000 halves 1500 (omega arith, (omega arith, tt))

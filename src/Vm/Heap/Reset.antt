-- ===== src/Vm/Heap/Reset.antt =====
-- Set, which clear_vm_state calls with GetEnd() as the last address of the heap.
use malachite_scripting_lang.Prelude.{ℕ, ◌+◌, ◌^◌, ◌≤◌, ◌<◌, ◌≡◌, refl, ◌||◌, ◌&&◌, arith, leb, ◌∙◌}
use malachite_scripting_lang.Vm.Definitions.{default_alignment}
use malachite_scripting_lang.Vm.Interval.{HeapFreeInterval, interval, contains}
use malachite_scripting_lang.Vm.Heap.{HeapFreeIntervals, set_heap, no_intervals}
use malachite_scripting_lang.Vm.Heap.Reserve.{IsHeap, is_free, add_interval-IsHeap, is_free-add}

-- Set of an empty list of blocks, with a heap from `heap_start` to `heap_end` below 2 ^ 63, makes a
-- heap whose free addresses are `heap_start`, ..., `heap_end`, with both ends.
pub set_heap-IsHeap :
    (heap_start heap_end : ℕ)
    → heap_start ≤ heap_end
    → heap_end < 2 ^ 63
    → IsHeap heap_start (heap_end + 1) (set_heap heap_start heap_end default_alignment no_intervals)
      × ((a : ℕ)
          → is_free (set_heap heap_start heap_end default_alignment no_intervals) a
            ≡ (leb heap_start a && leb a heap_end))
unfolding set_heap
set_heap-IsHeap heap_start heap_end order small = (
  add_interval-IsHeap heap_start (heap_end + 1) whole no_intervals
      (record {
        chain = tt;
        indexes = record {
          under_size = λ size c. ground arith;
          bounded = λ c held. absurd (omega (arith, held));
        };
        aligned = refl;
      })
      (omega (arith, order, small)) (record { apart = λ a i. refl }),
  λ a. is_free-add heap_start (heap_end + 1) whole no_intervals a ∙ ground arith,
)
  where
    whole : HeapFreeInterval
    whole = interval heap_start heap_end

-- Set leaves the blocks that there were: an address that was free still is.
pub set_heap-keeps_blocks :
    (heap_start heap_end align a : ℕ) (h : HeapFreeIntervals)
    → is_free (set_heap heap_start heap_end align h) a
      ≡ (contains (interval heap_start heap_end) a || is_free h a)
unfolding set_heap
set_heap-keeps_blocks heap_start heap_end align a h =
    is_free-add heap_start heap_end (interval heap_start heap_end) (record h { alignment = align })
      a

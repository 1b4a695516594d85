-- ===== src/Vm/Heap.antt =====
-- HeapFreeIntervals of MSLVM/include/mslvm/vm_memory.hpp and MSLVM/source/memory/vm_memory.cpp: the
-- free blocks of the heap, in a list by address and in an index by size.
pub mod Chain
pub mod Change
pub mod Index
pub mod Fit
pub mod Merge
pub mod Reserve
pub mod Release
pub mod Reset
use malachite_scripting_lang.Prelude.{
  ℕ, zero, suc, ◌+◌, ◌-◌, ◌*◌, ◌/◌, ◌^◌, Bool, true, false, Option, none, some, List, [], ◌∷◌, ltb,
  leb, ◌==◌, ◌&&◌, ◌||◌, if◌then◌else◌, is_empty,
}
use malachite_scripting_lang.Vm.Definitions.{u64, sub64, default_alignment}
use malachite_scripting_lang.Vm.Errors.{
  ErrorCode, no_error, failed_memory_allocation, failed_memory_freeing,
}
use malachite_scripting_lang.Vm.LinkedList.{push_back, remove, find_if, insert_sorted, coalesce}
use malachite_scripting_lang.Vm.Interval.{
  HeapFreeInterval, interval, split, can_merge_with, merge_with,
}

-- The index by size: `none` is a size without an entry.
abbrev pub SizeIndex : Type 0
SizeIndex = ℕ → Option (List HeapFreeInterval)

pub record HeapFreeIntervals : Type 0 where
  pub free_intervals_by_size : SizeIndex
  pub free_intervals_by_addr : List HeapFreeInterval
  pub min_block_size : ℕ
  pub max_block_size : ℕ
  pub alignment : ℕ

-- `HeapFreeIntervals() = default`
abbrev pub no_intervals : HeapFreeIntervals
no_intervals = record {
  free_intervals_by_size = λ size. none;
  free_intervals_by_addr = [];
  min_block_size = 2 ^ 64 - 1;
  max_block_size = 0;
  alignment = default_alignment;
}

abbrev pub entries : Option (List HeapFreeInterval) → List HeapFreeInterval
entries none = []
entries (some l) = l

-- `index[size]`, which makes an empty list where there is no entry.
abbrev pub bucket : SizeIndex → ℕ → List HeapFreeInterval
bucket index size = entries (index size)

abbrev pub set_bucket : SizeIndex → ℕ → Option (List HeapFreeInterval) → SizeIndex
set_bucket index size entry s = if s == size then entry else index s

abbrev pub starts_before : HeapFreeInterval → HeapFreeInterval → Bool
starts_before a b = ltb a.start b.start

-- The update of the index, and of its bounds, that AddInterval and RebuildSizeIndex share.
unfoldable pub index_block : HeapFreeInterval → HeapFreeIntervals → HeapFreeIntervals
index_block b h = record h {
  free_intervals_by_size =
      set_bucket h.free_intervals_by_size b.size
        (some (push_back b (bucket h.free_intervals_by_size b.size)));
  min_block_size = if ltb b.size h.min_block_size then b.size else h.min_block_size;
  max_block_size = if ltb h.max_block_size b.size then b.size else h.max_block_size;
}

unfoldable pub add_interval : HeapFreeInterval → HeapFreeIntervals → HeapFreeIntervals
unfolding index_block insert_sorted
add_interval b h =
    index_block b
      (record h { free_intervals_by_addr = insert_sorted starts_before b h.free_intervals_by_addr })

abbrev pub same_ends : HeapFreeInterval → HeapFreeInterval → Bool
same_ends b block = (block.start == b.start) && (block.end == b.end)

abbrev pub same_start : HeapFreeInterval → HeapFreeInterval → Bool
same_start b block = block.start == b.start

-- `find_if` and, where it finds a node, `remove`.
unfoldable pub remove_if : (HeapFreeInterval → Bool) → List HeapFreeInterval → List HeapFreeInterval
unfolding find_if remove
remove_if test l = elim (find_if test l) [ none ↦ l | some node ↦ remove node l ]

-- An entry whose list has become empty is erased.
abbrev pub entry_of : List HeapFreeInterval → Option (List HeapFreeInterval)
entry_of l = if is_empty l then none else some l

unfoldable pub remove_from_index : HeapFreeInterval → SizeIndex → SizeIndex
unfolding remove_if
remove_from_index b index = elim (index b.size) [
  | none ↦ index
  | some l ↦ set_bucket index b.size (entry_of (remove_if (same_start b) l))
]

unfoldable pub remove_interval : HeapFreeInterval → HeapFreeIntervals → HeapFreeIntervals
unfolding remove_from_index remove_if
remove_interval b h = record h {
  free_intervals_by_addr = remove_if (same_ends b) h.free_intervals_by_addr;
  free_intervals_by_size = remove_from_index b h.free_intervals_by_size;
}

-- The first block of a list, if there is one.
abbrev pub get_front : List HeapFreeInterval → Option HeapFreeInterval
get_front [] = none
get_front (b ∷ bs) = some b

-- The loop of FindFitBlock from `size`, with `rounds` sizes left.
unfoldable pub find_fit_from : SizeIndex → ℕ → ℕ → Option HeapFreeInterval
find_fit_from index zero size = none
find_fit_from index (suc rounds) size = elim (get_front (bucket index size)) [
  | some b ↦ some b
  | none ↦ find_fit_from index rounds (size + 1)
]

-- FindFitBlock: the sizes from `required_size` to `max_block_size`, which is below SIZE_MAX.
unfoldable pub find_fit_block : ℕ → HeapFreeIntervals → Option HeapFreeInterval
unfolding find_fit_from
find_fit_block required_size h =
    find_fit_from h.free_intervals_by_size (h.max_block_size + 1 - required_size) required_size

-- `((size + alignment - 1) / alignment) * alignment`; the alignment is never 0.
unfoldable pub aligned_size : ℕ → ℕ → ℕ
aligned_size alignment size = u64 (sub64 (u64 (size + alignment)) 1 / alignment * alignment)

-- What a call leaves: its error code, `*address`, and the intervals.
pub record Allocation : Type 0 where
  pub code : ErrorCode
  pub address : ℕ
  pub intervals : HeapFreeIntervals

-- Allocate on the block that FindFitBlock found.
unfoldable pub take_block : HeapFreeInterval → ℕ → HeapFreeIntervals → HeapFreeIntervals
unfolding split remove_interval add_interval
take_block b size h =
    let parts = split b size in
    let removed = remove_interval b h in
    if parts.has_remaining then add_interval parts.remaining removed else removed

unfoldable pub allocate : ℕ → ℕ → HeapFreeIntervals → Allocation
unfolding aligned_size find_fit_block take_block
allocate size address h =
    if size == 0
    then record { code = failed_memory_allocation; address = address; intervals = h }
    else elim (find_fit_block (aligned_size h.alignment size) h) [
      | none ↦ record { code = failed_memory_allocation; address = address; intervals = h }
      | some b ↦ record {
        code = no_error;
        address = b.start;
        intervals = take_block b (aligned_size h.alignment size) h;
      }
    ]

-- The loop of RebuildSizeIndex.
unfoldable pub index_blocks : List HeapFreeInterval → HeapFreeIntervals → HeapFreeIntervals
unfolding index_block
index_blocks [] h = h
index_blocks (b ∷ bs) h = index_blocks bs (index_block b h)

unfoldable pub rebuild_size_index : HeapFreeIntervals → HeapFreeIntervals
unfolding index_blocks
rebuild_size_index h = index_blocks h.free_intervals_by_addr (record h {
  free_intervals_by_size = λ size. none;
  min_block_size = 2 ^ 64 - 1;
  max_block_size = 0;
})

-- Coalesce
unfoldable pub coalesce_intervals : HeapFreeIntervals → HeapFreeIntervals
unfolding rebuild_size_index coalesce can_merge_with merge_with
coalesce_intervals h = rebuild_size_index (record h {
  free_intervals_by_addr = coalesce can_merge_with merge_with h.free_intervals_by_addr;
})

unfoldable pub free : ℕ → ℕ → HeapFreeIntervals → ErrorCode × HeapFreeIntervals
unfolding aligned_size add_interval coalesce_intervals
free address size h =
    let end = sub64 (u64 (address + aligned_size h.alignment size)) 1 in
    if size == 0
    then (failed_memory_freeing, h)
    else if ltb end address
    then (failed_memory_freeing, h)
    else (no_error, coalesce_intervals (add_interval (interval address end) h))

-- Set, and the constructor that takes the ends of the heap.
unfoldable pub set_heap : ℕ → ℕ → ℕ → HeapFreeIntervals → HeapFreeIntervals
unfolding add_interval
set_heap heap_start heap_end align h =
    add_interval (interval heap_start heap_end) (record h { alignment = align })

-- AllocateAligned on the block `b`: `none` where the block does not fit.
unfoldable pub aligned_start : ℕ → HeapFreeInterval → ℕ
aligned_start alignment b = u64 (sub64 (u64 (b.start + alignment)) 1 / alignment * alignment)

unfoldable pub fits_aligned : ℕ → ℕ → HeapFreeInterval → Bool
unfolding aligned_start
fits_aligned alignment size b =
    leb (sub64 (u64 (aligned_start alignment b + size)) 1) b.end
    && leb (u64 (sub64 (aligned_start alignment b) b.start + size)) b.size

unfoldable pub take_aligned : ℕ → ℕ → HeapFreeInterval → HeapFreeIntervals → HeapFreeIntervals
unfolding aligned_start remove_interval add_interval coalesce_intervals
take_aligned alignment size b h =
    let at = aligned_start alignment b in
    let removed = remove_interval b h in
    let front =
      if ltb b.start at then add_interval (interval b.start (sub64 at 1)) removed else removed in
    let back =
      if ltb (sub64 (u64 (at + size)) 1) b.end
      then add_interval (interval (u64 (at + size)) b.end) front
      else front in
    coalesce_intervals back

-- The loop over the list by address.
unfoldable pub allocate_aligned_from :
    List HeapFreeInterval → ℕ → ℕ → ℕ → HeapFreeIntervals → Allocation
unfolding fits_aligned take_aligned
allocate_aligned_from [] alignment size address h = record {
  code = failed_memory_allocation;
  address = address;
  intervals = h;
}
allocate_aligned_from (b ∷ bs) alignment size address h =
    let rest = allocate_aligned_from bs alignment size address h in
    if fits_aligned alignment size b
    then record {
      code = no_error;
      address = aligned_start alignment b;
      intervals = take_aligned alignment size b h;
    }
    else rest

unfoldable pub allocate_aligned : ℕ → ℕ → ℕ → HeapFreeIntervals → Allocation
unfolding allocate_aligned_from
allocate_aligned size specific_alignment address h =
    if size == 0
    then record { code = failed_memory_allocation; address = address; intervals = h }
    else allocate_aligned_from h.free_intervals_by_addr
        (if ltb specific_alignment h.alignment then h.alignment else specific_alignment) size
        address h

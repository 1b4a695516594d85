-- ===== src/Vm/Interval.antt =====
-- HeapFreeInterval of MSLVM/include/mslvm/vm_memory.hpp: a block of free addresses, both ends
-- included. The fields are 64-bit words.
use malachite_scripting_lang.Prelude.{ℕ, ◌+◌, Bool, ltb, leb, ◌==◌, ◌&&◌, ◌||◌, if◌then◌else◌}
use malachite_scripting_lang.Vm.Definitions.{u64, sub64}

pub record HeapFreeInterval : Type 0 where
  pub start : ℕ
  pub end : ℕ
  pub size : ℕ

-- The constructor, with INTERVAL_SIZE.
abbrev pub interval : ℕ → ℕ → HeapFreeInterval
interval start end = record { start = start; end = end; size = u64 (sub64 end start + 1) }

abbrev pub contains : HeapFreeInterval → ℕ → Bool
contains b addr = leb b.start addr && leb addr b.end

unfoldable pub can_allocate : HeapFreeInterval → ℕ → Bool
can_allocate b alloc_size = leb alloc_size b.size

-- What Split writes and returns.
pub record SplitResult : Type 0 where
  pub allocated : HeapFreeInterval
  pub remaining : HeapFreeInterval
  pub has_remaining : Bool

unfoldable pub split : HeapFreeInterval → ℕ → SplitResult
split b alloc_size = record {
  allocated = interval b.start (sub64 (u64 (b.start + alloc_size)) 1);
  remaining =
      if leb b.size alloc_size then interval 0 0 else interval (u64 (b.start + alloc_size)) b.end;
  has_remaining = ltb alloc_size b.size;
}

unfoldable pub can_merge_with : HeapFreeInterval → HeapFreeInterval → Bool
can_merge_with b other = (u64 (b.end + 1) == other.start) || (u64 (other.end + 1) == b.start)

unfoldable pub merge_with : HeapFreeInterval → HeapFreeInterval → HeapFreeInterval
merge_with b other =
    interval (if ltb b.start other.start then b.start else other.start)
      (if ltb other.end b.end then b.end else other.end)

-- ===== src/Vm/Memory.antt =====
-- DynamicMemory of MSLVM/include/mslvm/vm_memory.hpp and MSLVM/source/memory/vm_memory.cpp: one
-- block of bytes with the code, the read-only data (ROD), the stack and the heap in this order.
-- Virtual addresses begin at the ROD; a native address is an index into the block.
pub mod Layout
pub mod Bytes
pub mod RoundTrip
pub mod Growth
pub mod Lifetime
use malachite_scripting_lang.Prelude.{
  ℕ, zero, suc, ◌+◌, ◌-◌, ◌*◌, ◌/◌, ◌%◌, ◌^◌, bit_and, bit_or, Bool, true, false, Option, none,
  some, List, length, get_or, ltb, leb, ◌==◌, not, ◌&&◌, ◌||◌, if◌then◌else◌,
}
use malachite_scripting_lang.Outcome.{Outcome, ok, undefined, ◌>>=◌}
use malachite_scripting_lang.Vm.Definitions.{
  u64, min_stack_size, min_heap_size, default_alignment, VmOperation, operation_code,
  operation_size,
}
use malachite_scripting_lang.Vm.Errors.{
  ErrorCode, no_error, failed_memory_allocation, failed_memory_freeing, attempt_of_rod_rewriting,
}

-- `m_pointer`: null, a block of so many bytes, or a block that was given back to `free`.
pub data Pointer : Type 0 where
  nullptr : Pointer
  block : ℕ → Pointer
  dangling : Pointer

pub record DynamicMemory : Type 0 where
  pub m_pointer : Pointer
  -- The bytes of the block.
  pub cell : ℕ → ℕ
  pub code_sa : ℕ
  pub rod_sa : ℕ
  pub stack_sa : ℕ
  pub heap_sa : ℕ
  pub size : ℕ
  pub end : ℕ
  pub code_size : ℕ
  pub rod_size : ℕ
  pub stack_size : ℕ
  pub heap_size : ℕ
  pub status : ErrorCode

-- `DynamicMemory() = default`; there is no block, and so `cell` has no meaning yet.
abbrev pub empty_memory : DynamicMemory
empty_memory = record {
  m_pointer = nullptr;
  cell = λ a. 0;
  code_sa = 0;
  rod_sa = 0;
  stack_sa = 0;
  heap_sa = 0;
  size = 0;
  end = 0;
  code_size = 0;
  rod_size = 0;
  stack_size = 0;
  heap_size = 0;
  status = no_error;
}

-- The bytes that `m_pointer` may be used for.
abbrev pub extent : Pointer → ℕ
extent nullptr = 0
extent (block n) = n
extent dangling = 0

abbrev pub is_null : Pointer → Bool
is_null nullptr = true
is_null (block n) = false
is_null dangling = false

-- `m_pointer[native]`
unfoldable pub load : DynamicMemory → ℕ → Outcome ℕ
load m native = if ltb native (extent m.m_pointer) then ok (m.cell native) else undefined

abbrev pub update : (ℕ → ℕ) → ℕ → ℕ → ℕ → ℕ
update f p v a = if a == p then v else f a

-- `m_pointer[native] = byte`
unfoldable pub store : DynamicMemory → ℕ → ℕ → Outcome DynamicMemory
store m native byte =
    if ltb native (extent m.m_pointer)
    then ok (record m { cell = update m.cell native byte })
    else undefined

unfoldable pub to_native : DynamicMemory → ℕ → ℕ
to_native m address = u64 (m.code_size + address)

abbrev pub no_errors : ErrorCode → Bool
no_errors no_error = true
no_errors _ = false

-- IsValid
unfoldable pub is_valid : DynamicMemory → Bool
is_valid m = not (is_null m.m_pointer) && no_errors m.status

unfoldable pub get_operations_count : DynamicMemory → ℕ
get_operations_count m = m.code_size / operation_size

unfoldable pub get_heap_end : DynamicMemory → ℕ
get_heap_end m = u64 (m.heap_sa + m.heap_size)

-- CheckIntervals; `end` is the last valid address + 1.
unfoldable pub check_intervals : ℕ → ℕ → ℕ → ℕ → Bool
check_intervals start end address size =
    if ltb address start
    then false
    else if leb end address
    then false
    else if ltb end (u64 (address + size))
    then false
    else true

-- VALID_MEMORY_ACCESS_SIZE
abbrev pub access_size : ℕ → ℕ
access_size size = if ltb 8 size then 8 else size

-- The loop of Read, from byte `i`, with `n` bytes left.
unfoldable pub read_loop : DynamicMemory → ℕ → ℕ → ℕ → ℕ → Outcome ℕ
unfolding load
read_loop m native zero i value = ok value
read_loop m native (suc n) i value = load m (u64 (native + i)) >>= λ byte.
    read_loop m native n (i + 1) (bit_or value (byte * 2 ^ (i * 8)))

unfoldable pub read : DynamicMemory → ℕ → ℕ → Outcome ℕ
unfolding read_loop to_native
read m address size = read_loop m (to_native m address) (access_size size) 0 0

unfoldable pub read_byte : DynamicMemory → ℕ → Outcome ℕ
unfolding load to_native
read_byte m address = load m (to_native m address)

-- The loop of Write.
unfoldable pub write_loop : DynamicMemory → ℕ → ℕ → ℕ → ℕ → Outcome DynamicMemory
unfolding store
write_loop m native value zero i = ok m
write_loop m native value (suc n) i =
    store m (u64 (native + i)) (bit_and (value / 2 ^ (i * 8)) 0xff) >>= λ m'.
    write_loop m' native value n (i + 1)

unfoldable pub write : DynamicMemory → ℕ → ℕ → ℕ → Outcome DynamicMemory
unfolding write_loop to_native
write m address value size =
    if ltb address m.stack_sa
    then ok (record m { status = attempt_of_rod_rewriting })
    else write_loop m (to_native m address) value (access_size size) 0

-- `memcpy(m_pointer + destination, m_pointer + source, size)`: the ranges lie in the block and do
-- not overlap, or the call has no meaning.
unfoldable pub copy_bytes : DynamicMemory → ℕ → ℕ → ℕ → Outcome DynamicMemory
copy_bytes m destination source size =
    if leb (destination + size) (extent m.m_pointer)
      && leb (source + size) (extent m.m_pointer)
      && (leb (destination + size) source || leb (source + size) destination)
    then ok (record m {
      cell = λ a.
          if leb destination a && ltb a (destination + size)
          then m.cell (source + (a - destination))
          else m.cell a;
    })
    else undefined

unfoldable pub copy : DynamicMemory → ℕ → ℕ → ℕ → Outcome DynamicMemory
unfolding copy_bytes to_native
copy m destination source size =
    if ltb destination m.stack_sa
    then ok (record m { status = attempt_of_rod_rewriting })
    else copy_bytes m (to_native m destination) (to_native m source) size

-- GetOperation: the 32 bytes at `index` in the code, little endian. An index that the code does not
-- have is read from what follows it.
unfoldable pub get_operation : DynamicMemory → ℕ → Outcome VmOperation
unfolding read_loop operation_code
get_operation m index = do
  let at = index * operation_size
  arg0 ← read_loop m at 8 0 0
  arg1 ← read_loop m (at + 8) 8 0 0
  arg2 ← read_loop m (at + 16) 8 0 0
  dsi ← read_loop m (at + 24) 4 0 0
  code ← load m (at + 28)
  ok (record { arg0 = arg0; arg1 = arg1; arg2 = arg2; dsi = dsi; code = operation_code code })

unfoldable pub align8 : ℕ → ℕ
align8 n = u64 (u64 (n + (default_alignment - 1)) / default_alignment * default_alignment)

-- Allocate; the first argument is what `malloc` gives: nothing, or a block with some contents.
unfoldable pub allocate : Option (ℕ → ℕ) → ℕ → ℕ → DynamicMemory → DynamicMemory
unfolding align8
allocate none code_size rod_size m = record m {
  size = u64 (align8 code_size + align8 rod_size + min_stack_size + min_heap_size);
  code_size = align8 code_size;
  rod_size = align8 rod_size;
  m_pointer = nullptr;
  status = failed_memory_allocation;
}
allocate (some fresh) code_size rod_size m =
    let code = align8 code_size in
    let rod = align8 rod_size in
    let total = u64 (code + rod + min_stack_size + min_heap_size) in
    record m {
      size = total;
      code_size = code;
      rod_size = rod;
      m_pointer = block total;
      cell = fresh;
      code_sa = 0;
      rod_sa = 0;
      stack_sa = rod;
      heap_sa = u64 (rod + min_stack_size);
      stack_size = min_stack_size;
      heap_size = min_heap_size;
      end = u64 (u64 (rod + min_stack_size) + min_heap_size);
    }

-- Free: the pointer keeps its value.
unfoldable pub free : DynamicMemory → Outcome DynamicMemory
free m = elim m.m_pointer [
  | nullptr ↦ ok (record m { status = failed_memory_freeing })
  | dangling ↦ undefined
  | block n ↦ ok (record m {
    m_pointer = dangling;
    code_sa = 0;
    rod_sa = 0;
    stack_sa = 0;
    heap_sa = 0;
    end = 0;
    size = 0;
    code_size = 0;
    rod_size = 0;
    stack_size = 0;
    heap_size = 0;
  })
]

-- The bytes of the new block of TransferData: the code and the ROD, the stack at its old place, the
-- heap behind the new stack, and what `malloc` left elsewhere.
unfoldable pub transferred : DynamicMemory → (ℕ → ℕ) → ℕ → ℕ → ℕ
unfolding to_native
transferred m fresh new_stack_size a =
    if leb (to_native m m.stack_sa + new_stack_size) a
      && ltb a (to_native m m.stack_sa + new_stack_size + m.heap_size)
    then m.cell (to_native m m.heap_sa + (a - (to_native m m.stack_sa + new_stack_size)))
    else if leb (to_native m m.stack_sa) a && ltb a (to_native m m.stack_sa + m.stack_size)
    then m.cell a
    else if ltb a (u64 (m.code_size + m.rod_size))
    then m.cell a
    else fresh a

-- TransferData; each `memcpy` must stay in both blocks.
unfoldable pub transfer_data : Option (ℕ → ℕ) → ℕ → ℕ → DynamicMemory → Outcome DynamicMemory
unfolding transferred to_native
transfer_data none new_stack_size new_heap_size m =
    ok (record m { status = failed_memory_allocation })
transfer_data (some fresh) new_stack_size new_heap_size m =
    let new_size = u64 (m.code_size + m.rod_size + new_stack_size + new_heap_size) in
    let old_size = extent m.m_pointer in
    let stack = to_native m m.stack_sa in
    if leb (u64 (m.code_size + m.rod_size)) old_size
      && leb (u64 (m.code_size + m.rod_size)) new_size
      && leb (stack + m.stack_size) old_size
      && leb (stack + m.stack_size) new_size
      && leb (to_native m m.heap_sa + m.heap_size) old_size
      && leb (stack + new_stack_size + m.heap_size) new_size
    then ok (record m {
      m_pointer = block new_size;
      cell = transferred m fresh new_stack_size;
      heap_sa = u64 (m.stack_sa + new_stack_size);
      stack_size = new_stack_size;
      heap_size = new_heap_size;
      size = new_size;
      end = u64 (u64 (m.stack_sa + new_stack_size) + new_heap_size);
    })
    else undefined

unfoldable pub increase_heap : Option (ℕ → ℕ) → DynamicMemory → Outcome DynamicMemory
unfolding transfer_data
increase_heap given m = transfer_data given m.stack_size (u64 (m.heap_size * 2)) m

-- `memset(m_pointer + native, 0, size)`
abbrev pub fill_zero : DynamicMemory → ℕ → ℕ → Outcome DynamicMemory
fill_zero m native size =
    if leb (native + size) (extent m.m_pointer)
    then ok (record m { cell = λ a. if leb native a && ltb a (native + size) then 0 else m.cell a })
    else undefined

unfoldable pub clear_dynamic_part : DynamicMemory → Outcome DynamicMemory
unfolding to_native
clear_dynamic_part m = fill_zero m (to_native m m.stack_sa) (u64 (m.stack_size + m.heap_size))

-- `memcpy` of `size` bytes from outside the block, where `available` bytes can be read.
abbrev pub load_bytes : DynamicMemory → ℕ → (ℕ → ℕ) → ℕ → ℕ → Outcome DynamicMemory
load_bytes m native bytes available size =
    if leb (native + size) (extent m.m_pointer) && leb size available
    then ok (record m {
      cell = λ a. if leb native a && ltb a (native + size) then bytes (a - native) else m.cell a;
    })
    else undefined

unfoldable pub load_code : (ℕ → ℕ) → ℕ → ℕ → DynamicMemory → Outcome DynamicMemory
load_code code_bytes available size m = load_bytes m m.code_sa code_bytes available size

unfoldable pub load_rod : (ℕ → ℕ) → ℕ → ℕ → DynamicMemory → Outcome DynamicMemory
unfolding to_native
load_rod rod_bytes available size m = load_bytes m (to_native m m.rod_sa) rod_bytes available size

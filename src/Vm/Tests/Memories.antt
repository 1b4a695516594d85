-- ===== src/Vm/Tests/Memories.antt =====
-- Reads and writes of the block of memory, and the stacks.
use malachite_scripting_lang.Prelude.{ℕ, ◌+◌, ◌*◌, ◌%◌, ◌^◌, ◌≡◌, refl, arith, some}
use malachite_scripting_lang.Outcome.{ok, ◌>>=◌}
use malachite_scripting_lang.Vm.Stack.{VmStack}
use malachite_scripting_lang.Vm.Memory.{DynamicMemory, read, write, increase_heap}
use malachite_scripting_lang.Vm.Memory.RoundTrip.{read-write}
use malachite_scripting_lang.Vm.Memory.Growth.{read-increase_heap}
use malachite_scripting_lang.Vm.Tests.Machine.{memory_of, memory_of-IsLaidOut, coded, coded-byte}

abbrev sample : DynamicMemory
sample = memory_of (coded 51 51)

abbrev zeros : ℕ → ℕ
zeros a = 0

-- Four bytes of a word come back, and the fifth is as before.
round_trip : (write sample 100 0x1_1234_5678 4 >>= λ m. read m 100 8) ≡ ok 0x1234_5678
unfolding write read
round_trip = refl

-- The ROD is not written: the status says so.
rod_kept : (write sample 4 1 1 >>= λ m. read m 4 1) ≡ ok 0
unfolding write read
rod_kept = refl

read-write_example : (write sample 100 700 2 >>= λ m'. read m' 100 2) ≡ ok (700 % 2 ^ (2 * 8))
read-write_example =
    read-write (memory_of-IsLaidOut (coded 51 51)) (coded-byte 51 51 (omega arith) (omega arith))
      100 700 2 (omega arith) (omega arith) (omega arith)

read-increase_heap_example :
    (increase_heap (some zeros) sample >>= λ m'. read m' 40000 8) ≡ read sample 40000 8
read-increase_heap_example =
    read-increase_heap (memory_of-IsLaidOut (coded 51 51)) zeros (omega arith) 40000 8
      (coded-byte 51 51 (omega arith) (omega arith)) (λ a. omega arith) (omega arith) (omega arith)

abbrev two_items : VmStack ℕ
two_items = record { m_data = λ i. i + 5; m_top = 2 }

-- ===== src/Vm/Memory/Lifetime.antt =====
-- Free, and what it leaves behind.
use malachite_scripting_lang.Prelude.{ℕ, ◌≡◌, true, arith}
use malachite_scripting_lang.Outcome.{ok, undefined, ◌>>=◌}
use malachite_scripting_lang.Vm.Errors.{no_error}
use malachite_scripting_lang.Vm.Memory.{
  block, DynamicMemory, is_valid, get_operations_count, free, read_byte,
}

-- A memory that holds a block is still valid after Free, though its pointer dangles: it has no
-- operations, every byte access is undefined, and so is a second Free.
pub free-leaves_valid :
    (m : DynamicMemory) (n address : ℕ)
    → m.m_pointer ≡ block n
    → m.status ≡ no_error
    → ((free m >>= λ m'. ok (is_valid m')) ≡ ok true)
      × ((free m >>= λ m'. ok (get_operations_count m')) ≡ ok 0)
      × ((free m >>= free) ≡ undefined)
      × ((free m >>= λ m'. read_byte m' address) ≡ undefined)
unfolding free is_valid get_operations_count read_byte
free-leaves_valid m n address e clean = ground (arith, e, clean)

-- ===== src/Vm/Flag.antt =====
-- MSLVM/include/mslvm/vm_definitions.hpp: the bits of the flags register.
use malachite_scripting_lang.Prelude.{ℕ}

abbrev pub zero : ℕ
zero = 1

abbrev pub greater : ℕ
greater = 2

abbrev pub less : ℕ
less = 4

abbrev pub jumped : ℕ
jumped = 8

abbrev pub stopped : ℕ
stopped = 16

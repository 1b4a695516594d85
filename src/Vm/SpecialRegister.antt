-- ===== src/Vm/SpecialRegister.antt =====
-- MSLVM/include/mslvm/vm_definitions.hpp: the registers with a meaning of their own.
use malachite_scripting_lang.Prelude.{ℕ}

abbrev pub sp : ℕ
sp = 120

abbrev pub fp : ℕ
fp = 121

abbrev pub ip : ℕ
ip = 122

abbrev pub fl : ℕ
fl = 123

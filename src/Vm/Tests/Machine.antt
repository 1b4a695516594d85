-- ===== src/Vm/Tests/Machine.antt =====
-- The machine of the tests: 64 bytes of code, 8 of ROD, and the standard stack and heap.
use malachite_scripting_lang.Prelude.{
  ℕ, ◌+◌, ◌-◌, ◌*◌, ◌<◌, refl, arith, ltb, ◌==◌, if◌then◌else◌, some,
}
use malachite_scripting_lang.Vm.Definitions.{VmOperation, VmOperationCode}
use malachite_scripting_lang.Vm.Errors.{no_error}
use malachite_scripting_lang.Vm.Reals.{Reals}
use malachite_scripting_lang.Vm.Memory.{DynamicMemory, block}
use malachite_scripting_lang.Vm.Memory.Layout.{IsLaidOut, HoldsBytes}
use malachite_scripting_lang.Vm.State.{VmState, initial_state}

-- Arithmetic of whole numbers in place of that of `double`.
abbrev pub whole_reals : Reals
whole_reals = record {
  add = λ a b. a + b;
  sub = λ a b. a - b;
  mul = λ a b. a * b;
  div = λ a b. a;
  neg = λ a. a;
  eq = λ a b. a == b;
  gt = λ a b. ltb b a;
  is_zero = λ a. a == 0;
  of_integer = λ a. a;
  of_unsigned = λ a. a;
  to_integer = λ a. some a;
  to_unsigned = λ a. some a;
}

-- A memory whose first operations have these codes, and arguments 0.
abbrev pub coded : ℕ → ℕ → ℕ → ℕ
coded first second a = if a == 28 then first else if a == 60 then second else 0

abbrev pub memory_of : (ℕ → ℕ) → DynamicMemory
memory_of cell = record {
  m_pointer = block 65606;
  cell = cell;
  code_sa = 0;
  rod_sa = 0;
  stack_sa = 8;
  heap_sa = 32775;
  size = 65606;
  end = 65542;
  code_size = 64;
  rod_size = 8;
  stack_size = 32767;
  heap_size = 32767;
  status = no_error;
}

pub memory_of-IsLaidOut : (cell : ℕ → ℕ) → IsLaidOut (memory_of cell)
memory_of-IsLaidOut cell = record {
  owned = refl;
  whole = refl;
  small = omega arith;
  code_first = refl;
  rod_first = refl;
  stack_next = refl;
  heap_next = refl;
  ends = refl;
}

-- Register 1 holds 700, register 2 is where the second test puts its address, SP and FP are 8.
abbrev pub registers_of : ℕ → ℕ → ℕ
registers_of second r =
    if r == 1
    then 700
    else if r == 2
    then second
    else if r == 120
    then 8
    else if r == 121
    then 8
    else 0

abbrev pub machine_of : (ℕ → ℕ) → ℕ → VmState
machine_of cell second = record initial_state {
  memory = memory_of cell;
  registers = registers_of second;
}

-- A machine at two HALTs.
abbrev pub machine : VmState
machine = machine_of (coded 51 51) 0

pub coded-byte :
    (first second : ℕ) → first < 256 → second < 256 → HoldsBytes (memory_of (coded first second))
coded-byte first second p q a = ground arith

abbrev pub operation_of : ℕ → ℕ → ℕ → VmOperationCode → VmOperation
operation_of a b c code = record { arg0 = a; arg1 = b; arg2 = c; dsi = 0; code = code }

-- ===== src/Vm/Tests/Instructions.antt =====
-- Single instructions of the machine.
use malachite_scripting_lang.Prelude.{ℕ, ◌-◌, ◌*◌, ◌%◌, ◌^◌, ◌≡◌, ◌≢◌, refl, arith, bit_or, inl}
use malachite_scripting_lang.Prelude.Int.{signed64, ◌*ℤ◌, ◌+ℤ◌}
use malachite_scripting_lang.Outcome.{ok, undefined, ◌>>=◌, Returns, Returned}
use malachite_scripting_lang.Vm.Definitions.{VmOperation, nop}
use malachite_scripting_lang.Vm.SpecialRegister
use malachite_scripting_lang.Vm.Flag
use malachite_scripting_lang.Vm.State.{VmState}
use malachite_scripting_lang.Vm.Instruction.Arithmetic.{
  add_integer, div_integer, mod_integer, add_unsigned,
}
use malachite_scripting_lang.Vm.Instruction.Arithmetic.Signed.{
  add_integer-wraps, div_integer-mod_integer,
}
use malachite_scripting_lang.Vm.Instruction.Access.{
  push, pop, load_absolute, load_local, store_local, load_by_address,
}
use malachite_scripting_lang.Vm.Instruction.Access.RoundTrip.{pop-push_register}
use malachite_scripting_lang.Vm.Instruction.Access.Inside.{IsDefined, accesses-IsDefined}
use malachite_scripting_lang.Vm.Instruction.Access.Outside.{load_by_address-wraps}
use malachite_scripting_lang.Vm.Instruction.Control.{call, ret}
use malachite_scripting_lang.Vm.Instruction.Control.RoundTrip.{ret-call}
use malachite_scripting_lang.Vm.Tests.Machine.{
  machine, machine_of, memory_of-IsLaidOut, coded, coded-byte, operation_of,
}

-- The minimum of `int64_t` divided by -1 has no meaning, and the machine guards only against 0.
overflow : div_integer (2 ^ 63) (2 ^ 64 - 1) ≡ undefined
unfolding div_integer
overflow = refl

div_integer-mod_integer_example :
    Returns
      (λ q.
        Returns
          (λ r. (signed64 q *ℤ signed64 3) +ℤ signed64 r ≡ signed64 (2 ^ 64 - 7))
          (mod_integer (2 ^ 64 - 7) 3))
      (div_integer (2 ^ 64 - 7) 3)
div_integer-mod_integer_example =
    div_integer-mod_integer (2 ^ 64 - 7) 3 (omega arith) (omega arith) (omega arith)
      (inl (omega arith))

add_integer-wraps_example :
    Returned (λ w. add_unsigned 5 (2 ^ 64 - 7) ≡ ok w) (add_integer 5 (2 ^ 64 - 7))
add_integer-wraps_example = add_integer-wraps 5 (2 ^ 64 - 7) (omega arith) (omega arith)

abbrev one_zero : VmOperation
one_zero = operation_of 1 0 0 nop

abbrev push_two : VmOperation
push_two = operation_of 1 2 0 nop

abbrev pop_two : VmOperation
pop_two = operation_of 3 2 0 nop

-- The value goes through the stack.
pushes : (push push_two machine >>= pop pop_two >>= λ s. ok (s.registers 3)) ≡ ok 700
unfolding push pop
pushes = refl

pop-push_register_example :
    Returns
      (λ s'. (s'.registers 3 ≡ 700 % 2 ^ (2 * 8)) × (s'.registers SpecialRegister.sp ≡ 8))
      (push push_two machine >>= pop pop_two)
pop-push_register_example =
    pop-push_register machine (memory_of-IsLaidOut (coded 51 51))
      (coded-byte 51 51 (omega arith) (omega arith)) push_two pop_two (omega arith) (omega arith)
      (omega arith) refl (omega arith) (omega arith) (omega arith) (omega arith)

abbrev store_it : VmOperation
store_it = operation_of 1 16 8 nop

abbrev load_it : VmOperation
load_it = operation_of 4 16 8 nop

-- An access to 8 bytes at offset 1000, and one at the address in register 65.
abbrev at_offset : VmOperation
at_offset = operation_of 3 1000 8 nop

abbrev at_register : VmOperation
at_register = operation_of 3 65 8 nop

accesses-IsDefined_example :
    IsDefined (push pop_two machine)
    × IsDefined (pop pop_two machine)
    × IsDefined (load_absolute at_offset machine)
    × IsDefined (load_local at_offset machine)
    × IsDefined (store_local at_offset machine)
    × IsDefined (load_by_address at_register machine)
accesses-IsDefined_example =
    accesses-IsDefined machine (memory_of-IsLaidOut (coded 51 51))
      (coded-byte 51 51 (omega arith) (omega arith)) pop_two at_offset at_register (omega arith)
      (omega arith) (omega arith) (omega arith) (omega arith) (omega arith) (omega arith)
      (omega arith)

-- Register 2 holds the last address of the memory.
abbrev at_end : VmState
at_end = machine_of (coded 51 51) 65541

load_by_address-wraps_example :
    load_by_address (operation_of 3 2 (2 ^ 64 - 1) nop) at_end ≡ undefined
load_by_address-wraps_example =
    load_by_address-wraps (operation_of 3 2 (2 ^ 64 - 1) nop) at_end
      (memory_of-IsLaidOut (coded 51 51)) (omega arith) (omega arith) (omega arith) (omega arith)
      (omega arith) (omega arith)

-- Register 2 holds -36: the native address is 28, the code byte of the first operation.
abbrev at_code : VmState
at_code = machine_of (coded 51 51) (2 ^ 64 - 36)

ret-call_example :
    Returns
      (λ s'.
        ((r : ℕ) → r ≢ SpecialRegister.fl → s'.registers r ≡ machine.registers r)
        × (s'.registers SpecialRegister.fl
            ≡ bit_or (machine.registers SpecialRegister.fl) Flag.jumped)
        × (s'.memory ≡ machine.memory)
        × (s'.call_stack.m_top ≡ machine.call_stack.m_top)
        × (s'.error_stack ≡ machine.error_stack))
      (call one_zero machine >>= ret one_zero)
ret-call_example = ret-call one_zero one_zero machine (omega arith)

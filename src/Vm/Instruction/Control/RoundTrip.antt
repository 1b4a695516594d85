-- ===== src/Vm/Instruction/Control/RoundTrip.antt =====
-- CALL and RET: a return brings back what the call saved.
use malachite_scripting_lang.Prelude.{
  ℕ, ◌+◌, ◌-◌, ◌<◌, ◌≡◌, ◌≢◌, refl, false, arith, leb, ◌==◌, bit_or, ==_self,
}
use malachite_scripting_lang.Outcome.{◌>>=◌, Returns}
use malachite_scripting_lang.Vm.Definitions.{VmOperation, call_stack_size}
use malachite_scripting_lang.Vm.SpecialRegister
use malachite_scripting_lang.Vm.Flag
use malachite_scripting_lang.Vm.Stack
use malachite_scripting_lang.Vm.State.{VmState}
use malachite_scripting_lang.Vm.Instruction.Control.{call, ret, jump_to}

-- CALL and then RET, where the call stack has room: each register but FL holds what it held, among
-- them SP, FP and IP; FL has JUMPED set; the memory, the number of frames and the errors are as
-- before.
pub ret-call :
    (o o' : VmOperation) (s : VmState)
    → s.call_stack.m_top < call_stack_size
    → Returns
        (λ s'.
          ((r : ℕ) → r ≢ SpecialRegister.fl → s'.registers r ≡ s.registers r)
          × (s'.registers SpecialRegister.fl ≡ bit_or (s.registers SpecialRegister.fl) Flag.jumped)
          × (s'.memory ≡ s.memory)
          × (s'.call_stack.m_top ≡ s.call_stack.m_top)
          × (s'.error_stack ≡ s.error_stack))
        (call o s >>= ret o')
unfolding call ret jump_to Stack.size Stack.push Stack.empty Stack.pop
ret-call o o' s room =
    let free : leb call_stack_size s.call_stack.m_top ≡ false = ground arith in
    let pushed : (s.call_stack.m_top + 1 == 0) ≡ false = ground arith in
    let back : s.call_stack.m_top + 1 - 1 ≡ s.call_stack.m_top = omega arith in
    rw (free, pushed, back, ==_self s.call_stack.m_top)
      (λ r ne. ground arith, refl, refl, refl, refl)

-- ===== src/Vm/Instruction/Control.antt =====
-- Jumps, calls and the halt of `execute_code_switch`.
pub mod RoundTrip
use malachite_scripting_lang.Prelude.{ℕ, leb, ◌==◌, if◌then◌else◌}
use malachite_scripting_lang.Outcome.{Outcome, ok, ◌>>=◌}
use malachite_scripting_lang.Vm.Definitions.{VmOperation, call_stack_size}
use malachite_scripting_lang.Vm.SpecialRegister
use malachite_scripting_lang.Vm.Flag
use malachite_scripting_lang.Vm.Errors.{stack_overflow, stack_underflow}
use malachite_scripting_lang.Vm.Stack
use malachite_scripting_lang.Vm.State.{VmState, CallFrame, put, register, set_flags, raise}

-- `IP = where; FL |= JUMPED`
unfoldable pub jump_to : ℕ → VmState → VmState
jump_to place s = set_flags Flag.jumped (put s SpecialRegister.ip place)

unfoldable pub jmp : VmOperation → VmState → Outcome VmState
unfolding jump_to
jmp o s = ok (jump_to o.arg0 s)

unfoldable pub jmp_cv : VmOperation → VmState → Outcome VmState
unfolding jump_to
jmp_cv o s = do condition ← register o.arg1 s; ok (if condition == 0 then s else jump_to o.arg0 s)

unfoldable pub jmp_cnv : VmOperation → VmState → Outcome VmState
unfolding jump_to
jmp_cnv o s = do condition ← register o.arg1 s; ok (if condition == 0 then jump_to o.arg0 s else s)

abbrev pub current_frame : VmState → CallFrame
current_frame s = record {
  sp = s.registers SpecialRegister.sp;
  fp = s.registers SpecialRegister.fp;
  ip = s.registers SpecialRegister.ip;
}

unfoldable pub call : VmOperation → VmState → Outcome VmState
unfolding raise jump_to Stack.size Stack.push
call o s = if leb call_stack_size (Stack.size s.call_stack) then raise stack_overflow s else do
  frames ← Stack.push call_stack_size (current_frame s) s.call_stack
  let pushed = record s { call_stack = frames }
  ok (jump_to o.arg0 (put pushed SpecialRegister.fp (pushed.registers SpecialRegister.sp)))

-- JUMPED stays as it is: the call instruction is to be skipped.
unfoldable pub ret : VmOperation → VmState → Outcome VmState
unfolding raise Stack.empty Stack.pop
ret o s = if Stack.empty s.call_stack then raise stack_underflow s else do
  (cf, frames) ← Stack.pop s.call_stack
  let popped = record s { call_stack = frames }
  ok (
      put (put (put popped SpecialRegister.sp cf.sp) SpecialRegister.fp cf.fp) SpecialRegister.ip
        cf.ip)

unfoldable pub halt : VmOperation → VmState → Outcome VmState
halt o s = ok (set_flags Flag.stopped s)

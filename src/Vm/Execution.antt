-- ===== src/Vm/Execution.antt =====
-- MSLVM/source/execution/vm_execution.cpp: the switch over the operation codes, one round of the
-- loop, the loop, and the reset before a run.
pub mod Behaves
pub mod Operations
pub mod Rounds
pub mod Reset
pub mod Stops
use malachite_scripting_lang.Prelude.{
  ℕ, zero, suc, ◌+◌, Bool, true, false, Option, none, some, ltb, if◌then◌else◌,
}
use malachite_scripting_lang.Outcome.{Outcome, ok, ◌>>=◌}
use malachite_scripting_lang.Vm.Definitions.{
  VmOperationCode, VmOperation, u64, sub64, default_alignment, nop, add_rrr_real, sub_rrr_real,
  div_rrr_real, mul_rrr_real, neg_rr_real, add_rrr_integer, sub_rrr_integer, div_rrr_integer,
  mul_rrr_integer, neg_rr_integer, mod_rrr_integer, add_rrr_unsigned, sub_rrr_unsigned,
  div_rrr_unsigned, mul_rrr_unsigned, mod_rrr_unsigned, and_rrr, or_rrr, not_rr, bit_or_rrr,
  bit_not_rr, bit_and_rrr, bit_offset_left_rrr, bit_offset_right_rrr, cmp_rr_integer,
  cmp_rr_unsigned, cmp_rr_real, vm_call, tc_itr_r, tc_rti_r, tc_utr_r, tc_uti_r, tc_rtu_r, tc_itu_r,
}
use malachite_scripting_lang.Vm.SpecialRegister
use malachite_scripting_lang.Vm.Flag
use malachite_scripting_lang.Vm.Errors.{invalid_vm_memory}
use malachite_scripting_lang.Vm.Reals.{Reals}
use malachite_scripting_lang.Vm.Stack
use malachite_scripting_lang.Vm.Memory
use malachite_scripting_lang.Vm.Memory.{
  no_errors, is_valid, get_operation, get_operations_count, get_heap_end,
}
use malachite_scripting_lang.Vm.Heap.{set_heap}
use malachite_scripting_lang.Vm.State.{VmState, put, raise, clear_flags, has_flags}
use malachite_scripting_lang.Vm.Instruction.Arithmetic.{
  rrr, rr, rrr_div, is_zero_word, add_unsigned, sub_unsigned, mul_unsigned, div_unsigned,
  mod_unsigned, add_integer, sub_integer, mul_integer, div_integer, mod_integer, neg_integer,
  add_real, sub_real, mul_real, div_real, neg_real,
}
use malachite_scripting_lang.Vm.Instruction.Logic.{
  and_words, or_words, not_word, bit_and_words, bit_or_words, bit_not_word, offset_left,
  offset_right,
}
use malachite_scripting_lang.Vm.Instruction.Compare.{cmp_unsigned, cmp_integer, cmp_real, get_flag}
use malachite_scripting_lang.Vm.Instruction.Access
use malachite_scripting_lang.Vm.Instruction.Blocks
use malachite_scripting_lang.Vm.Instruction.Control
use malachite_scripting_lang.Vm.Instruction.Calls.{
  handle_vm_call, convert, same_word, integer_to_real, unsigned_to_real, real_to_integer,
  real_to_unsigned,
}

-- `clear_vm_state`
unfoldable pub clear_vm_state : Bool → VmState → Outcome VmState
unfolding Stack.clear Memory.clear_dynamic_part set_heap get_heap_end
clear_vm_state clear_memory s =
    let registers : ℕ → ℕ = λ r. 0 in
    let cleared = record s {
      call_stack = Stack.clear s.call_stack;
      error_stack = Stack.clear s.error_stack;
      registers = registers;
    } in
    let pointed = put (put cleared SpecialRegister.sp s.memory.stack_sa) SpecialRegister.fp 0 in
    (if clear_memory then Memory.clear_dynamic_part s.memory else ok s.memory) >>= λ m.
    ok (record pointed {
      memory = m;
      hfi = set_heap m.heap_sa (get_heap_end m) default_alignment s.hfi;
    })

-- What a round of the loop ends with: the next test of its condition, or a `break`.
pub data Turn : Type 0 where
  again : VmState → Turn
  break : VmState → Turn

-- The end of a round, behind the switch.
unfoldable pub finish_round : VmState → Turn
finish_round s =
    if has_flags Flag.jumped s
    then again s
    else if has_flags Flag.stopped s
    then break s
    else again (put s SpecialRegister.ip (u64 (s.registers SpecialRegister.ip + 1)))

-- The status of the memory is raised at the previous instruction.
unfoldable pub report_status : VmState → Outcome VmState
unfolding raise
report_status s = if no_errors s.memory.status then ok s else do
  let ip = s.registers SpecialRegister.ip
  raised ← raise s.memory.status (put s SpecialRegister.ip (sub64 ip 1))
  ok (put raised SpecialRegister.ip (u64 (raised.registers SpecialRegister.ip + 1)))

module _ (reals : Reals) where
  -- The switch. LOAD_CONST_LOCAL and LOAD_CONST_BY_ADDRESS have no case, nor has NOP.
  unfoldable pub execute_operation : VmOperationCode → VmOperation → VmState → Outcome VmState
  execute_operation add_rrr_real o s = rrr (add_real reals) o s
  execute_operation add_rrr_unsigned o s = rrr add_unsigned o s
  execute_operation add_rrr_integer o s = rrr add_integer o s
  execute_operation sub_rrr_real o s = rrr (sub_real reals) o s
  execute_operation sub_rrr_unsigned o s = rrr sub_unsigned o s
  execute_operation sub_rrr_integer o s = rrr sub_integer o s
  execute_operation mul_rrr_real o s = rrr (mul_real reals) o s
  execute_operation mul_rrr_unsigned o s = rrr mul_unsigned o s
  execute_operation mul_rrr_integer o s = rrr mul_integer o s
  execute_operation div_rrr_real o s = rrr_div reals.is_zero (div_real reals) o s
  execute_operation div_rrr_unsigned o s = rrr_div is_zero_word div_unsigned o s
  execute_operation div_rrr_integer o s = rrr_div is_zero_word div_integer o s
  execute_operation neg_rr_real o s = rr (neg_real reals) o s
  execute_operation neg_rr_integer o s = rr neg_integer o s
  execute_operation mod_rrr_unsigned o s = rrr_div is_zero_word mod_unsigned o s
  execute_operation mod_rrr_integer o s = rrr_div is_zero_word mod_integer o s
  execute_operation and_rrr o s = rrr and_words o s
  execute_operation or_rrr o s = rrr or_words o s
  execute_operation not_rr o s = rr not_word o s
  execute_operation bit_and_rrr o s = rrr bit_and_words o s
  execute_operation bit_or_rrr o s = rrr bit_or_words o s
  execute_operation bit_not_rr o s = rr bit_not_word o s
  execute_operation bit_offset_left_rrr o s = rrr offset_left o s
  execute_operation bit_offset_right_rrr o s = rrr offset_right o s
  execute_operation cmp_rr_integer o s = cmp_integer o s
  execute_operation cmp_rr_unsigned o s = cmp_unsigned o s
  execute_operation cmp_rr_real o s = cmp_real reals o s
  execute_operation VmOperationCode.get_flag o s = get_flag o s
  execute_operation VmOperationCode.mov_rr o s = Access.mov_rr o s
  execute_operation VmOperationCode.mov_ri o s = Access.mov_ri o s
  execute_operation VmOperationCode.push o s = Access.push o s
  execute_operation VmOperationCode.pop o s = Access.pop o s
  execute_operation VmOperationCode.load_absolute o s = Access.load_absolute o s
  execute_operation VmOperationCode.load_local o s = Access.load_local o s
  execute_operation VmOperationCode.store_local o s = Access.store_local o s
  execute_operation VmOperationCode.load_by_address o s = Access.load_by_address o s
  execute_operation VmOperationCode.store_by_address o s = Access.store_by_address o s
  execute_operation VmOperationCode.calc_frame_address o s = Access.calc_frame_address o s
  execute_operation VmOperationCode.allocate_memory o s = Blocks.allocate_memory o s
  execute_operation VmOperationCode.free_memory o s = Blocks.free_memory o s
  execute_operation VmOperationCode.static_copy o s = Blocks.static_copy o s
  execute_operation VmOperationCode.dynamic_copy o s = Blocks.dynamic_copy o s
  execute_operation VmOperationCode.grab_frame o s = Blocks.grab_frame o s
  execute_operation VmOperationCode.jmp o s = Control.jmp o s
  execute_operation VmOperationCode.jmp_cv o s = Control.jmp_cv o s
  execute_operation VmOperationCode.jmp_cnv o s = Control.jmp_cnv o s
  execute_operation VmOperationCode.call o s = Control.call o s
  execute_operation VmOperationCode.ret o s = Control.ret o s
  execute_operation VmOperationCode.halt o s = Control.halt o s
  execute_operation vm_call o s = handle_vm_call o s
  execute_operation tc_itr_r o s = convert (integer_to_real reals) o s
  execute_operation tc_rti_r o s = convert (real_to_integer reals) o s
  execute_operation tc_utr_r o s = convert (unsigned_to_real reals) o s
  execute_operation tc_uti_r o s = convert same_word o s
  execute_operation tc_rtu_r o s = convert (real_to_unsigned reals) o s
  execute_operation tc_itu_r o s = convert same_word o s
  execute_operation _ o s = ok s

  unfoldable pub execute_round : VmState → Outcome Turn
  unfolding report_status execute_operation finish_round get_operation
  execute_round s = do
    let landed = if has_flags Flag.jumped s then clear_flags Flag.jumped s else s
    reported ← report_status landed
    if has_flags Flag.stopped reported then ok (break reported) else do
      operation ← get_operation reported.memory (reported.registers SpecialRegister.ip)
      executed ← execute_operation operation.code operation reported
      ok (finish_round executed)

  -- The loop, at most `fuel` rounds of it; `none` means that the program was still running.
  unfoldable pub execute_loop : ℕ → VmState → Outcome (Option VmState)
  unfolding execute_round get_operations_count
  execute_loop zero s =
      if ltb (s.registers SpecialRegister.ip) (get_operations_count s.memory)
      then ok none
      else ok (some s)
  execute_loop (suc fuel) s =
      elim (ltb (s.registers SpecialRegister.ip) (get_operations_count s.memory)) [
        | false ↦ ok (some s)
        | true ↦ execute_round s >>= λ turn. elim turn [
          | again s' ↦ execute_loop fuel s'
          | break s' ↦ ok (some s')
        ]
      ]

  unfoldable pub execute_code_switch : ℕ → VmState → Outcome (Option VmState)
  unfolding is_valid raise execute_loop
  execute_code_switch fuel s =
      if is_valid s.memory
      then execute_loop fuel s
      else raise invalid_vm_memory s >>= λ raised. ok (some raised)

-- ===== src/Vm/Execution/Operations.antt =====
-- No operation of the switch changes the layout of the memory, overfills the call stack or adds more
-- than two errors, and none throws while the error stack has room for two.
pub mod Registers
pub mod Memories
pub mod Blocks
use malachite_scripting_lang.Prelude.{
  ℕ, zero, suc, ◌+◌, ◌-◌, ◌^◌, ◌≤◌, ◌<◌, ◌≡◌, refl, ap, sym, ◌∙◌, Bool, true, false, arith, ltb,
  leb, ◌==◌, ◌||◌, ◌&&◌, if◌then◌else◌, Bool-cases, inl, inr, Option, none, some, bit_or, bit_and,
}
use malachite_scripting_lang.Prelude.Int.{ℤ, signed64, quot, rem, word_of}
use malachite_scripting_lang.Outcome.{Outcome, ok, throws, undefined, ◌>>=◌, defined}
use malachite_scripting_lang.Vm.Definitions.{
  VmOperation, VmOperationCode, call_stack_size, u64, sub64, nop, add_rrr_real, sub_rrr_real,
  div_rrr_real, mul_rrr_real, neg_rr_real, add_rrr_integer, sub_rrr_integer, div_rrr_integer,
  mul_rrr_integer, neg_rr_integer, mod_rrr_integer, add_rrr_unsigned, sub_rrr_unsigned,
  div_rrr_unsigned, mul_rrr_unsigned, mod_rrr_unsigned, and_rrr, or_rrr, not_rr, bit_or_rrr,
  bit_not_rr, bit_and_rrr, bit_offset_left_rrr, bit_offset_right_rrr, cmp_rr_integer,
  cmp_rr_unsigned, cmp_rr_real, vm_call, tc_itr_r, tc_rti_r, tc_utr_r, tc_uti_r, tc_rtu_r, tc_itu_r,
}
use malachite_scripting_lang.Vm.SpecialRegister
use malachite_scripting_lang.Vm.Flag
use malachite_scripting_lang.Vm.Errors.{
  ErrorCode, no_error, zero_division, nan_value, inf_value, stack_overflow, stack_underflow,
  invalid_memory_access, failed_memory_allocation, failed_memory_freeing, frame_expansion_failed,
}
use malachite_scripting_lang.Vm.Reals.{Reals}
use malachite_scripting_lang.Vm.Stack
use malachite_scripting_lang.Vm.Stack.{VmStack}
use malachite_scripting_lang.Vm.Memory
use malachite_scripting_lang.Vm.Memory.{
  DynamicMemory, no_errors, check_intervals, copy_bytes, store, write_loop, extent, load, read_loop,
}
use malachite_scripting_lang.Vm.State.{
  VmState, CallFrame, put, register, set_register, raise, set_flags, clear_flags,
}
use malachite_scripting_lang.Vm.Instruction.Access
use malachite_scripting_lang.Vm.Execution.{execute_operation}
use malachite_scripting_lang.Vm.Execution.Behaves.{
  Behaves, Follows, Quiet, frame, Follows-refl, Follows-if, Follows-put, Behaves-more, Behaves-then,
  Behaves-after, Behaves-if, Behaves-register, Behaves-set_register, raise-Behaves, register-Quiet,
}
use malachite_scripting_lang.Vm.Instruction.Arithmetic.{
  rrr, rr, rrr_div, is_zero_word, add_unsigned, sub_unsigned, mul_unsigned, div_unsigned,
  mod_unsigned, add_integer, sub_integer, mul_integer, div_integer, mod_integer, neg_integer,
  add_real, sub_real, mul_real, div_real, neg_real,
}
use malachite_scripting_lang.Vm.Instruction.Logic.{
  and_words, or_words, not_word, bit_and_words, bit_or_words, bit_not_word, offset_left,
  offset_right,
}
use malachite_scripting_lang.Vm.Instruction.Compare.{cmp_unsigned, cmp_integer, cmp_real, get_flag}
use malachite_scripting_lang.Vm.Instruction.Calls.{
  handle_vm_call, convert, same_word, integer_to_real, unsigned_to_real, real_to_integer,
  real_to_unsigned,
}
use malachite_scripting_lang.Vm.Execution.Operations.Registers.{
  writes, reads, rrr-Behaves, rr-Behaves, rrr_div-Behaves, convert-Behaves, defined-Quiet,
  add_integer-Quiet, sub_integer-Quiet, mul_integer-Quiet, div_integer-Quiet, mod_integer-Quiet,
  offset_left-Quiet, offset_right-Quiet, neg_integer-Quiet, cmp_unsigned-Behaves,
  cmp_integer-Behaves, cmp_real-Behaves, get_flag-Behaves,
}
use malachite_scripting_lang.Vm.Execution.Operations.Memories.{
  push-Behaves, pop-Behaves, load_absolute-Behaves, load_local-Behaves, store_local-Behaves,
  load_by_address-Behaves, store_by_address-Behaves,
}
use malachite_scripting_lang.Vm.Execution.Operations.Blocks.{
  allocate_memory-Behaves, free_memory-Behaves, static_copy-Behaves, dynamic_copy-Behaves,
  grab_frame-Behaves, jmp-Behaves, jmp_cv-Behaves, jmp_cnv-Behaves, call-Behaves, ret-Behaves,
  halt-Behaves, handle_vm_call-Behaves,
}

module _ (reals : Reals) (s : VmState) (o : VmOperation) where
  -- Each operation of the switch, whatever it is: the layout of the memory is as before, the call
  -- stack keeps to its 256 frames, and at most two errors are added; it throws only where the
  -- error stack has no room for two more.
  pub execute_operation-Behaves :
      (code : VmOperationCode) → Behaves 2 s (execute_operation reals code o s)
  unfolding execute_operation add_real sub_real mul_real div_real neg_real add_unsigned sub_unsigned
      mul_unsigned div_unsigned mod_unsigned and_words or_words not_word bit_and_words bit_or_words
      bit_not_word integer_to_real unsigned_to_real real_to_integer real_to_unsigned same_word
      Access.mov_rr Access.mov_ri Access.calc_frame_address
  execute_operation-Behaves add_rrr_real = rrr-Behaves 2 s (add_real reals) o (λ a b. tt)
  execute_operation-Behaves add_rrr_unsigned = rrr-Behaves 2 s add_unsigned o (λ a b. tt)
  execute_operation-Behaves add_rrr_integer = rrr-Behaves 2 s add_integer o add_integer-Quiet
  execute_operation-Behaves sub_rrr_real = rrr-Behaves 2 s (sub_real reals) o (λ a b. tt)
  execute_operation-Behaves sub_rrr_unsigned = rrr-Behaves 2 s sub_unsigned o (λ a b. tt)
  execute_operation-Behaves sub_rrr_integer = rrr-Behaves 2 s sub_integer o sub_integer-Quiet
  execute_operation-Behaves mul_rrr_real = rrr-Behaves 2 s (mul_real reals) o (λ a b. tt)
  execute_operation-Behaves mul_rrr_unsigned = rrr-Behaves 2 s mul_unsigned o (λ a b. tt)
  execute_operation-Behaves mul_rrr_integer = rrr-Behaves 2 s mul_integer o mul_integer-Quiet
  execute_operation-Behaves div_rrr_real =
      rrr_div-Behaves s reals.is_zero (div_real reals) o (λ a b. tt)
  execute_operation-Behaves div_rrr_unsigned =
      rrr_div-Behaves s is_zero_word div_unsigned o (λ a b. tt)
  execute_operation-Behaves div_rrr_integer =
      rrr_div-Behaves s is_zero_word div_integer o div_integer-Quiet
  execute_operation-Behaves neg_rr_real = rr-Behaves 2 s (neg_real reals) o (λ a. tt)
  execute_operation-Behaves neg_rr_integer =
      rr-Behaves 2 s neg_integer o (λ a. neg_integer-Quiet a a)
  execute_operation-Behaves mod_rrr_unsigned =
      rrr_div-Behaves s is_zero_word mod_unsigned o (λ a b. tt)
  execute_operation-Behaves mod_rrr_integer =
      rrr_div-Behaves s is_zero_word mod_integer o mod_integer-Quiet
  execute_operation-Behaves and_rrr = rrr-Behaves 2 s and_words o (λ a b. tt)
  execute_operation-Behaves or_rrr = rrr-Behaves 2 s or_words o (λ a b. tt)
  execute_operation-Behaves not_rr = rr-Behaves 2 s not_word o (λ a. tt)
  execute_operation-Behaves bit_and_rrr = rrr-Behaves 2 s bit_and_words o (λ a b. tt)
  execute_operation-Behaves bit_or_rrr = rrr-Behaves 2 s bit_or_words o (λ a b. tt)
  execute_operation-Behaves bit_not_rr = rr-Behaves 2 s bit_not_word o (λ a. tt)
  execute_operation-Behaves bit_offset_left_rrr = rrr-Behaves 2 s offset_left o offset_left-Quiet
  execute_operation-Behaves bit_offset_right_rrr = rrr-Behaves 2 s offset_right o offset_right-Quiet
  execute_operation-Behaves cmp_rr_integer = cmp_integer-Behaves s o
  execute_operation-Behaves cmp_rr_unsigned = cmp_unsigned-Behaves s o
  execute_operation-Behaves cmp_rr_real = cmp_real-Behaves s o reals
  execute_operation-Behaves VmOperationCode.get_flag = get_flag-Behaves s o
  execute_operation-Behaves VmOperationCode.mov_rr = reads 2 s o.arg1 _ λ a. writes 2 s o.arg0 a
  execute_operation-Behaves VmOperationCode.mov_ri = writes 2 s o.arg0 o.arg1
  execute_operation-Behaves VmOperationCode.push = push-Behaves s o
  execute_operation-Behaves VmOperationCode.pop = pop-Behaves s o
  execute_operation-Behaves VmOperationCode.load_absolute = load_absolute-Behaves s o
  execute_operation-Behaves VmOperationCode.load_local = load_local-Behaves s o
  execute_operation-Behaves VmOperationCode.store_local = store_local-Behaves s o
  execute_operation-Behaves VmOperationCode.load_by_address = load_by_address-Behaves s o
  execute_operation-Behaves VmOperationCode.store_by_address = store_by_address-Behaves s o
  execute_operation-Behaves VmOperationCode.calc_frame_address = writes 2 s o.arg0 _
  execute_operation-Behaves VmOperationCode.allocate_memory = allocate_memory-Behaves s o
  execute_operation-Behaves VmOperationCode.free_memory = free_memory-Behaves s o
  execute_operation-Behaves VmOperationCode.static_copy = static_copy-Behaves s o
  execute_operation-Behaves VmOperationCode.dynamic_copy = dynamic_copy-Behaves s o
  execute_operation-Behaves VmOperationCode.grab_frame = grab_frame-Behaves s o
  execute_operation-Behaves VmOperationCode.jmp = jmp-Behaves s o
  execute_operation-Behaves VmOperationCode.jmp_cv = jmp_cv-Behaves s o
  execute_operation-Behaves VmOperationCode.jmp_cnv = jmp_cnv-Behaves s o
  execute_operation-Behaves VmOperationCode.call = call-Behaves s o
  execute_operation-Behaves VmOperationCode.ret = ret-Behaves s o
  execute_operation-Behaves VmOperationCode.halt = halt-Behaves s o
  execute_operation-Behaves vm_call = handle_vm_call-Behaves s o
  execute_operation-Behaves tc_itr_r = convert-Behaves 2 s (integer_to_real reals) o (λ a. tt)
  execute_operation-Behaves tc_rti_r =
      convert-Behaves 2 s (real_to_integer reals) o (λ a. defined-Quiet _)
  execute_operation-Behaves tc_utr_r = convert-Behaves 2 s (unsigned_to_real reals) o (λ a. tt)
  execute_operation-Behaves tc_uti_r = convert-Behaves 2 s same_word o (λ a. tt)
  execute_operation-Behaves tc_rtu_r =
      convert-Behaves 2 s (real_to_unsigned reals) o (λ a. defined-Quiet _)
  execute_operation-Behaves tc_itu_r = convert-Behaves 2 s same_word o (λ a. tt)
  execute_operation-Behaves nop = Follows-refl 2 s
  execute_operation-Behaves VmOperationCode.load_const_local = Follows-refl 2 s
  execute_operation-Behaves VmOperationCode.load_const_by_address = Follows-refl 2 s
  execute_operation-Behaves VmOperationCode.unlisted = Follows-refl 2 s

-- ===== src/Linker/Translator/Storage.antt =====
-- TranslatorVM_1::HandleMR: moves, loads, stores, blocks of memory and the stack pointer.
use malachite_scripting_lang.Prelude.{ℕ, Bool, true, false, List}
use malachite_scripting_lang.Vm.Definitions.{VmOperation, VmOperationCode}
use malachite_scripting_lang.Vm.SpecialRegister
use malachite_scripting_lang.Linker.OpCode.{ByteOpCode}
use malachite_scripting_lang.Linker.Definitions.{ByteCommand, immediate}
use malachite_scripting_lang.Linker.Translator.Emission.{operation_of, push_back, push_vm_command}

-- A0 of SpecialRegister.
abbrev pub a0 : ℕ
a0 = 124

-- A0 takes the size, and then SP is moved by A0. The operation is one variable, which keeps the
-- arguments that are not set again.
abbrev pub move_stack_pointer : VmOperationCode → ByteCommand → List VmOperation → List VmOperation
move_stack_pointer code command result =
    push_back (push_back result (operation_of VmOperationCode.mov_ri a0 command.arg0.data_word 0))
      (operation_of code SpecialRegister.sp SpecialRegister.sp a0)

-- Arguments 1, 0 and 2 of the command.
abbrev pub push_swapped : VmOperationCode → ByteCommand → List VmOperation → List VmOperation
push_swapped code command result =
    push_vm_command code command.arg1 command.arg0 command.arg2 result

abbrev pub push_direct : VmOperationCode → ByteCommand → List VmOperation → List VmOperation
push_direct code command result = push_vm_command code command.arg0 command.arg1 command.arg2 result

-- The switch of HandleMR. By its default, PUSH and POP of the byte code add nothing and are accepted.
unfoldable pub memory_cases : ByteOpCode → ByteCommand → List VmOperation → Bool × List VmOperation
memory_cases ByteOpCode.movrr command result = (
  true,
  push_back result
      (operation_of VmOperationCode.mov_rr command.arg0.data_word command.arg1.data_word 0),
)
memory_cases ByteOpCode.movri command result = (
  true,
  push_back result
      (operation_of VmOperationCode.mov_ri command.arg0.data_word command.arg1.data_word 0),
)
memory_cases ByteOpCode.stack_up command result =
    (true, move_stack_pointer VmOperationCode.add_rrr_unsigned command result)
memory_cases ByteOpCode.stack_down command result =
    (true, move_stack_pointer VmOperationCode.sub_rrr_unsigned command result)
memory_cases ByteOpCode.lea_static command result = (
  true,
  push_back result
      (operation_of VmOperationCode.mov_ri command.arg1.data_word command.arg0.data_word 0),
)
memory_cases ByteOpCode.lea_dynamic command result = (false, result)
memory_cases ByteOpCode.load_dynamic command result =
    (true, push_swapped VmOperationCode.load_by_address command result)
memory_cases ByteOpCode.store_dynamic command result =
    (true, push_swapped VmOperationCode.store_by_address command result)
memory_cases ByteOpCode.load_const_static command result =
    (true, push_swapped VmOperationCode.load_absolute command result)
memory_cases ByteOpCode.lea_const command result = (
  true,
  push_vm_command VmOperationCode.mov_ri command.arg1 command.arg0
      (record { data_word = 0; type = immediate }) result,
)
memory_cases ByteOpCode.load_static command result =
    (true, push_swapped VmOperationCode.load_local command result)
memory_cases ByteOpCode.store_static command result =
    (true, push_swapped VmOperationCode.store_local command result)
memory_cases ByteOpCode.alloc command result =
    (true, push_direct VmOperationCode.allocate_memory command result)
memory_cases ByteOpCode.free command result =
    (true, push_direct VmOperationCode.free_memory command result)
memory_cases ByteOpCode.copy_static command result =
    (true, push_direct VmOperationCode.static_copy command result)
memory_cases ByteOpCode.copy_dynamic command result =
    (true, push_direct VmOperationCode.dynamic_copy command result)
memory_cases _ command result = (true, result)

-- HandleMR
unfoldable pub handle_mr : ByteCommand → List VmOperation → Bool × List VmOperation
unfolding memory_cases
handle_mr command result = memory_cases command.code command result

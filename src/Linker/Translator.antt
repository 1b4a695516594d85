-- ===== src/Linker/Translator.antt =====
-- MSLL/source/Translators/MSLVM_1/MSLVM_1Translator.cpp: TranslatorVM_1. One file per handler, and
-- `handle_command`, which chooses among them.
pub mod Emission
pub mod Arguments
pub mod Comparing
pub mod Flow
pub mod Storage
pub mod Run
pub mod Compared
pub mod TwoPass
use malachite_scripting_lang.Prelude.{ℕ, Bool, true, false, ◌||◌, List, [], ◌∷◌, if◌then◌else◌}
use malachite_scripting_lang.Outcome.{Outcome, ok, ◌>>=◌}
use malachite_scripting_lang.Vm.Definitions.{VmOperation, VmOperationCode}
use malachite_scripting_lang.Linker.OpCode.{
  ByteOpCode, is_arithmetic, is_logic, is_comparing, is_control_flow, is_memory, is_special,
  at_code,
}
use malachite_scripting_lang.Linker.Definitions.{ByteCommand}
use malachite_scripting_lang.Linker.Translator.Emission.{
  Progress, push_back, push_vm_command, unary, is_nop,
}
use malachite_scripting_lang.Linker.Translator.Arguments.{resolve_command}
use malachite_scripting_lang.Linker.Translator.Comparing.{handle_comp}
use malachite_scripting_lang.Linker.Translator.Flow.{handle_cf}
use malachite_scripting_lang.Linker.Translator.Storage.{handle_mr}

-- HandleAL
unfoldable pub handle_al : ByteCommand → List VmOperation → Bool × List VmOperation
unfolding at_code
handle_al command result = if is_nop (at_code command.code) then (false, result) else (
  true,
  push_vm_command (at_code command.code) command.arg0 command.arg1 command.arg2 result,
)

-- The switch of HandleSP.
unfoldable pub special_cases : ByteOpCode → ByteCommand → List VmOperation → Bool × List VmOperation
special_cases ByteOpCode.tc_itr command result =
    (true, push_back result (unary VmOperationCode.tc_itr_r command))
special_cases ByteOpCode.tc_rti command result =
    (true, push_back result (unary VmOperationCode.tc_rti_r command))
special_cases ByteOpCode.tc_utr command result =
    (true, push_back result (unary VmOperationCode.tc_utr_r command))
special_cases ByteOpCode.tc_uti command result =
    (true, push_back result (unary VmOperationCode.tc_uti_r command))
special_cases ByteOpCode.tc_rtu command result =
    (true, push_back result (unary VmOperationCode.tc_rtu_r command))
special_cases ByteOpCode.tc_itu command result =
    (true, push_back result (unary VmOperationCode.tc_itu_r command))
special_cases ByteOpCode.spec_call command result =
    (true, push_vm_command VmOperationCode.vm_call command.arg0 command.arg1 command.arg2 result)
special_cases _ command result = (false, result)

-- HandleSP
unfoldable pub handle_sp : ByteCommand → List VmOperation → Bool × List VmOperation
unfolding special_cases
handle_sp command result = special_cases command.code command result

-- The answer of a handler that only adds operations, as one of a handler of the whole progress.
abbrev pub only_result : Progress → Bool × List VmOperation → Outcome (Bool × Progress)
only_result p (check, result) = ok (check, record p { result = result })

-- What becomes of NOP, and of the codes outside every section: only NOP is let through.
unfoldable pub outside_sections : ByteOpCode → Bool
outside_sections ByteOpCode.nop = true
outside_sections _ = false

-- The part of HandleCommand behind `checking`.
unfoldable pub dispatch : ByteCommand → Progress → Outcome (Bool × Progress)
unfolding is_arithmetic is_logic is_comparing is_control_flow is_memory is_special handle_al
    handle_comp handle_cf handle_mr handle_sp outside_sections
dispatch command p =
    if is_arithmetic command.code || is_logic command.code
    then only_result p (handle_al command p.result)
    else if is_comparing command.code
    then only_result p (handle_comp command p.result)
    else if is_control_flow command.code
    then handle_cf command p
    else if is_memory command.code
    then only_result p (handle_mr command p.result)
    else if is_special command.code
    then only_result p (handle_sp command p.result)
    else ok (outside_sections command.code, p)

-- HandleCommand for a command of module `m_id`.
unfoldable pub handle_command : ℕ → ByteCommand → Progress → Outcome (Bool × Progress)
unfolding resolve_command dispatch
handle_command m_id command p =
    resolve_command p.state m_id command >>= λ resolved. dispatch resolved p

-- The loop of HandleModule, which a command that is refused ends.
unfoldable pub handle_commands : ℕ → List ByteCommand → Progress → Outcome (Bool × Progress)
unfolding handle_command
handle_commands m_id [] p = ok (true, p)
handle_commands m_id (command ∷ commands) p = handle_command m_id command p >>= λ handled.
    elim handled.0 [
      | false ↦ ok (false, handled.1)
      | true ↦ handle_commands m_id commands handled.1
    ]

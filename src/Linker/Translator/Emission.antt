-- ===== src/Linker/Translator/Emission.antt =====
-- The operations that TranslatorVM_1 adds to its result: PushVMCommand, and the progress of the
-- translation.
use malachite_scripting_lang.Prelude.{ℕ, Bool, true, false, List, [], ◌∷◌, ◌++◌}
use malachite_scripting_lang.Vm.Definitions.{VmOperation, VmOperationCode}
use malachite_scripting_lang.Linker.Definitions.{CommandArgument, ByteCommand, LinkingState}

-- The state of the linking, and the operations so far.
pub record Progress : Type 0 where
  pub state : LinkingState
  pub result : List VmOperation

-- `VMOperation operation; operation.code = code; ...`
abbrev pub operation_of : VmOperationCode → ℕ → ℕ → ℕ → VmOperation
operation_of code a b c = record { arg0 = a; arg1 = b; arg2 = c; dsi = 0; code = code }

-- `result.push_back(operation)`
abbrev pub push_back : List VmOperation → VmOperation → List VmOperation
push_back result operation = result ++ operation ∷ []

-- PushVMCommand
abbrev pub push_vm_command :
    VmOperationCode
    → CommandArgument
    → CommandArgument
    → CommandArgument
    → List VmOperation
    → List VmOperation
push_vm_command code a b c result =
    push_back result (operation_of code a.data_word b.data_word c.data_word)

-- An operation with the first argument of the command.
abbrev pub unary : VmOperationCode → ByteCommand → VmOperation
unary code command = operation_of code command.arg0.data_word 0 0

abbrev pub is_nop : VmOperationCode → Bool
is_nop VmOperationCode.nop = true
is_nop _ = false

-- ===== src/Linker/Translator/TwoPass.antt =====
-- An independent description of the translation: the addresses of the labels are known beforehand,
-- and each command is translated by itself.
pub mod Agreement
pub mod Patches
pub mod Labels
pub mod Tracks
pub mod Steps
pub mod Adds
pub mod Refinement
use malachite_scripting_lang.Prelude.{
  ℕ, ◌+◌, ◌≡◌, Bool, true, false, ◌||◌, ◌&&◌, Option, none, some, List, [], ◌∷◌, ◌++◌, length,
  if◌then◌else◌,
}
use malachite_scripting_lang.Outcome.{Outcome, ok, ◌>>=◌}
use malachite_scripting_lang.Vm.Definitions.{VmOperation, VmOperationCode}
use malachite_scripting_lang.Linker.OpCode.{
  ByteOpCode, is_arithmetic, is_logic, is_comparing, is_control_flow, is_memory, is_special,
}
use malachite_scripting_lang.Linker.Definitions.{ByteCommand, LinkingState}
use malachite_scripting_lang.Linker.Translator.{handle_al, handle_sp, outside_sections}
use malachite_scripting_lang.Linker.Translator.Emission.{operation_of}
use malachite_scripting_lang.Linker.Translator.Arguments.{resolve_command}
use malachite_scripting_lang.Linker.Translator.Comparing.{handle_comp}
use malachite_scripting_lang.Linker.Translator.Storage.{handle_mr}

abbrev pub placed_label : ByteOpCode → ℕ → Option ℕ
placed_label ByteOpCode.jmp_label id = some id
placed_label _ id = none

-- The label that a command places.
abbrev pub label_of : ByteCommand → Option ℕ
label_of command = placed_label command.code command.arg0.data_word

-- A command of the control flow, where the labels are at `target`.
unfoldable pub emit_flow : (ℕ → ℕ) → ByteOpCode → ByteCommand → List VmOperation
emit_flow target ByteOpCode.jmp_label command = []
emit_flow target ByteOpCode.jmp command =
    operation_of VmOperationCode.jmp (target command.arg0.data_word) 0 0 ∷ []
emit_flow target ByteOpCode.jmpcv command =
    operation_of VmOperationCode.jmp_cv (target command.arg0.data_word) command.arg1.data_word 0
    ∷ []
emit_flow target ByteOpCode.jmpcnv command =
    operation_of VmOperationCode.jmp_cnv (target command.arg0.data_word) command.arg1.data_word 0
    ∷ []
emit_flow target _ command = operation_of VmOperationCode.nop 0 0 0 ∷ []

-- Whether a command is accepted, and its operations.
unfoldable pub emit : (ℕ → ℕ) → ByteCommand → Bool × List VmOperation
unfolding is_arithmetic is_logic is_comparing is_control_flow is_memory is_special handle_al
    handle_comp handle_mr handle_sp outside_sections emit_flow
emit target command =
    if is_arithmetic command.code || is_logic command.code
    then handle_al command []
    else if is_comparing command.code
    then handle_comp command []
    else if is_control_flow command.code
    then (true, emit_flow target command.code command)
    else if is_memory command.code
    then handle_mr command []
    else if is_special command.code
    then handle_sp command []
    else (outside_sections command.code, [])

-- All operations; a command that is refused ends the translation.
unfoldable pub emit_all : (ℕ → ℕ) → List ByteCommand → Bool × List VmOperation
unfolding emit
emit_all target [] = (true, [])
emit_all target (command ∷ commands) =
    let rest = emit_all target commands in
    if (emit target command).0
    then (rest.0, (emit target command).1 ++ rest.1)
    else (false, (emit target command).1)

-- The labels are where `target` says, when the first command's operations begin at `n`.
unfoldable pub Placed : (ℕ → ℕ) → ℕ → List ByteCommand → Type 0
unfolding emit
Placed target n [] = Unit
Placed target n (command ∷ commands) =
    ((id : ℕ) → label_of command ≡ some id → target id ≡ n)
    × Placed target (n + length (emit target command).1) commands

-- The second list has the commands of the first with their arguments resolved.
unfoldable pub Resolved : LinkingState → ℕ → List ByteCommand → List ByteCommand → Type 0
unfolding resolve_command
Resolved state m_id [] [] = Unit
Resolved state m_id [] (r ∷ rs) = ⊥
Resolved state m_id (command ∷ commands) [] = ⊥
Resolved state m_id (command ∷ commands) (r ∷ rs) =
    (resolve_command state m_id command ≡ ok r) × Resolved state m_id commands rs

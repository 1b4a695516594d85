-- ===== src/Linker/Tests/Translation.antt =====
-- Translations of small programs.
use malachite_scripting_lang.Linker.Image.{handle_module}
use malachite_scripting_lang.Linker.Image.Compiled.{handle_module-byterize_commands}
use malachite_scripting_lang.Compiler.Packer.{byterize_commands}
use malachite_scripting_lang.Compiler.Packer.CommandFields.{IsCommand}
use malachite_scripting_lang.Prelude.{
  ◌<◌, ◌^◌, some, ℕ, ◌-◌, ◌^◌, ◌≡◌, refl, arith, Bool, false, ◌==◌, ltb, List, [], ◌∷◌,
}
use malachite_scripting_lang.Prelude.Int.{ltb_ℤ, signed64}
use malachite_scripting_lang.Outcome.{ok, ◌>>=◌, Returns}
use malachite_scripting_lang.Vm.Definitions.{VmOperationCode}
use malachite_scripting_lang.Vm.State.{VmState, initial_state, put}
use malachite_scripting_lang.Vm.Instruction.Logic.{truth}
use malachite_scripting_lang.Vm.Tests.Machine.{whole_reals}
use malachite_scripting_lang.Linker.OpCode.{IsListed, ByteOpCode}
use malachite_scripting_lang.Linker.Definitions.{
  CommandSource, CommandArgument, ByteCommand, LinkingState,
}
use malachite_scripting_lang.Linker.Objects.{new_state}
use malachite_scripting_lang.Linker.Translator.{handle_commands}
use malachite_scripting_lang.Linker.Translator.Emission.{Progress, operation_of}
use malachite_scripting_lang.Linker.Translator.Comparing.{handle_comp}
use malachite_scripting_lang.Linker.Translator.Run.{run}
use malachite_scripting_lang.Linker.Translator.Compared.{
  Puts, holds, less_equal, not_equal, handle_comp-unsigned, handle_comp-integer,
}
use malachite_scripting_lang.Linker.Translator.TwoPass.{emit_all, Resolved, Placed}
use malachite_scripting_lang.Linker.Translator.TwoPass.Refinement.{
  no_labels, handle_commands-emit_all,
}

abbrev plain : ℕ → CommandArgument
plain n = record { data_word = n; type = CommandSource.immediate }

abbrev command : ByteOpCode → ℕ → ℕ → ℕ → ByteCommand
command code a b c = record {
  code = code;
  arg0 = plain a;
  arg1 = plain b;
  arg2 = plain c;
  flags = 0;
  source_line = 0;
}

-- A jump forwards over a move, the label, and a conditional jump back to it.
abbrev looping : List ByteCommand
looping =
    command ByteOpCode.jmp 7 0 0
    ∷ command ByteOpCode.movrr 1 2 0
    ∷ command ByteOpCode.jmp_label 7 0 0
    ∷ command ByteOpCode.jmpcv 7 3 0
    ∷ []

abbrev state : LinkingState
state = new_state false

-- Both jumps are aimed at operation 2, the first one by a patch.
looping_operations :
    (handle_commands 0 looping (record { state = no_labels state; result = [] }) >>= λ answer.
    ok answer.1.result)
    ≡ ok (
        operation_of VmOperationCode.jmp 2 0 0
        ∷ operation_of VmOperationCode.mov_rr 1 2 0
        ∷ operation_of VmOperationCode.jmp_cv 2 3 0
        ∷ [])
unfolding handle_commands
looping_operations = refl

looping-Resolved : Resolved (no_labels state) 0 looping looping
unfolding Resolved
looping-Resolved = (refl, (refl, (refl, (refl, tt))))

looping-Placed : Placed (λ id. 2) 0 looping
unfolding Placed
looping-Placed = (λ id e. cc e, (λ id e. cc e, (λ id e. refl, (λ id e. cc e, tt))))

handle_commands-emit_all_example :
    Returns
      (λ (answer : Bool × Progress).
        (answer.0 ≡ (emit_all (λ id. 2) looping).0)
        × (answer.1.state.except_handling_jmps ≡ []
            → answer.1.result ≡ (emit_all (λ id. 2) looping).1))
      (handle_commands 0 looping (record { state = no_labels state; result = [] }))
handle_commands-emit_all_example =
    handle_commands-emit_all (λ id. 2) state 0 looping looping looping-Resolved looping-Placed

command-IsCommand :
    (code : ByteOpCode) (a b c : ℕ)
    → IsListed code
    → a < 2 ^ 64
    → b < 2 ^ 64
    → c < 2 ^ 64
    → IsCommand (command code a b c)
command-IsCommand code a b c listed a_fits b_fits c_fits = record {
  listed = listed;
  first = record { source = tt; word = a_fits };
  second = record { source = tt; word = b_fits };
  third = record { source = tt; word = c_fits };
  flags_fit = omega arith;
  line_fits = omega arith;
}

handle_module-byterize_commands_example :
    Returns
      (λ (answer : Bool × Progress).
        (answer.0 ≡ (emit_all (λ id. 2) looping).0)
        × (answer.1.state.except_handling_jmps ≡ []
            → answer.1.result ≡ (emit_all (λ id. 2) looping).1))
      (byterize_commands 1 16 looping >>= λ file.
        handle_module (some file) 0 (record { state = no_labels state; result = [] }))
handle_module-byterize_commands_example =
    handle_module-byterize_commands (λ id. 2) state 0 1 16 looping looping (omega arith)
      (omega arith) (omega arith)
      (
        command-IsCommand ByteOpCode.jmp 7 0 0 tt (omega arith) (omega arith) (omega arith),
        (
          command-IsCommand ByteOpCode.movrr 1 2 0 tt (omega arith) (omega arith) (omega arith),
          (
            command-IsCommand ByteOpCode.jmp_label 7 0 0 tt (omega arith) (omega arith)
                (omega arith),
            (
              command-IsCommand ByteOpCode.jmpcv 7 3 0 tt (omega arith) (omega arith) (omega arith),
              tt,
            ),
          ),
        ),
      )
      looping-Resolved looping-Placed

-- The machine with 5 and 9 in registers 1 and 2, and with -1 in register 3.
abbrev compared : VmState
compared = put (put (put initial_state 1 5) 2 9) 3 (2 ^ 64 - 1)

handle_comp-unsigned_example :
    Returns
      (Puts compared 4 (truth (holds less_equal (5 == 9) (ltb 9 5) (ltb 5 9))))
      (run whole_reals (handle_comp (command ByteOpCode.elessu 4 1 2) []).1 compared)
handle_comp-unsigned_example =
    handle_comp-unsigned whole_reals compared (command ByteOpCode.elessu 4 1 2) less_equal
      (omega arith) (omega arith) (omega arith) (ground arith) (ground arith) refl

handle_comp-integer_example :
    Returns
      (Puts compared 4 (
        truth (
          holds not_equal
            (compared.registers 3 == 5)
            (ltb_ℤ (signed64 5) (signed64 (compared.registers 3)))
            (ltb_ℤ (signed64 (compared.registers 3)) (signed64 5)))))
      (run whole_reals (handle_comp (command ByteOpCode.not_equali 4 3 1) []).1 compared)
handle_comp-integer_example =
    handle_comp-integer whole_reals compared (command ByteOpCode.not_equali 4 3 1) not_equal
      (omega arith) (omega arith) (omega arith) (ground arith) (ground arith) refl (omega arith)
      (omega arith)

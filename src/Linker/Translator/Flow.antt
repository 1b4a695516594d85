-- ===== src/Linker/Translator/Flow.antt =====
-- TranslatorVM_1::HandleCF: labels get the address of the next operation, and the jumps that waited
-- for a label are patched.
use malachite_scripting_lang.Prelude.{
  ℕ, zero, suc, Bool, true, Option, none, some, List, [], ◌∷◌, ◌++◌, length, ◌==◌, if◌then◌else◌,
}
use malachite_scripting_lang.Outcome.{Outcome, ok, undefined, ◌>>=◌}
use malachite_scripting_lang.Vm.Definitions.{VmOperation, VmOperationCode}
use malachite_scripting_lang.Linker.OpCode.{ByteOpCode}
use malachite_scripting_lang.Linker.Definitions.{ByteCommand, Labelled}
use malachite_scripting_lang.Linker.Translator.Emission.{Progress, operation_of, push_back}

module _ {ℓ} {A : Type ℓ} where
  -- `find`
  abbrev pub find : ℕ → List (Labelled A) → Option A
  find id [] = none
  find id (entry ∷ entries) = if entry.label == id then some entry.known else find id entries

  -- `erase`
  abbrev pub erase : ℕ → List (Labelled A) → List (Labelled A)
  erase id [] = []
  erase id (entry ∷ entries) =
      if entry.label == id then erase id entries else entry ∷ erase id entries

  -- `entries[id] = a`
  abbrev pub assign : ℕ → A → List (Labelled A) → List (Labelled A)
  assign id a entries = record { label = id; known = a } ∷ erase id entries

abbrev pub or_empty : Option (List ℕ) → List ℕ
or_empty none = []
or_empty (some ips) = ips

-- The jumps that wait for a label: none where the map has no entry.
abbrev pub waiting : ℕ → List (Labelled (List ℕ)) → List ℕ
waiting id entries = or_empty (find id entries)

-- `except_handling_jmps[id].push_back(ip)`
unfoldable pub await : ℕ → ℕ → List (Labelled (List ℕ)) → List (Labelled (List ℕ))
await id ip entries = assign id (waiting id entries ++ ip ∷ []) entries

-- `result[ip].arg0 = target`
unfoldable pub set_arg0 : ℕ → ℕ → List VmOperation → Outcome (List VmOperation)
set_arg0 ip target [] = undefined
set_arg0 zero target (o ∷ os) = ok (record o { arg0 = target } ∷ os)
set_arg0 (suc ip) target (o ∷ os) = set_arg0 ip target os >>= λ os'. ok (o ∷ os')

-- The loop over the jumps that waited.
unfoldable pub patch : List ℕ → ℕ → List VmOperation → Outcome (List VmOperation)
unfolding set_arg0
patch [] target result = ok result
patch (ip ∷ ips) target result = set_arg0 ip target result >>= λ result'. patch ips target result'

-- JMP_LABEL
unfoldable pub place_label : ℕ → Progress → Outcome (Bool × Progress)
unfolding patch
place_label id p =
    let current_ip = length p.result in
    patch (waiting id p.state.except_handling_jmps) current_ip p.result >>= λ patched. ok (
      true,
      record {
        state = record p.state {
          except_handling_jmps = erase id p.state.except_handling_jmps;
          label_jmp_ip = assign id current_ip p.state.label_jmp_ip;
        };
        result = patched;
      },
    )

-- By what `find` gives for the label: the address is known, or the jump is added to those that wait.
unfoldable pub place_known : Option ℕ → VmOperation → ℕ → Progress → Progress
unfolding await
place_known (some ip) operation id p = record p {
  result = push_back p.result (record operation { arg0 = ip });
}
place_known none operation id p = record {
  state = record p.state {
    except_handling_jmps = await id (length p.result) p.state.except_handling_jmps;
  };
  result = push_back p.result operation;
}

-- A jump to label `id`.
unfoldable pub place_jump : VmOperation → ℕ → Progress → Progress
unfolding place_known
place_jump operation id p = place_known (find id p.state.label_jmp_ip) operation id p

-- The switch of HandleCF. CALL, RET and EXT only `break`: the operation that is added is NOP.
unfoldable pub flow_cases : ByteOpCode → ByteCommand → Progress → Outcome (Bool × Progress)
unfolding place_label place_jump
flow_cases ByteOpCode.jmp_label command p = place_label command.arg0.data_word p
flow_cases ByteOpCode.jmp command p =
    ok (true, place_jump (operation_of VmOperationCode.jmp 0 0 0) command.arg0.data_word p)
flow_cases ByteOpCode.jmpcv command p = ok (
  true,
  place_jump (operation_of VmOperationCode.jmp_cv 0 command.arg1.data_word 0) command.arg0.data_word
      p,
)
flow_cases ByteOpCode.jmpcnv command p = ok (
  true,
  place_jump (operation_of VmOperationCode.jmp_cnv 0 command.arg1.data_word 0)
      command.arg0.data_word p,
)
flow_cases _ command p =
    ok (true, record p { result = push_back p.result (operation_of VmOperationCode.nop 0 0 0) })

-- HandleCF
unfoldable pub handle_cf : ByteCommand → Progress → Outcome (Bool × Progress)
unfolding flow_cases
handle_cf command p = flow_cases command.code command p

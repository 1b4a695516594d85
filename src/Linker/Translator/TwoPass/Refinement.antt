-- ===== src/Linker/Translator/TwoPass/Refinement.antt =====
-- The translation in one pass gives the operations of the description.
use malachite_scripting_lang.Prelude.{
  ℕ, ◌+◌, ◌≡◌, refl, ap, arith, Bool, true, false, ◌||◌, some, List, [], ◌∷◌, ◌++◌, length,
  length-append, if◌then◌else◌,
}
use malachite_scripting_lang.Outcome.{Outcome, ok, Returns, Returns-bind, Returns-mono}
use malachite_scripting_lang.Vm.Definitions.{VmOperation}
use malachite_scripting_lang.Linker.OpCode.{
  ByteOpCode, is_arithmetic, is_logic, is_comparing, is_control_flow, is_memory, is_special,
}
use malachite_scripting_lang.Linker.Definitions.{
  CommandSource, CommandArgument, ByteCommand, LinkingState, Labelled,
}
use malachite_scripting_lang.Linker.Translator.{
  handle_al, handle_sp, only_result, dispatch, outside_sections, handle_commands, handle_command,
}
use malachite_scripting_lang.Linker.Translator.Emission.{Progress}
use malachite_scripting_lang.Linker.Translator.Comparing.{answer, handle_comp}
use malachite_scripting_lang.Linker.Translator.Flow.{handle_cf, flow_cases, waiting}
use malachite_scripting_lang.Linker.Translator.Storage.{handle_mr}
use malachite_scripting_lang.Linker.Translator.Arguments.{resolve_by, resolve_command}
use malachite_scripting_lang.Linker.Translator.TwoPass.{
  placed_label, label_of, emit_flow, emit, emit_all, Placed, Resolved,
}
use malachite_scripting_lang.Linker.Translator.TwoPass.Agreement.{Each-length, Agrees-settled}
use malachite_scripting_lang.Linker.Translator.TwoPass.Patches.{member}
use malachite_scripting_lang.Linker.Translator.TwoPass.Steps.{
  Tracks-append, Tracks-place_label, Tracks-place_jump,
}
use malachite_scripting_lang.Linker.Translator.TwoPass.Tracks.{SameTables, Tracks}
use malachite_scripting_lang.Linker.Translator.TwoPass.Adds.{
  Adds, append_none, append_assoc, memory_cases-Adds, special_cases-Adds, handle_al-Adds,
  handle_comp-Adds,
}

module _ (target : ℕ → ℕ) (origin : LinkingState) (p : Progress) (described : List VmOperation)
    (tracks : Tracks target origin p described) where
  -- What a command's answer must be, when the description says `e`.
  abbrev Follows : Bool × List VmOperation → Bool × Progress → Type 0
  Follows e answer = (answer.0 ≡ e.0) × Tracks target origin answer.1 (described ++ e.1)

  only_result-Follows :
      (handler : List VmOperation → Bool × List VmOperation)
      → Adds handler
      → Returns (Follows (handler [])) (only_result p (handler p.result))
  only_result-Follows handler adds =
      rw (adds p.result) (refl, Tracks-append target origin p described tracks (handler []).1)

  flow_cases-Follows :
      (code : ByteOpCode) (command : ByteCommand)
      → ((id : ℕ)
          → placed_label code command.arg0.data_word ≡ some id
          → target id ≡ length p.result)
      → Returns (Follows (true, emit_flow target code command)) (flow_cases code command p)
  unfolding flow_cases emit_flow
  flow_cases-Follows ByteOpCode.jmp_label command label =
      Returns-mono (λ (a : Bool × Progress). (a.0 ≡ true) × Tracks target origin a.1 described)
        (Follows (true, [])) _ (λ a (accepted, t). (accepted, rw (append_none described) t))
        (Tracks-place_label target origin p described tracks command.arg0.data_word
          (label command.arg0.data_word refl))
  flow_cases-Follows ByteOpCode.jmp command label =
      (refl, Tracks-place_jump target origin p described tracks _ command.arg0.data_word)
  flow_cases-Follows ByteOpCode.jmpcv command label =
      (refl, Tracks-place_jump target origin p described tracks _ command.arg0.data_word)
  flow_cases-Follows ByteOpCode.jmpcnv command label =
      (refl, Tracks-place_jump target origin p described tracks _ command.arg0.data_word)
  flow_cases-Follows _ command label = (refl, Tracks-append target origin p described tracks _)

  dispatch-Follows :
      (command : ByteCommand)
      → ((id : ℕ) → label_of command ≡ some id → target id ≡ length p.result)
      → Returns (Follows (emit target command)) (dispatch command p)
  unfolding dispatch emit handle_cf handle_mr handle_sp
  dispatch-Follows command label =
      by (is_arithmetic command.code || is_logic command.code) (is_comparing command.code)
        (is_control_flow command.code) (is_memory command.code) (is_special command.code)
    where
      by :
          (al comp cf mr sp : Bool)
          → Returns
              (Follows (
                if al
                then handle_al command []
                else if comp
                then handle_comp command []
                else if cf
                then (true, emit_flow target command.code command)
                else if mr
                then handle_mr command []
                else if sp
                then handle_sp command []
                else (outside_sections command.code, [])))
              (if al
                then only_result p (handle_al command p.result)
                else if comp
                then only_result p (handle_comp command p.result)
                else if cf
                then handle_cf command p
                else if mr
                then only_result p (handle_mr command p.result)
                else if sp
                then only_result p (handle_sp command p.result)
                else ok (outside_sections command.code, p))
      by true comp cf mr sp = only_result-Follows (handle_al command) (handle_al-Adds command)
      by false true cf mr sp = only_result-Follows (handle_comp command) (handle_comp-Adds command)
      by false false true mr sp = flow_cases-Follows command.code command label
      by false false false true sp =
          only_result-Follows (handle_mr command) (memory_cases-Adds command.code command)
      by false false false false true =
          only_result-Follows (handle_sp command) (special_cases-Adds command.code command)
      by false false false false false = (refl, rw (append_none described) tracks)

module _ (origin state : LinkingState) (same : SameTables origin state) (m_id : ℕ) where
  resolve_by-SameTables :
      (type : CommandSource) (arg : CommandArgument)
      → resolve_by type state m_id arg ≡ resolve_by type origin m_id arg
  resolve_by-SameTables CommandSource.symbol arg = rw (same.0, same.2) refl
  resolve_by-SameTables CommandSource.memory_address arg = rw same.2 refl
  resolve_by-SameTables CommandSource.constant arg = rw same.1 refl
  resolve_by-SameTables CommandSource.register arg = refl
  resolve_by-SameTables CommandSource.immediate arg = refl
  resolve_by-SameTables (CommandSource.other n) arg = refl

  resolve_command-SameTables :
      (command : ByteCommand)
      → resolve_command state m_id command ≡ resolve_command origin m_id command
  unfolding resolve_command
  resolve_command-SameTables command =
      rw
        (
          resolve_by-SameTables command.arg0.type command.arg0,
          resolve_by-SameTables command.arg1.type command.arg1,
          resolve_by-SameTables command.arg2.type command.arg2,
        )
        refl

module _ (target : ℕ → ℕ) (origin : LinkingState) (m_id : ℕ) where
  -- The answer of the whole translation.
  abbrev Described : List VmOperation → Bool × List VmOperation → Bool × Progress → Type 0
  Described described e answer = (answer.0 ≡ e.0) × Tracks target origin answer.1 (described ++ e.1)

  -- The loop behind a command: whether it goes on is what the description says.
  continue :
      (described ops : List VmOperation) (p : Progress) (e : Bool × List VmOperation)
      (rest : Outcome (Bool × Progress)) (b accepted : Bool)
      → b ≡ accepted
      → Tracks target origin p (described ++ ops)
      → Returns (Described (described ++ ops) e) rest
      → Returns
          (Described described (if accepted then (e.0, ops ++ e.1) else (false, ops)))
          (elim b [ false ↦ ok (false, p) | true ↦ rest ])
  continue described ops p e rest true true same tracks h =
      Returns-mono (Described (described ++ ops) e) _ rest
        (λ a (answer, t). (answer, rw (append_assoc described ops e.1) at t)) h
  continue described ops p e rest false false same tracks h = (refl, tracks)
  continue described ops p e rest true false same tracks h = cc (same)
  continue described ops p e rest false true same tracks h = cc (same)

  next_address :
      (p p' : Progress) (described ops : List VmOperation)
      → Tracks target origin p described
      → Tracks target origin p' (described ++ ops)
      → length p.result + length ops ≡ length p'.result
  next_address p p' described ops before after = omega (
    arith,
    Each-length _ 0 _ _ before.agree,
    Each-length _ 0 _ _ after.agree,
    length-append described ops,
  )

  commands-Described :
      (commands resolved : List ByteCommand) (p : Progress) (described : List VmOperation)
      → Tracks target origin p described
      → Resolved origin m_id commands resolved
      → Placed target (length p.result) resolved
      → Returns (Described described (emit_all target resolved)) (handle_commands m_id commands p)
  unfolding handle_commands handle_command Resolved emit_all Placed
  commands-Described [] [] p described tracks h placed = (refl, rw (append_none described) tracks)
  commands-Described [] (r ∷ rs) p described tracks h placed = elim h [ ]
  commands-Described (command ∷ commands) [] p described tracks h placed = elim h [ ]
  commands-Described (command ∷ commands) (r ∷ rs) p described tracks (e, h) (label, placed) =
      rw (resolve_command-SameTables origin p.state tracks.same_tables m_id command, e)
        (Returns-bind _ _ (dispatch r p) _
          (dispatch-Follows target origin p described tracks r label)
          λ (accepted, p') (follows, tracks').
            continue described (emit target r).1 p' (emit_all target rs) _ accepted _ follows
              tracks'
              (commands-Described commands rs p' (described ++ (emit target r).1) tracks' h
                (rw (next_address p p' described (emit target r).1 tracks tracks') at placed)))

-- A state in which no label is known and no jump waits.
abbrev pub no_labels : LinkingState → LinkingState
no_labels state = record state { label_jmp_ip = []; except_handling_jmps = [] }

-- Where the arguments of a module's commands resolve and every label is placed just at the address that
-- `target` says, the translation, with no label known and no jump waiting before, always returns, and
-- it accepts the commands just when each is accepted by itself; if no jump waits in the end, the
-- operations are those of each command by itself with every jump aimed at its label's address.
pub handle_commands-emit_all :
    (target : ℕ → ℕ) (state : LinkingState) (m_id : ℕ) (commands resolved : List ByteCommand)
    → Resolved (no_labels state) m_id commands resolved
    → Placed target 0 resolved
    → Returns
        (λ (answer : Bool × Progress).
          (answer.0 ≡ (emit_all target resolved).0)
          × (answer.1.state.except_handling_jmps ≡ []
              → answer.1.result ≡ (emit_all target resolved).1))
        (handle_commands m_id commands (record { state = no_labels state; result = [] }))
handle_commands-emit_all target state m_id commands resolved h placed =
    Returns-mono (Described target (no_labels state) m_id [] (emit_all target resolved)) _ _
      (λ (accepted, p) (same, tracks). (
        same,
        λ idle.
            Agrees-settled target _ 0 p.result _
              (λ id k. ap (λ (es : List (Labelled (List ℕ))). member k (waiting id es)) idle)
              tracks.agree,
      ))
      (commands-Described target (no_labels state) m_id commands resolved
        (record { state = no_labels state; result = [] }) []
        (record {
          agree = tt;
          in_range = λ id k w. cc w;
          labels = λ id ip e. cc e;
          same_tables = (refl, refl, refl);
        })
        h placed)

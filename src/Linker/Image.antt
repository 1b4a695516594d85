-- ===== src/Linker/Image.antt =====
-- TranslatorVM_1::Translate and HandleModule of
-- MSLL/source/Translators/MSLVM_1/MSLVM_1Translator.cpp: the read-only data and the code of the
-- executable, from the constants and the modules in linking order.
pub mod ReadOnlyData
pub mod Code
pub mod Fetching
pub mod Compiled
use malachite_scripting_lang.Prelude.{
  ℕ, ◌+◌, ◌-◌, ◌*◌, ◌/◌, Bool, true, false, not, Option, none, some, List, [], ◌∷◌, length,
  is_empty, ltb, ◌==◌, if◌then◌else◌,
}
use malachite_scripting_lang.Outcome.{Outcome, ok, undefined, ◌>>=◌}
use malachite_scripting_lang.Vm.Definitions.{VmOperation, u64, operation_size}
use malachite_scripting_lang.Buffer.{StaticBpointer, allocate, copy_to}
use malachite_scripting_lang.Linker.Definitions.{
  ConstantData, CommandsPool, LinkingState, ExecutionData, no_data, default_alignment,
}
use malachite_scripting_lang.Linker.Objects.Code.{deserialize_co}
use malachite_scripting_lang.Linker.Translator.{handle_commands}
use malachite_scripting_lang.Linker.Translator.Emission.{Progress}
use malachite_scripting_lang.Linker.Image.ReadOnlyData.{Layout, lay_constants}
use malachite_scripting_lang.Linker.Image.Code.{code_byte}

-- HandleModule. `file` is what ReadFile gives for the module's file. A file that DeserializeCO refuses
-- is a null pointer, which is followed.
unfoldable pub handle_module : Option StaticBpointer → ℕ → Progress → Outcome (Bool × Progress)
unfolding deserialize_co handle_commands
handle_module none m_id p = ok (false, p)
handle_module (some file) m_id p = deserialize_co (some file) >>= λ pool. elim pool [
  | none ↦ undefined
  | some read ↦ handle_commands m_id read.commands p >>= λ (accepted, p'). ok (
    accepted,
    if accepted
        then record p' {
          state = record p'.state {
            global_memory_offset = u64 (p'.state.global_memory_offset + read.stack_size);
          };
        }
        else p',
  )
]

-- `state->stack_offset_of_module[id] = state->global_memory_offset;`
abbrev pub enter_module : ℕ → Progress → Progress
enter_module m_id p = record p {
  state = record p.state {
    stack_offset_of_module = λ id.
        if id == m_id then p.state.global_memory_offset else p.state.stack_offset_of_module id;
  };
}

module _ (files : ℕ → Option StaticBpointer) where
  -- The loop over the modules, which one that is refused ends.
  unfoldable pub handle_modules : List ℕ → Progress → Outcome (Bool × Progress)
  unfolding handle_module
  handle_modules [] p = ok (true, p)
  handle_modules (m_id ∷ m_ids) p =
      handle_module (files m_id) m_id (enter_module m_id p) >>= λ (accepted, p'). elim accepted [
        | false ↦ ok (false, p')
        | true ↦ handle_modules m_ids p'
      ]

  -- Translate. `padding` is what the bytes of an operation hold that belong to none of its fields.
  unfoldable pub translate : (ℕ → ℕ) → LinkingState → Outcome ExecutionData
  unfolding lay_constants handle_modules code_byte
  translate padding state = do
    laid ← lay_constants state.constants (allocate state.constants_size) 0
    elim laid [
      | none ↦ ok no_data
      | some layout ↦
          let aligned =
            u64 (layout.rod_offset + (default_alignment - 1))
            / default_alignment
            * default_alignment in
          let ready = record state {
            constants = layout.constants;
            rod_offset_aligned = aligned;
            global_memory_offset = aligned;
          } in
          handle_modules state.linking_order (record { state = ready; result = [] })
          >>= λ (accepted, p). ok (
              if not accepted
              then no_data
              else if not (is_empty p.state.except_handling_jmps)
              then no_data
              else record {
                read_only_data = layout.read_only_data;
                code = record {
                  bytes_size = length p.result * operation_size;
                  byte = code_byte padding p.result;
                };
                aligned_rod_size = aligned;
                vm_type = 1;
              })
    ]

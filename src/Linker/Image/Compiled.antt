-- ===== src/Linker/Image/Compiled.antt =====
-- HandleModule on the file that the compiler has written for the module.
use malachite_scripting_lang.Prelude.{
  ℕ, ◌<◌, ◌^◌, ◌+◌, ◌≡◌, refl, Bool, true, false, some, List, [], length, All, if◌then◌else◌,
}
use malachite_scripting_lang.Outcome.{Outcome, ok, throws, undefined, ◌>>=◌, Returns, Returns-bind}
use malachite_scripting_lang.Vm.Definitions.{u64}
use malachite_scripting_lang.Buffer.{StaticBpointer}
use malachite_scripting_lang.Linker.Definitions.{ByteCommand, CommandsPool, LinkingState}
use malachite_scripting_lang.Linker.Objects.Code.{deserialize_co}
use malachite_scripting_lang.Linker.Translator.{handle_commands}
use malachite_scripting_lang.Linker.Translator.Emission.{Progress}
use malachite_scripting_lang.Linker.Translator.TwoPass.{Resolved, Placed, emit_all}
use malachite_scripting_lang.Linker.Translator.TwoPass.Refinement.{
  no_labels, handle_commands-emit_all,
}
use malachite_scripting_lang.Linker.Image.{handle_module}
use malachite_scripting_lang.Compiler.Packer.{byterize_commands}
use malachite_scripting_lang.Compiler.Packer.CommandFields.{IsCommand}
use malachite_scripting_lang.Compiler.Packer.Commands.{deserialize_co-byterize_commands}

-- What HandleModule does behind the commands.
abbrev behind : ℕ → Bool × Progress → Outcome (Bool × Progress)
behind stack_size (accepted, p) = ok (
  accepted,
  if accepted
      then record p {
        state = record p.state {
          global_memory_offset = u64 (p.state.global_memory_offset + stack_size);
        };
      }
      else p,
)

handle_module-read :
    (m : Outcome StaticBpointer) (pool : CommandsPool) (m_id : ℕ) (p : Progress)
    → (m >>= λ file. deserialize_co (some file)) ≡ ok (some pool)
    → (m >>= λ file. handle_module (some file) m_id p)
      ≡ (handle_commands m_id pool.commands p >>= behind pool.stack_size)
unfolding handle_module
handle_module-read (ok file) pool m_id p e = rw e refl
handle_module-read (throws x) pool m_id p e = cc e
handle_module-read undefined pool m_id p e = cc e

-- Commands within the C++ types, fewer than 2 ^ 50, are written by ByterizeCommands and translated by
-- HandleModule. Where their arguments resolve, every label is placed just at the address that `target`
-- says, and no label is known and no jump waits before, HandleModule always returns, and it accepts
-- them just when each is accepted by itself; if no jump waits in the end, the operations are those of
-- each command of the compiler by itself with every jump aimed at its label's address.
pub handle_module-byterize_commands :
    (target : ℕ → ℕ) (state : LinkingState) (m_id flags stack_size : ℕ)
    (commands resolved : List ByteCommand)
    → flags < 2 ^ 16
    → stack_size < 2 ^ 64
    → length commands < 2 ^ 50
    → All IsCommand commands
    → Resolved (no_labels state) m_id commands resolved
    → Placed target 0 resolved
    → Returns
        (λ (answer : Bool × Progress).
          (answer.0 ≡ (emit_all target resolved).0)
          × (answer.1.state.except_handling_jmps ≡ []
              → answer.1.result ≡ (emit_all target resolved).1))
        (byterize_commands flags stack_size commands >>= λ file.
          handle_module (some file) m_id (record { state = no_labels state; result = [] }))
handle_module-byterize_commands target state m_id flags stack_size commands resolved f16 s64 few
      fits h placed =
    rw
      (handle_module-read (byterize_commands flags stack_size commands) _ m_id
        (record { state = no_labels state; result = [] })
        (deserialize_co-byterize_commands flags stack_size commands f16 s64 few fits))
      (Returns-bind _ _ (handle_commands m_id commands _) (behind stack_size)
        (handle_commands-emit_all target state m_id commands resolved h placed)
        λ (accepted, p) said. by accepted p said)
  where
    by :
        (accepted : Bool) (p : Progress)
        → (accepted ≡ (emit_all target resolved).0)
          × (p.state.except_handling_jmps ≡ [] → p.result ≡ (emit_all target resolved).1)
        → Returns
            (λ (answer : Bool × Progress).
              (answer.0 ≡ (emit_all target resolved).0)
              × (answer.1.state.except_handling_jmps ≡ []
                  → answer.1.result ≡ (emit_all target resolved).1))
            (behind stack_size (accepted, p))
    by true p said = said
    by false p said = said

-- ===== src/Linker/Translator/Arguments.antt =====
-- `checking` of TranslatorVM_1::HandleCommand: addresses for symbols, constants and the offsets in a
-- module's stack.
use malachite_scripting_lang.Prelude.{ℕ, ◌+◌, get_elem?}
use malachite_scripting_lang.Outcome.{Outcome, ok, defined, ◌>>=◌}
use malachite_scripting_lang.Vm.Definitions.{u64}
use malachite_scripting_lang.Linker.Definitions.{
  CommandSource, CommandArgument, ByteCommand, SymbolType, SymbolData, LinkingState, memory_address,
  immediate, constant, symbol,
}

-- The argument that names a symbol: only variables and functions have an address. To read the one of a
-- function before it is initialised has no meaning.
abbrev pub symbol_address :
    LinkingState → SymbolType → SymbolData → CommandArgument → Outcome CommandArgument
symbol_address state SymbolType.variable info arg = ok (record {
  data_word = u64 (state.stack_offset_of_module info.module_id + info.offset_m_c);
  type = memory_address;
})
symbol_address state SymbolType.function info arg = defined info.native_code_offset >>= λ offset.
    ok (record { data_word = offset; type = immediate })
symbol_address state _ info arg = ok arg

-- By the type of the argument. A symbol or a constant that the tables do not have is an index
-- outside a vector: the message about it does not stop the code.
abbrev pub resolve_by : CommandSource → LinkingState → ℕ → CommandArgument → Outcome CommandArgument
resolve_by symbol state m_id arg = defined (get_elem? state.symbols arg.data_word) >>= λ info.
    symbol_address state info.type info arg
resolve_by memory_address state m_id arg =
    ok (record arg { data_word = u64 (state.stack_offset_of_module m_id + arg.data_word) })
resolve_by constant state m_id arg = defined (get_elem? state.constants arg.data_word) >>= λ found.
    ok (record { data_word = found.memory_offset; type = memory_address })
resolve_by _ state m_id arg = ok arg

-- `checking`
unfoldable pub resolve : LinkingState → ℕ → CommandArgument → Outcome CommandArgument
resolve state m_id arg = resolve_by arg.type state m_id arg

-- The three calls of `checking`.
unfoldable pub resolve_command : LinkingState → ℕ → ByteCommand → Outcome ByteCommand
unfolding resolve
resolve_command state m_id command = resolve state m_id command.arg0 >>= λ arg0.
    resolve state m_id command.arg1 >>= λ arg1. resolve state m_id command.arg2 >>= λ arg2.
    ok (record command { arg0 = arg0; arg1 = arg1; arg2 = arg2 })

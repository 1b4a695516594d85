-- ===== src/Compiler/Tests.antt =====
-- The compiler's parts on concrete input, and instances of the theorems about them.
use malachite_scripting_lang.Prelude.{
  ℕ, zero, suc, ◌+◌, ◌*◌, ◌≡◌, refl, arith, true, false, Option, none, some, List, [], ◌∷◌, length,
  get_elem?,
}
use malachite_scripting_lang.Outcome.{ok, throws, undefined, ◌>>=◌, Returns, index_out_of_bounds}
use malachite_scripting_lang.Linker.OpCode.{ByteOpCode}
use malachite_scripting_lang.Linker.Definitions.{
  CommandSource, ByteCommand, SymbolType, LinkingState,
}
use malachite_scripting_lang.Linker.Objects.{deserialize_mo}
use malachite_scripting_lang.Linker.Objects.Code.{deserialize_co}
use malachite_scripting_lang.Compiler.UnhandledSymbols
use malachite_scripting_lang.Compiler.UnhandledSymbols.{
  empty_table, add_unhandled_symbol, get_unhandled_symbol,
}
use malachite_scripting_lang.Compiler.UnhandledSymbols.Numbering.{
  IsNumbered, entry_of, add_unhandled_symbol-numbers,
}
use malachite_scripting_lang.Compiler.ChunkArray.{
  ChunkArray, empty_array, cell, get, popback, pushback, pushback_array, copy,
}
use malachite_scripting_lang.Compiler.ChunkArray.Laws.{
  Represents, pushback-Represents, popback-Represents, get-Represents,
}
use malachite_scripting_lang.Compiler.ChunkArray.Blocks.{
  pushback_array-Represents, pushback_array-no_room, copy-Represents,
}
use malachite_scripting_lang.Compiler.Packer.{byterize_commands, files_version, command_size}
use malachite_scripting_lang.Compiler.Packer.Commands.{deserialize_co-byterize_commands}
use malachite_scripting_lang.Compiler.Packer.State.{PackedConstant, PackedSymbol, byterize_state}
use malachite_scripting_lang.Compiler.Packer.State.Reading.{symbols_from, SameConstants}
use malachite_scripting_lang.Compiler.Packer.State.RoundTrip.{deserialize_mo-byterize_state}

-- One command, with arguments of three kinds.
abbrev adding : List ByteCommand
adding =
    record {
      code = ByteOpCode.addi;
      arg0 = record { data_word = 3; type = CommandSource.register };
      arg1 = record { data_word = 0x1_0000_0000; type = CommandSource.immediate };
      arg2 = record { data_word = 2; type = CommandSource.symbol };
      flags = 1;
      source_line = 12;
    }
    ∷ []

deserialize_co-byterize_commands_example :
    (byterize_commands 5 64 adding >>= λ file. deserialize_co (some file))
    ≡ ok (
        some (record {
          commands = adding;
          version = files_version;
          compilation_flags = 5;
          code_size_in_bytes = length adding * command_size;
          stack_size = 64;
          m_id = 65535;
        }))
deserialize_co-byterize_commands_example =
    deserialize_co-byterize_commands 5 64 adding (omega arith) (omega arith) (omega arith) (
      record {
        listed = tt;
        first = record { source = tt; word = omega arith };
        second = record { source = tt; word = omega arith };
        third = record { source = tt; word = omega arith };
        flags_fit = omega arith;
        line_fits = omega arith;
      },
      tt,
    )

-- Two modules, a constant of three bytes, a function and a variable.
abbrev constants : List PackedConstant
constants = record { data_size = 3; data_word = 0x43_42_41 } ∷ []

abbrev symbols : List PackedSymbol
symbols =
    record { symbol_type = SymbolType.function; offset = 36; module_id = 1 }
    ∷ record { symbol_type = SymbolType.variable; offset = 8; module_id = 0 }
    ∷ []

deserialize_mo-byterize_state_example :
    Returns
      (λ (answer : Option LinkingState).
        (state : LinkingState) × (answer ≡ some state)
        × (state.linking_order ≡ 1 ∷ 0 ∷ [])
        × (state.symbols ≡ symbols_from 0 symbols)
        × SameConstants 0 constants state.constants)
      (byterize_state 5 (1 ∷ 0 ∷ []) constants symbols >>= λ b. deserialize_mo true (some b))
deserialize_mo-byterize_state_example =
    deserialize_mo-byterize_state 5 (1 ∷ 0 ∷ []) constants symbols
      (record {
        flags_fit = omega arith;
        ids_fit = (omega arith, (omega arith, tt));
        data_fit = (omega arith, tt);
        places_fit = ((omega arith, omega arith), ((omega arith, omega arith), tt));
        placed = (tt, (tt, tt));
        small = omega arith;
      })
      true

-- An array with the elements 4 and 5 in one chunk.
abbrev ones : ℕ → ℕ
ones i = 1

abbrev two : ChunkArray ℕ
two = record { chunks = (λ i. 4 + i) ∷ []; size = 2 }

two-holds :
    (k x : ℕ) → get_elem? (4 ∷ 5 ∷ []) k ≡ some x → cell {A = ℕ} ((λ i. 4 + i) ∷ []) k ≡ ok x
unfolding cell
two-holds zero x e = cc e
two-holds (suc zero) x e = cc e
two-holds (suc (suc k)) x e = cc e

two-Represents : Represents (4 ∷ 5 ∷ []) two
two-Represents = record { size_is = refl; room = omega arith; holds = two-holds }

pushback-Represents_example : Returns (Represents (4 ∷ 5 ∷ 6 ∷ [])) (pushback ones 6 two)
pushback-Represents_example = pushback-Represents ones 6 (4 ∷ 5 ∷ []) two two-Represents

-- The second element of a chunk, of a type that is not POD.
popback-Represents_example : Returns (Represents (4 ∷ [])) (popback false 0 two)
popback-Represents_example = popback-Represents false 0 5 (4 ∷ []) two two-Represents refl

-- The first one of its chunk.
abbrev one : ChunkArray ℕ
one = record { chunks = (λ i. 4 + i) ∷ []; size = 1 }

get-Represents_example :
    get 1 two
    ≡ elim (get_elem? {A = ℕ} (4 ∷ 5 ∷ []) 1) [ none ↦ throws index_out_of_bounds | some x ↦ ok x ]
get-Represents_example = get-Represents 1 (4 ∷ 5 ∷ []) two two-Represents

pushback_array-Represents_example :
    Returns (Represents (4 ∷ 5 ∷ 4 ∷ 5 ∷ [])) (pushback_array two two)
pushback_array-Represents_example =
    pushback_array-Represents (4 ∷ 5 ∷ []) (4 ∷ 5 ∷ []) two two two-Represents two-Represents
      (omega arith)

pushback_array-no_room_example : pushback_array two empty_array ≡ undefined
pushback_array-no_room_example = pushback_array-no_room 4 (5 ∷ []) two two-Represents

copy-Represents_example : Returns (Represents (4 ∷ 5 ∷ [])) (copy ones two)
copy-Represents_example = copy-Represents ones (4 ∷ 5 ∷ []) two two-Represents

-- A function is numbered in a table that has none.
empty_table-IsNumbered : IsNumbered empty_table
empty_table-IsNumbered symbol_type desc_id global_id e = cc e

add_unhandled_symbol-numbers_example :
    IsNumbered (add_unhandled_symbol UnhandledSymbols.SymbolType.function 4 2 empty_table).1
    × (get_unhandled_symbol
          (add_unhandled_symbol UnhandledSymbols.SymbolType.function 4 2 empty_table).0
          (add_unhandled_symbol UnhandledSymbols.SymbolType.function 4 2 empty_table).1
        ≡ some (
            entry_of
              (add_unhandled_symbol UnhandledSymbols.SymbolType.function 4 2 empty_table).0
              UnhandledSymbols.SymbolType.function
              4))
    × ((other_module : ℕ)
        → add_unhandled_symbol UnhandledSymbols.SymbolType.function 4 other_module
            (add_unhandled_symbol UnhandledSymbols.SymbolType.function 4 2 empty_table).1
          ≡ add_unhandled_symbol UnhandledSymbols.SymbolType.function 4 2 empty_table)
add_unhandled_symbol-numbers_example =
    add_unhandled_symbol-numbers empty_table empty_table-IsNumbered
      UnhandledSymbols.SymbolType.function 4 2 (omega arith)

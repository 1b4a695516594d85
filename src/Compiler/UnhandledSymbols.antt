-- ===== src/Compiler/UnhandledSymbols.antt =====
-- The unhandled symbols of GlobalSymbolTable, in MSLC/source/CompilationInfo/CompilationState.cpp:
-- the numbers that functions and variables get for the linker. A hash map is a list of labelled
-- entries.
pub mod Numbering
use malachite_scripting_lang.Prelude.{
  ℕ, ◌+◌, ◌==◌, ◌&&◌, Option, none, some, Bool, List, [], ◌∷◌, length, if◌then◌else◌,
}
use malachite_scripting_lang.Vm.Definitions.{u64}
use malachite_scripting_lang.Linker.Definitions.{Labelled}
use malachite_scripting_lang.Linker.Translator.Flow.{find, assign}

-- SymbolType of the compiler.
pub data SymbolType : Type 0 where
  undefined variable type function namespace : SymbolType

-- The value of an enumerator.
abbrev pub type_index : SymbolType → ℕ
type_index SymbolType.undefined = 0
type_index SymbolType.variable = 1
type_index SymbolType.type = 2
type_index SymbolType.function = 3
type_index SymbolType.namespace = 4

pub record UnhandledSymbol : Type 0 where
  pub global_id : ℕ
  pub symbol_type : SymbolType
  pub desc_id : ℕ
  pub module_id : ℕ

-- An entry of local_desc_to_global_id.
pub record NumberedSymbol : Type 0 where
  pub symbol_type : SymbolType
  pub desc_id : ℕ
  pub global_id : ℕ

-- The part of GlobalSymbolTable that is about unhandled symbols.
pub record UnhandledSymbolTable : Type 0 where
  pub local_desc_to_global_id : List NumberedSymbol
  pub unhandled_symbols : List (Labelled UnhandledSymbol)
  pub global_us_id : ℕ

abbrev pub empty_table : UnhandledSymbolTable
empty_table = record { local_desc_to_global_id = []; unhandled_symbols = []; global_us_id = 0 }

-- `==` of the pairs that are the keys.
abbrev pub has_key : SymbolType → ℕ → NumberedSymbol → Bool
has_key symbol_type desc_id entry =
    (type_index entry.symbol_type == type_index symbol_type) && (entry.desc_id == desc_id)

-- `local_desc_to_global_id.find({ type, desc_id })`
abbrev pub find_number : SymbolType → ℕ → List NumberedSymbol → Option ℕ
find_number symbol_type desc_id [] = none
find_number symbol_type desc_id (entry ∷ entries) =
    if has_key symbol_type desc_id entry
    then some entry.global_id
    else find_number symbol_type desc_id entries

-- AddUnhandledSymbol where the key is new. The symbol is stored before its module is set, in a copy,
-- so the entry keeps the module 0 of the record's default.
unfoldable pub add_new_symbol : SymbolType → ℕ → ℕ → UnhandledSymbolTable → ℕ × UnhandledSymbolTable
add_new_symbol symbol_type desc_id current_module t =
    let symbol : UnhandledSymbol = record {
      global_id = t.global_us_id;
      symbol_type = symbol_type;
      desc_id = desc_id;
      module_id = 0;
    } in
    let number : NumberedSymbol = record {
      symbol_type = symbol_type;
      desc_id = desc_id;
      global_id = symbol.global_id;
    } in
    (
      symbol.global_id,
      record {
        local_desc_to_global_id = number ∷ t.local_desc_to_global_id;
        unhandled_symbols = assign symbol.global_id symbol t.unhandled_symbols;
        global_us_id = u64 (t.global_us_id + 1);
      },
    )

-- AddUnhandledSymbol
unfoldable pub add_unhandled_symbol :
    SymbolType → ℕ → ℕ → UnhandledSymbolTable → ℕ × UnhandledSymbolTable
unfolding add_new_symbol
add_unhandled_symbol symbol_type desc_id current_module t =
    elim (find_number symbol_type desc_id t.local_desc_to_global_id) [
      | some global_id ↦ (global_id, t)
      | none ↦ add_new_symbol symbol_type desc_id current_module t
    ]

-- GetUnhandledSymbol
abbrev pub get_unhandled_symbol : ℕ → UnhandledSymbolTable → Option UnhandledSymbol
get_unhandled_symbol global_id t = find global_id t.unhandled_symbols

-- GetUnhandledSymbolsCount
abbrev pub get_unhandled_symbols_count : UnhandledSymbolTable → ℕ
get_unhandled_symbols_count t = length t.unhandled_symbols

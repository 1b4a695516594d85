-- ===== src/Compiler/Packer/State.antt =====
-- Packer::ByterizeCompilationState of MSLC/source/Packing/Packer.cpp: the main object file. Modules are
-- given by the preprocessor's order, constants and symbols by the compilation state.
pub mod Reading
pub mod Fits
pub mod Sections
pub mod RoundTrip
use malachite_scripting_lang.Prelude.{ℕ, ◌+◌, ◌*◌, List, [], ◌∷◌, ◌++◌, length}
use malachite_scripting_lang.Outcome.{Outcome, ok, ◌>>=◌}
use malachite_scripting_lang.Buffer.{StaticBpointer, copy_to, bytes_of, Cursor, Field, write_fields}
use malachite_scripting_lang.Linker.Definitions.{SymbolType}

abbrev pub mo_header_reserved_size : ℕ
mo_header_reserved_size = 500

abbrev pub mo_magic : ℕ
mo_magic = 0x4f_4d_4c_53_4d

abbrev pub files_version : ℕ
files_version = 0x3f80_0000

-- "mslmodule" and "mslco", the lowest byte first; the zeros that fill the arrays follow.
abbrev pub module_prefix : ℕ
module_prefix = 0x65_6c_75_64_6f_6d_6c_73_6d

abbrev pub module_extension : ℕ
module_extension = 0x6f_63_6c_73_6d

-- A constant of the table: `GetDataSize()` bytes, here as the number with these bytes, the lowest first.
pub record PackedConstant : Type 0 where
  pub data_size : ℕ
  pub data_word : ℕ

-- An unhandled symbol, with what the global table knows of its function (`start_byte_ip`) or variable
-- (`global_stack_offset`), and of its module.
pub record PackedSymbol : Type 0 where
  pub symbol_type : SymbolType
  pub offset : ℕ
  pub module_id : ℕ

abbrev pub field : ℕ → ℕ → Field
field word width = record { word = word; width = width }

-- The value of an enumerator of SymbolType.
unfoldable pub type_value : SymbolType → ℕ
type_value SymbolType.undefined = 0
type_value SymbolType.variable = 1
type_value SymbolType.type = 2
type_value SymbolType.function = 3
type_value SymbolType.namespace = 4
type_value (SymbolType.other byte) = byte

-- WriteSectionInfo
abbrev pub section_fields : ℕ → ℕ → ℕ → List Field
section_fields type offset size = field type 1 ∷ field offset 8 ∷ field size 8 ∷ []

-- The loop over the linking order.
unfoldable pub order_fields : List ℕ → List Field
order_fields [] = []
order_fields (m_id ∷ m_ids) = field m_id 2 ∷ order_fields m_ids

-- The loop over the constants from number `i` on: id, size and data.
unfoldable pub constant_fields : ℕ → List PackedConstant → List Field
constant_fields i [] = []
constant_fields i (c ∷ cs) =
    field i 8 ∷ field c.data_size 8 ∷ field c.data_word c.data_size ∷ constant_fields (i + 1) cs

-- What the switch writes: functions and variables have an offset and a module, others nothing.
unfoldable pub place_fields : SymbolType → PackedSymbol → List Field
place_fields SymbolType.function s = field s.offset 8 ∷ field s.module_id 2 ∷ []
place_fields SymbolType.variable s = field s.offset 8 ∷ field s.module_id 2 ∷ []
place_fields _ s = []

-- The loop over the symbols from number `i` on.
unfoldable pub symbol_fields : ℕ → List PackedSymbol → List Field
unfolding place_fields type_value
symbol_fields i [] = []
symbol_fields i (s ∷ ss) =
    field i 8
    ∷ (place_fields s.symbol_type s
        ++ field (type_value s.symbol_type) 1 ∷ symbol_fields (i + 1) ss)

-- The sizes of the sections.
abbrev pub order_size : List ℕ → ℕ
order_size m_ids = length m_ids * 2

abbrev pub constants_size : List PackedConstant → ℕ
constants_size [] = 0
constants_size (c ∷ cs) = 16 + c.data_size + constants_size cs

abbrev pub symbols_size : List PackedSymbol → ℕ
symbols_size ss = length ss * 19

-- ByterizeCompilationState; 100 bytes are kept for the debug section.
unfoldable pub byterize_state :
    ℕ → List ℕ → List PackedConstant → List PackedSymbol → Outcome StaticBpointer
unfolding write_fields order_fields constant_fields symbol_fields
byterize_state compilation_flags m_ids cs ss = do
  let constants_offset = mo_header_reserved_size + order_size m_ids
  let symbols_offset = constants_offset + constants_size cs
  let debug_offset = symbols_offset + symbols_size ss
  let size_of_data = debug_offset + 100
  let allocated : Cursor = record {
    size = size_of_data;
    offset = 5;
    memory = copy_to 0 5 (bytes_of mo_magic) (λ a. 0);
  }
  header ←
      write_fields
        (field files_version 4
          ∷ field compilation_flags 2
          ∷ field module_prefix 32
          ∷ field module_extension 10
          ∷ (section_fields 14 mo_header_reserved_size (order_size m_ids)
              ++ section_fields 15 constants_offset (constants_size cs)
              ++ section_fields 16 symbols_offset (symbols_size ss)
              ++ section_fields 17 debug_offset 100))
        allocated
  ordered ← write_fields (order_fields m_ids) (record header { offset = mo_header_reserved_size })
  with_constants ← write_fields (constant_fields 0 cs) ordered
  with_symbols ← write_fields (symbol_fields 0 ss) with_constants
  ok (record { bytes_size = size_of_data; byte = with_symbols.memory })

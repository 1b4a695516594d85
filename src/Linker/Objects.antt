-- ===== src/Linker/Objects.antt =====
-- ObjectsReader of MSLL/source/ObjectsReading/ObjectsReader.cpp: the main object file, byte for byte.
-- A read outside the file's bytes has no meaning; a null pointer is `none`. The strings of the module
-- files' names are left out: the files are given by the modules' ids.
pub mod Code
use malachite_scripting_lang.Prelude.{
  ℕ, zero, suc, ◌+◌, ◌-◌, ◌*◌, ◌/◌, Bool, true, false, not, ◌||◌, Option, none, some, List, [], ◌∷◌,
  ◌++◌, leb, ltb, ◌==◌, if◌then◌else◌,
}
use malachite_scripting_lang.Prelude.Bytes.{bytes_value}
use malachite_scripting_lang.Outcome.{Outcome, ok, undefined, ◌>>=◌}
use malachite_scripting_lang.Vm.Definitions.{u64}
use malachite_scripting_lang.Buffer.{StaticBpointer, read_fields}
use malachite_scripting_lang.Linker.Definitions.{
  SymbolType, SymbolData, ConstantData, LinkingState, default_alignment,
}

-- mo_header_reserved_size
abbrev pub mo_header_reserved_size : ℕ
mo_header_reserved_size = 500

-- "MSLMO", the lowest byte first
abbrev pub mo_magic : ℕ
mo_magic = 0x4f_4d_4c_53_4d

-- `LinkingState()`; `compilation_flags` is read from the file.
abbrev pub new_state : Bool → LinkingState
new_state alignment = record {
  constants = [];
  constants_size = 0;
  symbols = [];
  linking_order = [];
  stack_offset_of_module = λ id. 0;
  global_memory_offset = 0;
  rod_offset_aligned = 0;
  compilation_flags = 0;
  version = 0;
  using_constant_alignment = alignment;
  label_jmp_ip = [];
  except_handling_jmps = [];
}

-- Loops over a section, from `offset` up to `end`. Each round reads at least 2 bytes of the buffer, so
-- that one more round than the buffer has bytes is never begun.
module _ (b : StaticBpointer) where
  -- The loop of HandleLOSection.
  unfoldable pub read_order : ℕ → ℕ → ℕ → Outcome (List ℕ)
  unfolding read_fields
  read_order zero offset end = undefined
  read_order (suc rounds) offset end = elim (ltb offset end) [
    | false ↦ ok []
    | true ↦ read_fields b offset (2 ∷ []) >>= λ words.
        read_order rounds (offset + 2) end >>= λ rest. ok (words ++ rest)
  ]

  -- `((data_size + DefaultAlignment - 1) / DefaultAlignment) * DefaultAlignment`
  abbrev pub aligned_size : ℕ → ℕ
  aligned_size size =
      u64 (u64 (size + (default_alignment - 1)) / default_alignment * default_alignment)

  -- A constant of which the header is read: its bytes follow. Its place is set later; until then it is
  -- what the memory held.
  unfoldable pub constant_at : Bool → ℕ → List ℕ → Outcome ConstantData
  constant_at alignment offset (c_id ∷ data_size ∷ []) =
      if leb (offset + data_size) b.bytes_size
      then ok (record {
        id = c_id;
        real_size_in_bytes = data_size;
        using_size_in_bytes = if alignment then aligned_size data_size else data_size;
        data_bytes = λ i. b.byte (offset + i);
        memory_offset = 0;
      })
      else undefined
  constant_at alignment offset _ = undefined

  -- The loop of HandleConstantsSection.
  unfoldable pub read_constants : Bool → ℕ → ℕ → ℕ → Outcome (List ConstantData)
  unfolding read_fields constant_at
  read_constants alignment zero offset end = undefined
  read_constants alignment (suc rounds) offset end = elim (ltb offset end) [
    | false ↦ ok []
    | true ↦ read_fields b offset (8 ∷ 8 ∷ []) >>= λ words.
        constant_at alignment (offset + 16) words >>= λ c.
        read_constants alignment rounds (offset + 16 + c.real_size_in_bytes) end >>= λ rest.
        ok (c ∷ rest)
  ]

  -- The enumerator of SymbolType that a byte stands for.
  unfoldable pub symbol_type : ℕ → SymbolType
  symbol_type byte =
      if byte == 0
      then SymbolType.undefined
      else if byte == 1
      then SymbolType.variable
      else if byte == 2
      then SymbolType.type
      else if byte == 3
      then SymbolType.function
      else if byte == 4
      then SymbolType.namespace
      else SymbolType.other byte

  unfoldable pub symbol_of : List ℕ → Outcome SymbolData
  unfolding symbol_type
  symbol_of (s_id ∷ offset_in_code_base ∷ module_id ∷ stype ∷ []) = ok (record {
    id = s_id;
    offset_m_c = offset_in_code_base;
    native_code_offset = none;
    module_id = module_id;
    type = symbol_type stype;
  })
  symbol_of _ = undefined

  -- The loop of HandleSymbolSection.
  unfoldable pub read_symbols : ℕ → ℕ → ℕ → Outcome (List SymbolData)
  unfolding read_fields symbol_of
  read_symbols zero offset end = undefined
  read_symbols (suc rounds) offset end = elim (ltb offset end) [
    | false ↦ ok []
    | true ↦ read_fields b offset (8 ∷ 8 ∷ 2 ∷ 1 ∷ []) >>= λ words.
        symbol_of words >>= λ s. read_symbols rounds (offset + 19) end >>= λ rest. ok (s ∷ rest)
  ]

-- `constants_size` grows by what each constant uses.
abbrev pub add_sizes : ℕ → List ConstantData → ℕ
add_sizes size [] = size
add_sizes size (c ∷ cs) = add_sizes (u64 (size + c.using_size_in_bytes)) cs

-- HandleLOSection, HandleConstantsSection and HandleSymbolSection, which fill the state.
module _ (b : StaticBpointer) (section_offset section_size : ℕ) (state : LinkingState) where
  unfoldable pub handle_lo_section : Outcome LinkingState
  unfolding read_order
  handle_lo_section =
      read_order b (suc b.bytes_size) section_offset (u64 (section_offset + section_size))
      >>= λ ids. ok (record state { linking_order = state.linking_order ++ ids })

  unfoldable pub handle_constants_section : Outcome LinkingState
  unfolding read_constants
  handle_constants_section =
      read_constants b state.using_constant_alignment (suc b.bytes_size) section_offset
        (u64 (section_offset + section_size))
      >>= λ cs. ok (record state {
        constants = state.constants ++ cs;
        constants_size = add_sizes state.constants_size cs;
      })

  unfoldable pub handle_symbol_section : Outcome LinkingState
  unfolding read_symbols
  handle_symbol_section =
      read_symbols b (suc b.bytes_size) section_offset (u64 (section_offset + section_size))
      >>= λ ss. ok (record state { symbols = state.symbols ++ ss })

-- The switch over the sections: LINKING_ORDER, CONSTANTS and SYMBOLS; others are passed over.
unfoldable pub handle_section : StaticBpointer → ℕ → ℕ → ℕ → LinkingState → Outcome LinkingState
unfolding handle_lo_section handle_constants_section handle_symbol_section
handle_section b type section_offset section_size state =
    if type == 14
    then handle_lo_section b section_offset section_size state
    else if type == 15
    then handle_constants_section b section_offset section_size state
    else if type == 16
    then handle_symbol_section b section_offset section_size state
    else ok state

-- One round over the section table, whose entry ends at `offset`. The size, but not the offset of the
-- section is compared with the size of the file.
unfoldable pub section_of :
    StaticBpointer → ℕ → List ℕ → LinkingState → Outcome (Option LinkingState)
unfolding handle_section
section_of b offset (type ∷ section_offset ∷ section_size ∷ []) state =
    if ltb b.bytes_size (u64 (offset + section_size))
    then ok none
    else (handle_section b type section_offset section_size state >>= λ state'. ok (some state'))
section_of b offset _ state = undefined

-- The loop over the entries of the section table.
unfoldable pub read_sections : StaticBpointer → ℕ → ℕ → LinkingState → Outcome (Option LinkingState)
unfolding read_fields section_of
read_sections b zero offset state = ok (some state)
read_sections b (suc count) offset state = read_fields b offset (1 ∷ 8 ∷ 8 ∷ []) >>= λ words.
    section_of b (offset + 17) words state >>= λ handled. elim handled [
      | none ↦ ok none
      | some state' ↦ read_sections b count (offset + 17) state'
    ]

-- The version and the flags, and then the sections behind the two strings.
unfoldable pub state_of : Bool → StaticBpointer → List ℕ → Outcome (Option LinkingState)
unfolding read_sections
state_of alignment b (version ∷ flags ∷ []) =
    read_sections b 4 53
      (record (new_state alignment) { version = version; compilation_flags = flags })
state_of alignment b _ = undefined

-- DeserializeMO. Another version is only reported. `using_constant_alignment` is set in the end; here it
-- is there from the beginning, for the reader's own flag, which is the same.
unfoldable pub deserialize_mo : Bool → Option StaticBpointer → Outcome (Option LinkingState)
unfolding read_fields state_of
deserialize_mo alignment none = ok none
deserialize_mo alignment (some b) =
    if (b.bytes_size == 0) || ltb b.bytes_size mo_header_reserved_size
    then ok none
    else if not (bytes_value b.byte 0 5 == mo_magic)
    then ok none
    else (read_fields b 5 (4 ∷ 2 ∷ []) >>= state_of alignment b)

-- ===== src/Linker/Definitions.antt =====
-- MSLL/include/ObjectsReading/LinkDefinitions.hpp: byte commands, symbols, constants and the state
-- of the linking; bytes in memory.
use malachite_scripting_lang.Prelude.{ℕ, Bool, Option, List}
use malachite_scripting_lang.Buffer.{StaticBpointer, allocate}
use malachite_scripting_lang.Linker.OpCode.{ByteOpCode}

-- CommandSource; `other` is a byte of an object file that is no enumerator.
pub data CommandSource : Type 0 where
  register memory_address immediate constant symbol : CommandSource
  other : ℕ → CommandSource

pub record CommandArgument : Type 0 where
  pub data_word : ℕ
  pub type : CommandSource

-- ByteCommand
pub record ByteCommand : Type 0 where
  pub code : ByteOpCode
  pub arg0 : CommandArgument
  pub arg1 : CommandArgument
  pub arg2 : CommandArgument
  pub flags : ℕ
  pub source_line : ℕ

pub data SymbolType : Type 0 where
  undefined variable type function namespace : SymbolType
  other : ℕ → SymbolType

pub record SymbolData : Type 0 where
  pub id : ℕ
  pub offset_m_c : ℕ
  -- `none` where it is not initialised: the constructor leaves it out, and no code of the linker sets it.
  pub native_code_offset : Option ℕ
  pub module_id : ℕ
  pub type : SymbolType

-- ConstantData; `data` points to `real_size_in_bytes` bytes.
pub record ConstantData : Type 0 where
  pub id : ℕ
  pub real_size_in_bytes : ℕ
  pub using_size_in_bytes : ℕ
  pub data_bytes : ℕ → ℕ
  pub memory_offset : ℕ

-- A jump label and what is known of it: its address, or the jumps that wait for it.
pub record Labelled {ℓ} (A : Type ℓ) : Type ℓ where
  pub label : ℕ
  pub known : A

-- LinkingState, without what only the driver reads. The two hash maps over labels are lists of
-- entries; the one over modules is a function, which `operator[]` makes of it: 0 where nothing was
-- entered.
pub record LinkingState : Type 0 where
  pub constants : List ConstantData
  pub constants_size : ℕ
  pub symbols : List SymbolData
  pub linking_order : List ℕ
  pub stack_offset_of_module : ℕ → ℕ
  pub global_memory_offset : ℕ
  pub rod_offset_aligned : ℕ
  pub compilation_flags : ℕ
  pub version : ℕ
  pub using_constant_alignment : Bool
  pub label_jmp_ip : List (Labelled ℕ)
  pub except_handling_jmps : List (Labelled (List ℕ))

-- CommandsPool; a version is the word of a `float`.
pub record CommandsPool : Type 0 where
  pub commands : List ByteCommand
  pub version : ℕ
  pub compilation_flags : ℕ
  pub code_size_in_bytes : ℕ
  pub stack_size : ℕ
  pub m_id : ℕ

-- ExecutionData; the type of the machine is 1, MSLVM_1.
pub record ExecutionData : Type 0 where
  pub read_only_data : StaticBpointer
  pub code : StaticBpointer
  pub aligned_rod_size : ℕ
  pub vm_type : ℕ

-- `ExecutionData()`
abbrev pub no_data : ExecutionData
no_data = record {
  read_only_data = allocate 0;
  code = allocate 0;
  aligned_rod_size = 0;
  vm_type = 1;
}

-- DefaultAlignment
abbrev pub default_alignment : ℕ
default_alignment = 8

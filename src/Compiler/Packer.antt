-- ===== src/Compiler/Packer.antt =====
-- MSLC/source/Packing/Packer.cpp: ByterizeCommands. The types of the byte commands are written down
-- twice in the source, for the compiler and for the linker, with the same enumerators and fields.
pub mod CommandFields
pub mod Commands
pub mod State
use malachite_scripting_lang.Prelude.{ℕ, ◌+◌, ◌*◌, List, [], ◌∷◌, length}
use malachite_scripting_lang.Outcome.{Outcome, ok, ◌>>=◌}
use malachite_scripting_lang.Buffer.{StaticBpointer, copy_to, bytes_of, Cursor, Field, write_fields}
use malachite_scripting_lang.Linker.OpCode.{value}
use malachite_scripting_lang.Linker.Definitions.{CommandSource, ByteCommand}

-- FilesVersion, the word of the `float` 1.
abbrev pub files_version : ℕ
files_version = 0x3f80_0000

abbrev pub command_size : ℕ
command_size = 36

abbrev pub co_header_reserved_size : ℕ
co_header_reserved_size = 100

abbrev pub co_magic : ℕ
co_magic = 0x4f_43_4c_53_4d

-- The value of an enumerator of CommandSource.
unfoldable pub source_value : CommandSource → ℕ
source_value CommandSource.register = 1
source_value CommandSource.memory_address = 2
source_value CommandSource.immediate = 3
source_value CommandSource.constant = 4
source_value CommandSource.symbol = 5
source_value (CommandSource.other byte) = byte

abbrev pub field : ℕ → ℕ → Field
field word width = record { word = word; width = width }

-- The nine calls of WriteBytes for a command.
unfoldable pub command_fields : ByteCommand → List Field
unfolding value source_value
command_fields c =
    field (value c.code) 1
    ∷ field (source_value c.arg0.type) 1
    ∷ field c.arg0.data_word 8
    ∷ field (source_value c.arg1.type) 1
    ∷ field c.arg1.data_word 8
    ∷ field (source_value c.arg2.type) 1
    ∷ field c.arg2.data_word 8
    ∷ field c.flags 4
    ∷ field c.source_line 4
    ∷ []

-- The loop over the commands.
unfoldable pub write_commands : List ByteCommand → Cursor → Outcome Cursor
unfolding write_fields command_fields
write_commands [] cursor = ok cursor
write_commands (c ∷ cs) cursor = write_fields (command_fields c) cursor >>= write_commands cs

-- ByterizeCommands, for commands compiled with these flags and this size of the outermost frame.
unfoldable pub byterize_commands : ℕ → ℕ → List ByteCommand → Outcome StaticBpointer
unfolding write_fields write_commands
byterize_commands compilation_flags stack_size commands = do
  let commands_size = length commands * command_size
  let size_of_data = co_header_reserved_size + commands_size
  let allocated : Cursor = record {
    size = size_of_data;
    offset = 5;
    memory = copy_to 0 5 (bytes_of co_magic) (λ a. 0);
  }
  header ←
      write_fields
        (field files_version 4
          ∷ field compilation_flags 2
          ∷ field commands_size 8
          ∷ field stack_size 8
          ∷ [])
        allocated
  filled ← write_commands commands (record header { offset = co_header_reserved_size })
  ok (record { bytes_size = size_of_data; byte = filled.memory })

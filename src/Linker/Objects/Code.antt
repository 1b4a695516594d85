-- ===== src/Linker/Objects/Code.antt =====
-- ObjectsReader::DeserializeCO: the byte commands of a module.
use malachite_scripting_lang.Prelude.{
  ℕ, zero, suc, ◌+◌, true, false, not, ◌||◌, Option, none, some, List, [], ◌∷◌, ltb, ◌==◌,
  if◌then◌else◌,
}
use malachite_scripting_lang.Prelude.Bytes.{bytes_value}
use malachite_scripting_lang.Outcome.{Outcome, ok, undefined, ◌>>=◌}
use malachite_scripting_lang.Vm.Definitions.{u64}
use malachite_scripting_lang.Buffer.{StaticBpointer, read_fields}
use malachite_scripting_lang.Linker.OpCode.{byte_op_code}
use malachite_scripting_lang.Linker.Definitions.{
  CommandSource, ByteCommand, CommandsPool, register, memory_address, immediate, constant, symbol,
}

-- co_header_reserved_size
abbrev pub co_header_reserved_size : ℕ
co_header_reserved_size = 100

-- "MSLCO", the lowest byte first
abbrev pub co_magic : ℕ
co_magic = 0x4f_43_4c_53_4d

-- The enumerator of CommandSource that a byte stands for.
unfoldable pub command_source : ℕ → CommandSource
command_source byte =
    if byte == 1
    then register
    else if byte == 2
    then memory_address
    else if byte == 3
    then immediate
    else if byte == 4
    then constant
    else if byte == 5
    then symbol
    else CommandSource.other byte

-- The sizes of the nine variables that one round of the loop fills, and of the four of the header.
abbrev pub command_widths : List ℕ
command_widths = 1 ∷ 1 ∷ 8 ∷ 1 ∷ 8 ∷ 1 ∷ 8 ∷ 4 ∷ 4 ∷ []

abbrev pub header_widths : List ℕ
header_widths = 4 ∷ 2 ∷ 8 ∷ 8 ∷ []

-- What the loop reads in one round: the sum of the sizes.
abbrev pub command_length : ℕ
command_length = 36

-- The command made of the nine variables.
unfoldable pub command_of : List ℕ → Outcome ByteCommand
unfolding byte_op_code command_source
command_of (code ∷ s0 ∷ a0 ∷ s1 ∷ a1 ∷ s2 ∷ a2 ∷ flags ∷ line ∷ []) = ok (record {
  code = byte_op_code code;
  arg0 = record { data_word = a0; type = command_source s0 };
  arg1 = record { data_word = a1; type = command_source s1 };
  arg2 = record { data_word = a2; type = command_source s2 };
  flags = flags;
  source_line = line;
})
command_of _ = undefined

-- The loop, from `offset` up to `end`. Each round reads 36 bytes of the buffer, so that one more
-- round than the buffer has bytes is never begun.
unfoldable pub read_commands : ℕ → StaticBpointer → ℕ → ℕ → Outcome (List ByteCommand)
unfolding read_fields command_of
read_commands zero b offset end = undefined
read_commands (suc rounds) b offset end = elim (ltb offset end) [
  | false ↦ ok []
  | true ↦ read_fields b offset command_widths >>= λ words. command_of words >>= λ command.
      read_commands rounds b (offset + command_length) end >>= λ commands. ok (command ∷ commands)
]

-- The part behind the checks, from the header's numbers on. `m_id` begins as UINT16_MAX.
unfoldable pub pool_of : StaticBpointer → List ℕ → Outcome (Option CommandsPool)
unfolding read_commands
pool_of b (version ∷ flags ∷ code_size ∷ stack_size ∷ []) =
    read_commands (suc b.bytes_size) b co_header_reserved_size
      (u64 (co_header_reserved_size + code_size))
    >>= λ commands. ok (
        some (record {
          commands = commands;
          version = version;
          compilation_flags = flags;
          code_size_in_bytes = code_size;
          stack_size = stack_size;
          m_id = 65535;
        }))
pool_of b _ = undefined

-- DeserializeCO. Another version is only reported.
unfoldable pub deserialize_co : Option StaticBpointer → Outcome (Option CommandsPool)
unfolding read_fields pool_of
deserialize_co none = ok none
deserialize_co (some b) =
    if (b.bytes_size == 0) || ltb b.bytes_size co_header_reserved_size
    then ok none
    else if not (bytes_value b.byte 0 5 == co_magic)
    then ok none
    else (read_fields b 5 header_widths >>= pool_of b)

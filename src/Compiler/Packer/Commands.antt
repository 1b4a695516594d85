-- ===== src/Compiler/Packer/Commands.antt =====
-- The linker reads the commands that the compiler has written.
use malachite_scripting_lang.Prelude.{
  ℕ, zero, suc, ◌+◌, ◌*◌, ◌^◌, ◌<◌, ◌≤◌, ◌≡◌, refl, ◌∙◌, arith, true, false, ◌==◌, some, List, [],
  ◌∷◌, length, ltb, All,
}
use malachite_scripting_lang.Prelude.Bytes.{bytes_value, bytes_value_ext}
use malachite_scripting_lang.Outcome.{ok, ◌>>=◌}
use malachite_scripting_lang.Vm.Definitions.{u64}
use malachite_scripting_lang.Buffer.{StaticBpointer, copy_to, bytes_of, Cursor, Field, read_fields}
use malachite_scripting_lang.Buffer.Fields.{
  words, written, write_fields-written, written-below, copy_to-value, read_fields-written,
}
use malachite_scripting_lang.Linker.Definitions.{ByteCommand}
use malachite_scripting_lang.Linker.Objects.Code.{
  command_widths, header_widths, read_commands, pool_of, deserialize_co,
}
use malachite_scripting_lang.Compiler.Packer.{
  files_version, co_magic, command_size, field, command_fields, write_commands, byterize_commands,
}
use malachite_scripting_lang.Compiler.Packer.CommandFields.{
  IsCommand, command_fields-Fit, command_of-fields, total-fields,
}

read_command-written :
    (c : ByteCommand) (b : StaticBpointer) (offset : ℕ) (memory : ℕ → ℕ)
    → IsCommand c
    → offset + 36 ≤ b.bytes_size
    → ((a : ℕ)
        → offset ≤ a
        → a < offset + 36
        → b.byte a ≡ written (command_fields c) offset memory a)
    → read_fields b offset command_widths ≡ ok (words (command_fields c))
unfolding command_fields
read_command-written c b offset memory h room same =
    read_fields-written (command_fields c) b offset memory (command_fields-Fit c h) room same

-- The memory behind the loop of the writes.
abbrev filled : List ByteCommand → ℕ → (ℕ → ℕ) → ℕ → ℕ
filled [] offset memory = memory
filled (c ∷ cs) offset memory = filled cs (offset + 36) (written (command_fields c) offset memory)

write_commands-filled :
    (cs : List ByteCommand) (c : Cursor)
    → c.offset + length cs * 36 ≤ c.size
    → write_commands cs c
      ≡ ok (record c { offset = c.offset + length cs * 36; memory = filled cs c.offset c.memory })
unfolding write_commands
write_commands-filled [] c room =
    let same : c.offset + 0 * 36 ≡ c.offset = omega arith in rw same refl
write_commands-filled (x ∷ xs) c room =
    let sum : c.offset + 36 + length xs * 36 ≡ c.offset + suc (length xs) * 36 = omega arith in
    rw
      (
        write_fields-written (command_fields x) c (omega (arith, total-fields x)),
        total-fields x,
        write_commands-filled xs
            (record c {
              offset = c.offset + 36;
              memory = written (command_fields x) c.offset c.memory;
            })
            (omega arith),
        sum,
      )
      refl

filled-below :
    (cs : List ByteCommand) (offset : ℕ) (memory : ℕ → ℕ) (a : ℕ)
    → a < offset
    → filled cs offset memory a ≡ memory a
filled-below [] offset memory a lt = refl
filled-below (c ∷ cs) offset memory a lt =
    filled-below cs (offset + 36) _ a (omega arith)
    ∙ written-below (command_fields c) offset memory a lt

read_commands-filled :
    (cs : List ByteCommand) (b : StaticBpointer) (rounds offset end : ℕ) (memory : ℕ → ℕ)
    → All IsCommand cs
    → length cs < rounds
    → offset + length cs * 36 ≡ end
    → end ≤ b.bytes_size
    → ((a : ℕ) → offset ≤ a → a < end → b.byte a ≡ filled cs offset memory a)
    → read_commands rounds b offset end ≡ ok cs
unfolding read_commands
read_commands-filled cs b zero offset end memory h enough e room same = ground arith
read_commands-filled [] b (suc rounds) offset end memory h enough e room same =
    let done : ltb offset end ≡ false = ground arith in rw (done, read_commands) refl
read_commands-filled (c ∷ cs) b (suc rounds) offset end memory (fits, h) enough e room same =
    let more : ltb offset end ≡ true = ground arith in
    rw
      (
        more,
        read_commands,
        read_command-written c b offset memory fits (omega arith)
            (λ a lo hi. same a lo (omega arith) ∙ filled-below cs (offset + 36) _ a (omega arith)),
        command_of-fields c fits,
        read_commands-filled cs b rounds (offset + 36) end _ h (omega arith) (omega arith) room
            (λ a lo hi. same a (omega arith) hi),
      )
      refl

deserialize_co-parts :
    (b : StaticBpointer) (version flags code_size stack_size : ℕ) (commands : List ByteCommand)
    → 100 ≤ b.bytes_size
    → bytes_value b.byte 0 5 ≡ co_magic
    → read_fields b 5 header_widths ≡ ok (version ∷ flags ∷ code_size ∷ stack_size ∷ [])
    → read_commands (suc b.bytes_size) b 100 (u64 (100 + code_size)) ≡ ok commands
    → deserialize_co (some b)
      ≡ ok (
          some (record {
            commands = commands;
            version = version;
            compilation_flags = flags;
            code_size_in_bytes = code_size;
            stack_size = stack_size;
            m_id = 65535;
          }))
unfolding deserialize_co pool_of
deserialize_co-parts b version flags code_size stack_size commands big magic header body =
    let some_bytes : (b.bytes_size == 0) ≡ false = ground arith in
    let enough : ltb b.bytes_size 100 ≡ false = ground arith in
    let mark : (bytes_value b.byte 0 5 == co_magic) ≡ true = ground (arith, magic) in
    rw (some_bytes, enough, mark, header, body) refl

module _ (flags stack_size : ℕ) (commands : List ByteCommand) where
  abbrev size_of_data : ℕ
  size_of_data = 100 + length commands * 36

  abbrev header_fields : List Field
  header_fields =
      field files_version 4
      ∷ field flags 2
      ∷ field (length commands * 36) 8
      ∷ field stack_size 8
      ∷ []

  abbrev marked : ℕ → ℕ
  marked = copy_to 0 5 (bytes_of co_magic) (λ a. 0)

  -- The file that is written.
  abbrev file : StaticBpointer
  file = record {
    bytes_size = size_of_data;
    byte = filled commands 100 (written header_fields 5 marked);
  }

  byterize_commands-file : byterize_commands flags stack_size commands ≡ ok file
  unfolding byterize_commands
  byterize_commands-file =
      rw
        (
          write_fields-written header_fields
              (record { size = size_of_data; offset = 5; memory = marked }) (omega arith),
          write_commands-filled commands
              (record {
                size = size_of_data;
                offset = 100;
                memory = written header_fields 5 marked;
              })
              (omega arith),
        )
        refl

  -- What stands before the commands.
  header_byte : (a : ℕ) → a < 100 → file.byte a ≡ written header_fields 5 marked a
  header_byte a lt = filled-below commands 100 _ a lt

  file-magic : bytes_value file.byte 0 5 ≡ co_magic
  file-magic =
      bytes_value_ext file.byte marked 0 5 (λ a lo hi.
        header_byte a (omega arith) ∙ written-below header_fields 5 marked a (omega arith))
      ∙ copy_to-value 0 5 co_magic (λ a. 0) (omega arith)

  file-header :
      flags < 2 ^ 16
      → stack_size < 2 ^ 64
      → length commands < 2 ^ 50
      → read_fields file 5 header_widths
        ≡ ok (files_version ∷ flags ∷ length commands * 36 ∷ stack_size ∷ [])
  file-header f16 s64 few =
      read_fields-written header_fields file 5 marked (omega arith, (f16, (omega arith, (s64, tt))))
        (omega arith) (λ a lo hi. header_byte a (omega arith))

  -- Commands within the C++ types, of which there are fewer than 2 ^ 50, are written by ByterizeCommands
  -- into a file that DeserializeCO accepts, and it reads the same commands, in order, with the same flags
  -- and the same size of the stack.
  pub deserialize_co-byterize_commands :
      flags < 2 ^ 16
      → stack_size < 2 ^ 64
      → length commands < 2 ^ 50
      → All IsCommand commands
      → (byterize_commands flags stack_size commands >>= λ file. deserialize_co (some file))
        ≡ ok (
            some (record {
              commands = commands;
              version = files_version;
              compilation_flags = flags;
              code_size_in_bytes = length commands * command_size;
              stack_size = stack_size;
              m_id = 65535;
            }))
  deserialize_co-byterize_commands f16 s64 few h = rw byterize_commands-file (
      deserialize_co-parts file files_version flags (length commands * 36) stack_size commands
        (omega arith) file-magic (file-header f16 s64 few)
        (read_commands-filled commands file (suc size_of_data) 100 _ _ h (omega arith) (omega arith)
          (omega arith) (λ a lo hi. refl)))

-- ===== src/Linker/Writer.antt =====
-- ECWriter::SaveAsMSLI of MSLL/source/ECWriting/ExecutableCodeWriter.cpp: the executable file.
pub mod Saved
pub mod Loading
pub mod Fetched
use malachite_scripting_lang.Prelude.{
  ℕ, ◌+◌, Bool, true, false, Option, none, some, List, [], ◌∷◌, leb, if◌then◌else◌,
}
use malachite_scripting_lang.Outcome.{Outcome, ok, undefined, ◌>>=◌}
use malachite_scripting_lang.Vm.Definitions.{u64}
use malachite_scripting_lang.Buffer.{StaticBpointer, copy_to, Cursor, Field, write_fields}
use malachite_scripting_lang.Linker.Definitions.{ExecutionData}

-- MSLI::header_size
abbrev pub header_size : ℕ
header_size = 100

-- "MSLI", the lowest byte first, and the word of the `float` 1.
abbrev pub magic : ℕ
magic = 0x49_4c_53_4d

abbrev pub version : ℕ
version = 0x3f80_0000

-- `memcpy(buffer + offset, pointer.ptr, pointer.bytes_size)`
unfoldable pub copy_block : ℕ → StaticBpointer → Cursor → Outcome Cursor
copy_block offset pointer buffer =
    if leb (offset + pointer.bytes_size) buffer.size
    then ok
        (record buffer { memory = copy_to offset pointer.bytes_size pointer.byte buffer.memory })
    else undefined

-- The fields in front of the flags, which are skipped, and those behind them.
abbrev pub first_fields : List Field
first_fields = record { word = magic; width = 4 } ∷ record { word = version; width = 4 } ∷ []

abbrev pub other_fields : ExecutionData → List Field
other_fields e =
    record { word = e.vm_type; width = 1 }
    ∷ record { word = header_size; width = 8 }
    ∷ record { word = e.aligned_rod_size; width = 8 }
    ∷ record { word = u64 (header_size + e.aligned_rod_size); width = 8 }
    ∷ record { word = e.code.bytes_size; width = 8 }
    ∷ []

-- The buffer that SaveAsMSLI fills.
unfoldable pub executable_bytes : ExecutionData → Outcome StaticBpointer
unfolding write_fields copy_block
executable_bytes e = do
  let buffer_size = u64 (header_size + e.aligned_rod_size + e.code.bytes_size)
  let buffer : Cursor = record { size = buffer_size; offset = 0; memory = λ a. 0 }
  marked ← write_fields first_fields buffer
  headed ← write_fields (other_fields e) (record marked { offset = marked.offset + 2 })
  with_rod ← copy_block header_size e.read_only_data headed
  with_code ← copy_block (u64 (header_size + e.aligned_rod_size)) e.code with_rod
  ok (record { bytes_size = buffer_size; byte = with_code.memory })

-- SaveAsMSLI: whether it succeeds, and the file that there is then. `opens` says whether the stream
-- can be opened.
unfoldable pub save_as_msli : Bool → ExecutionData → Outcome (Bool × Option StaticBpointer)
unfolding executable_bytes
save_as_msli opens e =
    executable_bytes e >>= λ buffer. ok (if opens then (true, some buffer) else (false, none))

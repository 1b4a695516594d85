-- ===== src/Buffer.antt =====
-- Bytes in memory, and the files that the compiler and the linker keep there: `static_bpointer` of
-- MSLL/include/ObjectsReading/LinkDefinitions.hpp, `WriteBytes` of MSLC/include/Packing/Packer.hpp.
pub mod Fields
use malachite_scripting_lang.Prelude.{
  ℕ, ◌+◌, ◌-◌, ◌*◌, ◌/◌, ◌%◌, ◌^◌, Bool, List, [], ◌∷◌, map, leb, ltb, ◌&&◌, if◌then◌else◌,
}
use malachite_scripting_lang.Prelude.Bytes.{bytes_value}
use malachite_scripting_lang.Outcome.{Outcome, ok, undefined, ◌>>=◌}

-- static_bpointer with its memory.
pub record StaticBpointer : Type 0 where
  pub bytes_size : ℕ
  pub byte : ℕ → ℕ

-- `allocate`, where `calloc` gives memory.
abbrev pub allocate : ℕ → StaticBpointer
allocate bytes = record { bytes_size = bytes; byte = λ a. 0 }

-- `memcpy(target + offset, source, size)`: what `target` holds then.
abbrev pub copy_to : ℕ → ℕ → (ℕ → ℕ) → (ℕ → ℕ) → ℕ → ℕ
copy_to offset size source target a =
    if leb offset a && ltb a (offset + size) then source (a - offset) else target a

-- The bytes of a number in memory, the lowest first.
abbrev pub bytes_of : ℕ → ℕ → ℕ
bytes_of word i = word / 2 ^ (i * 8) % 256

-- A buffer that is being written, and the place of the next write.
pub record Cursor : Type 0 where
  pub size : ℕ
  pub offset : ℕ
  pub memory : ℕ → ℕ

-- A number that is written, and the bytes that it takes.
pub record Field : Type 0 where
  pub word : ℕ
  pub width : ℕ

-- WriteBytes: a write outside the buffer has no meaning.
unfoldable pub write_bytes : Field → Cursor → Outcome Cursor
write_bytes f c =
    if leb (c.offset + f.width) c.size
    then ok (record c {
      offset = c.offset + f.width;
      memory = copy_to c.offset f.width (bytes_of f.word) c.memory;
    })
    else undefined

-- Several calls of it.
unfoldable pub write_fields : List Field → Cursor → Outcome Cursor
unfolding write_bytes
write_fields [] c = ok c
write_fields (f ∷ fs) c = write_bytes f c >>= write_fields fs

-- `memcpy(&word, ptr + offset, width); offset += width` for each width.
unfoldable pub read_fields : StaticBpointer → ℕ → List ℕ → Outcome (List ℕ)
read_fields b offset [] = ok []
read_fields b offset (width ∷ widths) =
    if leb (offset + width) b.bytes_size
    then (read_fields b (offset + width) widths >>= λ words.
        ok (bytes_value b.byte offset width ∷ words))
    else undefined

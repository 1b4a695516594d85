-- ===== src/Linker/Writer/Saved.antt =====
-- What SaveAsMSLI has written, as LoadScript reads it.
use malachite_scripting_lang.Prelude.{
  ℕ, ◌+◌, ◌^◌, ◌<◌, ◌≤◌, ◌≡◌, refl, ◌∙◌, arith, true, false, Option, some, leb, ltb,
}
use malachite_scripting_lang.Prelude.Bytes.{bytes_value}
use malachite_scripting_lang.Outcome.{ok}
use malachite_scripting_lang.Vm.Definitions.{u64}
use malachite_scripting_lang.Vm.State.{VmState}
use malachite_scripting_lang.Vm.Script.{FileStream, peek, load_parts, load_script, overwrite_flags}
use malachite_scripting_lang.Buffer.{StaticBpointer, copy_to}
use malachite_scripting_lang.Buffer.Fields.{
  written, write_fields-written, written-below, copy_to-below, copy_to-inside, Holds, Holds-written,
}
use malachite_scripting_lang.Linker.Definitions.{ExecutionData}
use malachite_scripting_lang.Linker.Writer.{
  first_fields, other_fields, copy_block, executable_bytes,
}

-- What Translate gives: the parts fit into the file, and their sizes are far below 2 ^ 64.
pub record IsImage (e : ExecutionData) : Type 0 where
  pub machine : e.vm_type ≡ 1
  pub rod_fits : e.read_only_data.bytes_size ≤ e.aligned_rod_size
  pub small : e.aligned_rod_size + e.code.bytes_size < 2 ^ 61

module _ (e : ExecutionData) (image : IsImage e) where
  abbrev pub headed : ℕ → ℕ
  headed = written (other_fields e) 10 (written first_fields 0 (λ a. 0))

  abbrev pub with_rod : ℕ → ℕ
  with_rod = copy_to 100 e.read_only_data.bytes_size e.read_only_data.byte headed

  abbrev pub saved : StaticBpointer
  saved = record {
    bytes_size = 100 + e.aligned_rod_size + e.code.bytes_size;
    byte = copy_to (100 + e.aligned_rod_size) e.code.bytes_size e.code.byte with_rod;
  }

  -- No sum of the sizes wraps around.
  code_offset : u64 (100 + e.aligned_rod_size) ≡ 100 + e.aligned_rod_size
  code_offset = omega (arith, image.small)

  whole_size : u64 (100 + e.aligned_rod_size + e.code.bytes_size) ≡ saved.bytes_size
  whole_size = omega (arith, image.small)

  pub executable_bytes-saved : executable_bytes e ≡ ok saved
  unfolding executable_bytes copy_block
  executable_bytes-saved =
      let rod_inside : leb (100 + e.read_only_data.bytes_size) saved.bytes_size ≡ true =
        ground (arith, image.rod_fits) in
      let code_inside : leb (100 + e.aligned_rod_size + e.code.bytes_size) saved.bytes_size ≡ true =
        ground arith in
      rw
        (
          whole_size,
          write_fields-written first_fields
              (record { size = saved.bytes_size; offset = 0; memory = λ a. 0 }) (omega arith),
          write_fields-written (other_fields e)
              (record {
                size = saved.bytes_size;
                offset = 10;
                memory = written first_fields 0 (λ a. 0);
              })
              (omega arith),
          code_offset,
          rod_inside,
          code_inside,
        )
        refl

  -- The file as LoadScript gets it, and as it leaves it: with what `flags` held in the flags.
  abbrev pub stream : FileStream
  stream = record { file_size = saved.bytes_size; byte = saved.byte }

  saved-headed : (a : ℕ) → a < 100 → saved.byte a ≡ headed a
  saved-headed a lt =
      copy_to-below (100 + e.aligned_rod_size) e.code.bytes_size e.code.byte with_rod a
        (omega arith)
      ∙ copy_to-below 100 e.read_only_data.bytes_size e.read_only_data.byte headed a lt

  pub saved-code :
      (i : ℕ) → i < e.code.bytes_size → saved.byte (100 + e.aligned_rod_size + i) ≡ e.code.byte i
  saved-code i lt =
      copy_to-inside (100 + e.aligned_rod_size) e.code.bytes_size e.code.byte with_rod i lt

  pub saved-rod :
      (i : ℕ) → i < e.read_only_data.bytes_size → saved.byte (100 + i) ≡ e.read_only_data.byte i
  saved-rod i lt =
      copy_to-below (100 + e.aligned_rod_size) e.code.bytes_size e.code.byte with_rod (100 + i)
        (omega (arith, image.rod_fits))
      ∙ copy_to-inside 100 e.read_only_data.bytes_size e.read_only_data.byte headed i lt

  first-Holds : Holds stream.byte 0 first_fields
  first-Holds =
      Holds-written first_fields stream.byte 0 (λ a. 0) (omega arith, (omega arith, tt))
        λ a lo hi.
          saved-headed a (omega arith)
          ∙ written-below (other_fields e) 10 (written first_fields 0 (λ x. 0)) a (omega arith)

  module _ (flags : ℕ → ℕ) where
    abbrev pub flagged : FileStream
    flagged = overwrite_flags flags stream

    pub flagged-byte : (a : ℕ) → 10 ≤ a → flagged.byte a ≡ saved.byte a
    flagged-byte a le = ground arith

    other-Holds : Holds flagged.byte 10 (other_fields e)
    other-Holds =
        Holds-written (other_fields e) flagged.byte 10 (written first_fields 0 (λ a. 0))
          (
            rw image.machine (omega arith),
            (
              omega arith,
              (
                omega (arith, image.small),
                (omega (arith, image.small), (omega (arith, image.small), tt)),
              ),
            ),
          )
          λ a lo hi. flagged-byte a lo ∙ saved-headed a (omega arith)

    peek-value :
        (f : FileStream) (offset n word : ℕ)
        → offset + n ≤ f.file_size
        → bytes_value f.byte offset n ≡ word
        → peek f offset n ≡ ok word
    unfolding peek
    peek-value f offset n word inside there =
        let within : leb (offset + n) f.file_size ≡ true = ground arith in rw (within, there) refl

    -- The checks of LoadScript pass, and its last part begins.
    pub load_script-parts :
        (given : Option (ℕ → ℕ)) (s : VmState)
        → load_script given flags (some stream) s
          ≡ load_parts given flagged 100 e.aligned_rod_size
              (100 + e.aligned_rod_size)
              e.code.bytes_size
              s
    unfolding load_script
    load_script-parts given s =
        let long : 100 ≤ stream.file_size = omega arith in
        let sum : u64 (100 + e.aligned_rod_size + e.code.bytes_size)
            ≡ 100 + e.aligned_rod_size + e.code.bytes_size =
          omega (arith, image.small) in
        let inside : ltb stream.file_size (100 + e.aligned_rod_size + e.code.bytes_size) ≡ false =
          ground arith in
        rw
          (
            peek-value stream 0 4 _ (omega arith) first-Holds.0,
            peek-value stream 4 4 _ (omega arith) refl,
            peek-value stream 8 2 _ (omega arith) refl,
            peek-value flagged 10 1 _ (omega arith) (other-Holds.0 ∙ image.machine),
            peek-value flagged 11 8 _ (omega arith) other-Holds.1.0,
            peek-value flagged 19 8 _ (omega arith) other-Holds.1.1.0,
            peek-value flagged 27 8 _ (omega arith) (other-Holds.1.1.1.0 ∙ code_offset),
            peek-value flagged 35 8 _ (omega arith) other-Holds.1.1.1.1.0,
            sum,
            inside,
          )
          refl

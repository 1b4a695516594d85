-- ===== src/Linker.antt =====
-- MSLL, the linker: its data, the translator of byte commands into operations of MSLVM_1, the
-- reading of object files and the writing of the executable file; `link` is Linker::Link of
-- MSLL/source/Linker.cpp.
pub mod OpCode
pub mod Definitions
pub mod Objects
pub mod Translator
pub mod Image
pub mod Writer
pub mod Reporting
mod Tests
use malachite_scripting_lang.Prelude.{
  ℕ, Bool, true, false, not, Option, none, some, ◌&&◌, ◌==◌, if◌then◌else◌,
}
use malachite_scripting_lang.Outcome.{Outcome, ok, ◌>>=◌}
use malachite_scripting_lang.Buffer.{StaticBpointer}
use malachite_scripting_lang.Linker.Objects.{deserialize_mo}
use malachite_scripting_lang.Linker.Image.{translate}
use malachite_scripting_lang.Linker.Writer.{save_as_msli}

-- The settings of the linker and what its surroundings give: whether it reports, whether it aligns
-- constants, whether the output file can be opened, and the padding bytes of an operation.
pub record Setting : Type 0 where
  pub output_mode : Bool
  pub alignment : Bool
  pub opens : Bool
  pub padding : ℕ → ℕ

-- `is_valid` of what ReadFile gives.
abbrev pub is_valid_file : Option StaticBpointer → Bool
is_valid_file none = false
is_valid_file (some b) = not (b.bytes_size == 0)

-- Link, with the main file and the modules' files: the answer, and the executable that is then there.
-- `1` is VMs::MSLVM_1.
unfoldable pub link :
    Setting
    → Option StaticBpointer
    → (ℕ → Option StaticBpointer)
    → ℕ
    → Outcome (Bool × Option StaticBpointer)
unfolding deserialize_mo translate save_as_msli
link setting main files vm_index =
    if not (is_valid_file main)
    then ok (false, none)
    else (deserialize_mo setting.alignment main >>= λ read. elim read [
      | none ↦ ok (false, none)
      | some state ↦
          if not (vm_index == 1)
          then ok (false, none)
          else (translate files setting.padding state >>= λ image.
              if image.code.bytes_size == 0
              then ok (false, none)
              else (save_as_msli setting.opens image >>= λ (saved, file).
                  ok (setting.output_mode && saved, file)))
    ])

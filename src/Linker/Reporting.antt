-- ===== src/Linker/Reporting.antt =====
-- What the answer of Linker::Link says of the file that it leaves.
use malachite_scripting_lang.Prelude.{
  ℕ, ◌≡◌, refl, Bool, true, false, not, Option, none, some, ◌==◌, ◌&&◌, if◌then◌else◌,
}
use malachite_scripting_lang.Outcome.{Outcome, ok, throws, undefined, ◌>>=◌, Returned}
use malachite_scripting_lang.Buffer.{StaticBpointer}
use malachite_scripting_lang.Vm.Script.Failure.{Returned-any, Returned-if}
use malachite_scripting_lang.Linker.Definitions.{LinkingState, ExecutionData}
use malachite_scripting_lang.Linker.Objects.{deserialize_mo}
use malachite_scripting_lang.Linker.Image.{translate}
use malachite_scripting_lang.Linker.Writer.{save_as_msli, executable_bytes}
use malachite_scripting_lang.Linker.{Setting, link, is_valid_file}

abbrev pub is_there : Option StaticBpointer → Bool
is_there none = false
is_there (some file) = true

-- The answer says that there is a file, and that the linker reports.
abbrev pub Reports : Bool → Bool × Option StaticBpointer → Type 0
Reports output_mode (answer, file) = answer ≡ (output_mode && is_there file)

-- The file that is left, without the answer.
abbrev pub file_left : Outcome (Bool × Option StaticBpointer) → Outcome (Option StaticBpointer)
file_left linked = linked >>= λ (answer, file). ok file

failed-Reports : (output_mode : Bool) → Reports output_mode (false, none)
failed-Reports true = refl
failed-Reports false = refl

file_left-bind {ℓ} :
    {A : Type ℓ} (m : Outcome A) (f g : A → Outcome (Bool × Option StaticBpointer))
    → ((a : A) → file_left (f a) ≡ file_left (g a))
    → file_left (m >>= f) ≡ file_left (m >>= g)
file_left-bind (ok a) f g same = same a
file_left-bind (throws e) f g same = refl
file_left-bind undefined f g same = refl

file_left-unless :
    (b : Bool) (m n : Outcome (Bool × Option StaticBpointer))
    → file_left m ≡ file_left n
    → file_left (if b then ok (false, none) else m) ≡ file_left (if b then ok (false, none) else n)
file_left-unless true m n same = refl
file_left-unless false m n same = same

module _ (opens : Bool) where
  -- The end of Link, behind the translation.
  abbrev saving : Bool → ExecutionData → Outcome (Bool × Option StaticBpointer)
  saving output_mode image =
      if image.code.bytes_size == 0
      then ok (false, none)
      else (save_as_msli opens image >>= λ (saved, file). ok (output_mode && saved, file))

  saving-Reports :
      (output_mode : Bool) (image : ExecutionData)
      → Returned (Reports output_mode) (saving output_mode image)
  unfolding save_as_msli
  saving-Reports output_mode image =
      Returned-if (Reports output_mode) (image.code.bytes_size == 0) _ _
        (failed-Reports output_mode) (written (executable_bytes image) opens)
    where
      written :
          (m : Outcome StaticBpointer) (b : Bool)
          → Returned (Reports output_mode) (
              (m >>= λ buffer. ok (if b then (true, some buffer) else (false, none)))
              >>= λ (saved, file). ok (output_mode && saved, file))
      written (ok buffer) true = refl
      written (ok buffer) false = refl
      written (throws e) b = tt
      written undefined b = tt

  saving-file :
      (image : ExecutionData) → file_left (saving true image) ≡ file_left (saving false image)
  saving-file image =
      file_left-unless (image.code.bytes_size == 0) _ _
        (file_left-bind (save_as_msli opens image) _ _ λ (saved, file). refl)

module _ (alignment opens : Bool) (padding : ℕ → ℕ) (main : Option StaticBpointer)
    (files : ℕ → Option StaticBpointer) (vm_index : ℕ) where
  abbrev setting : Bool → Setting
  setting output_mode = record {
    output_mode = output_mode;
    alignment = alignment;
    opens = opens;
    padding = padding;
  }

  -- Behind the reading of the main object file.
  abbrev translating : Bool → LinkingState → Outcome (Bool × Option StaticBpointer)
  translating output_mode state =
      if not (vm_index == 1)
      then ok (false, none)
      else (translate files padding state >>= saving opens output_mode)

  abbrev read_cases : Bool → Option LinkingState → Outcome (Bool × Option StaticBpointer)
  read_cases output_mode read = elim read [
    | none ↦ ok (false, none)
    | some state ↦ translating output_mode state
  ]

  link-Reports :
      (output_mode : Bool)
      → Returned (Reports output_mode) (link (setting output_mode) main files vm_index)
  unfolding link
  link-Reports output_mode =
      Returned-if (Reports output_mode) (not (is_valid_file main)) _ _ (failed-Reports output_mode)
        (Returned-any (Reports output_mode) (deserialize_mo alignment main) (read_cases output_mode)
          after_reading)
    where
      after_reading :
          (read : Option LinkingState)
          → Returned (Reports output_mode) (read_cases output_mode read)
      after_reading none = failed-Reports output_mode
      after_reading (some state) =
          Returned-if (Reports output_mode) (not (vm_index == 1)) _ _ (failed-Reports output_mode) (
            Returned-any (Reports output_mode) (translate files padding state) _
              (saving-Reports opens output_mode))

  -- The linker leaves the same file whether its output mode is on or off, and it returns, throws or has no
  -- meaning alike; where it returns, with the mode on the answer is true exactly when a file is left, and
  -- with the mode off it is false, also when one is left.
  pub link-reports :
      Returned (λ (answer, file). answer ≡ is_there file) (link (setting true) main files vm_index)
      × Returned (λ (answer, file). answer ≡ false) (link (setting false) main files vm_index)
      × (file_left (link (setting true) main files vm_index)
          ≡ file_left (link (setting false) main files vm_index))
  unfolding link
  link-reports = (
    link-Reports true,
    link-Reports false,
    file_left-unless (not (is_valid_file main)) _ _
        (file_left-bind (deserialize_mo alignment main) (read_cases true) (read_cases false) same),
  )
    where
      same :
          (read : Option LinkingState)
          → file_left (read_cases true read) ≡ file_left (read_cases false read)
      same none = refl
      same (some state) =
          file_left-unless (not (vm_index == 1)) _ _
            (file_left-bind (translate files padding state) _ _ (saving-file opens))

-- ===== src/Linker/Tests/Files.antt =====
-- Executables that are written and loaded.
use malachite_scripting_lang.Prelude.{
  ℕ, ◌+◌, ◌≡◌, refl, arith, Bool, true, false, Option, none, some, List, [], ◌∷◌,
}
use malachite_scripting_lang.Outcome.{Outcome, ok, throws, undefined, ◌>>=◌, Returns, Returned}
use malachite_scripting_lang.Vm.Definitions.{VmOperation, VmOperationCode}
use malachite_scripting_lang.Vm.Memory.{get_operation}
use malachite_scripting_lang.Vm.State.{VmState, initial_state}
use malachite_scripting_lang.Vm.Script.{load_script}
use malachite_scripting_lang.Buffer.{StaticBpointer, allocate}
use malachite_scripting_lang.Linker.{link}
use malachite_scripting_lang.Linker.Definitions.{
  ConstantData, ExecutionData, CommandSource, CommandArgument, ByteCommand,
}
use malachite_scripting_lang.Linker.Reporting.{is_there, file_left, link-reports}
use malachite_scripting_lang.Linker.OpCode.{ByteOpCode}
use malachite_scripting_lang.Compiler.Packer.{byterize_commands}
use malachite_scripting_lang.Compiler.Packer.State.{byterize_state}
use malachite_scripting_lang.Linker.Translator.Emission.{operation_of}
use malachite_scripting_lang.Linker.Image.ReadOnlyData.{Layout, lay_constants}
use malachite_scripting_lang.Linker.Image.ReadOnlyData.Places.{IsLaid, lay_constants-IsLaid}
use malachite_scripting_lang.Linker.Writer.{executable_bytes}
use malachite_scripting_lang.Linker.Writer.Loading.{Loaded, load_script-executable_bytes}
use malachite_scripting_lang.Linker.Writer.Saved.{IsImage}
use malachite_scripting_lang.Linker.Writer.Fetched.{image_of, get_operation-load_script}

-- A move and a stop.
abbrev moving : List VmOperation
moving =
    operation_of VmOperationCode.mov_ri 1 0x1234 0 ∷ operation_of VmOperationCode.halt 0 0 0 ∷ []

abbrev rod : StaticBpointer
rod = record { bytes_size = 5; byte = λ a. 42 }

abbrev zeros : ℕ → ℕ
zeros a = 0

abbrev image : ExecutionData
image = image_of zeros moving rod 8

image-IsImage : IsImage image
image-IsImage = record { machine = refl; rod_fits = omega arith; small = omega arith }

load_script-executable_bytes_example :
    Returns
      (λ (answer : Bool × VmState). (answer.0 ≡ true) × Loaded image image-IsImage answer.1.memory)
      (executable_bytes image >>= λ file.
        load_script
          (some zeros)
          zeros
          (some (record { file_size = file.bytes_size; byte = file.byte }))
          initial_state)
load_script-executable_bytes_example =
    load_script-executable_bytes image image-IsImage zeros zeros initial_state

get_operation-load_script_example :
    Returns
      (λ (answer : Bool × VmState).
        (answer.0 ≡ true)
        × (get_operation answer.1.memory 0 ≡ ok (operation_of VmOperationCode.mov_ri 1 0x1234 0)))
      (executable_bytes image >>= λ file.
        load_script
          (some zeros)
          zeros
          (some (record { file_size = file.bytes_size; byte = file.byte }))
          initial_state)
get_operation-load_script_example =
    get_operation-load_script zeros zeros zeros moving rod 8 initial_state (omega arith)
      (omega arith) (λ a. omega arith) (λ a. omega arith) (λ a. omega arith) (λ a. omega arith) 0
      (operation_of VmOperationCode.mov_ri 1 0x1234 0) refl
      (record {
        word0 = omega arith;
        word1 = omega arith;
        word2 = omega arith;
        dsi_fits = omega arith;
        listed = tt;
      })

-- Two constants of 3 and 8 bytes, each in 8.
abbrev two_constants : List ConstantData
two_constants =
    record {
      id = 0;
      real_size_in_bytes = 3;
      using_size_in_bytes = 8;
      data_bytes = λ i. 1 + i;
      memory_offset = 0;
    }
    ∷ record {
      id = 1;
      real_size_in_bytes = 8;
      using_size_in_bytes = 8;
      data_bytes = λ i. 7;
      memory_offset = 0;
    }
    ∷ []

lay_constants-IsLaid_example :
    Returns
      (λ (answer : Option Layout).
        (layout : Layout) × (answer ≡ some layout) × IsLaid two_constants (allocate 16) 0 layout)
      (lay_constants two_constants (allocate 16) 0)
lay_constants-IsLaid_example =
    lay_constants-IsLaid two_constants (allocate 16) 0 (omega arith, (omega arith, tt))
      (omega arith) (omega arith)

-- The files of a program of one module, as the compiler writes them.
abbrev written_file : Outcome StaticBpointer → Option StaticBpointer
written_file (ok file) = some file
written_file (throws e) = none
written_file undefined = none

abbrev argument : ℕ → CommandArgument
argument n = record { data_word = n; type = CommandSource.immediate }

abbrev move_only : List ByteCommand
move_only =
    record {
      code = ByteOpCode.movrr;
      arg0 = argument 1;
      arg1 = argument 2;
      arg2 = argument 0;
      flags = 0;
      source_line = 1;
    }
    ∷ []

abbrev main_file : Option StaticBpointer
main_file = written_file (byterize_state 0 (3 ∷ []) [] [])

abbrev module_files : ℕ → Option StaticBpointer
module_files m_id = written_file (byterize_commands 0 16 move_only)

-- The answer, and the size of the file.
abbrev answer_and_size : Bool × Option StaticBpointer → Outcome (Bool × ℕ)
answer_and_size (answer, none) = ok (answer, 0)
answer_and_size (answer, some b) = ok (answer, b.bytes_size)

-- A linker that does not report leaves the executable of this program, of 132 bytes, and says that it
-- failed.
left_in_silence :
    (link
        (record { output_mode = false; alignment = true; opens = true; padding = zeros })
        main_file
        module_files
        1
      >>= answer_and_size)
    ≡ ok (false, 132)
unfolding link byterize_state byterize_commands
left_in_silence = refl

link-reports_example :
    Returned
      (λ (answer, file). answer ≡ is_there file)
      (link
        (record { output_mode = true; alignment = true; opens = true; padding = zeros })
        main_file
        module_files
        1)
    × Returned
        (λ (answer, file). answer ≡ false)
        (link
          (record { output_mode = false; alignment = true; opens = true; padding = zeros })
          main_file
          module_files
          1)
    × (file_left (
          link
            (record { output_mode = true; alignment = true; opens = true; padding = zeros })
            main_file
            module_files
            1)
        ≡ file_left (
            link
              (record { output_mode = false; alignment = true; opens = true; padding = zeros })
              main_file
              module_files
              1))
link-reports_example = link-reports true true zeros main_file module_files 1

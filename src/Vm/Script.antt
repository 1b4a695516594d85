-- ===== src/Vm/Script.antt =====
-- VirtualMachine::LoadScript of MSLVM/source/api/virtual_machine.cpp: a .msli file is checked and its
-- code and read-only data are copied into a new block of memory.
pub mod Failure
use malachite_scripting_lang.Prelude.{
  ℕ, zero, suc, ◌+◌, ◌-◌, ◌*◌, Bool, true, false, not, ◌&&◌, Option, none, some, ltb, leb, ◌==◌,
  if◌then◌else◌,
}
use malachite_scripting_lang.Prelude.Bytes.{bytes_value}
use malachite_scripting_lang.Outcome.{Outcome, ok, undefined, ◌>>=◌}
use malachite_scripting_lang.Vm.Definitions.{u64, error_stack_size}
use malachite_scripting_lang.Vm.Errors.{
  ErrorCode, ErrorType, ErrorFrame, error_number, no_error, invalid_file_path, invalid_magic,
  invalid_file, another_vm_version,
}
use malachite_scripting_lang.Vm.Stack
use malachite_scripting_lang.Vm.Memory
use malachite_scripting_lang.Vm.State.{VmState}

-- `file_stream`: so many bytes.
pub record FileStream : Type 0 where
  pub file_size : ℕ
  pub byte : ℕ → ℕ

-- `ErrorFrame(0, code)`: an aggregate with its first two fields given. The code is the second field,
-- `frame_fp`; what is not given is 0, which is NoError and Critical.
abbrev pub loading_frame : ErrorCode → ErrorFrame
loading_frame e = record {
  instruction_counter = 0;
  frame_fp = error_number e;
  frame_sp = 0;
  code = no_error;
  type = ErrorType.critical;
}

-- `state.error_stack.push(ErrorFrame(0, code)); return false;`
unfoldable pub refuse : ErrorCode → VmState → Outcome (Bool × VmState)
unfolding Stack.push error_number
refuse e s = do
  errors ← Stack.push error_stack_size (loading_frame e) s.error_stack
  ok (false, record s { error_stack = errors })

-- The `n` bytes from `offset` on, as a number: those of a `memcmp` or of a `memcpy` into a variable.
unfoldable pub peek : FileStream → ℕ → ℕ → Outcome ℕ
peek f offset n =
    if leb (offset + n) f.file_size then ok (bytes_value f.byte offset n) else undefined

-- "MSLI", lowest byte first
abbrev pub msli_magic : ℕ
msli_magic = 0x49_4c_53_4d

abbrev pub vm_version_code : ℕ
vm_version_code = 1

-- `memcpy(file_stream + offset, &flags, sizeof(flags))`, which writes into the stream what the
-- variable `flags`, never set, holds.
abbrev pub overwrite_flags : (ℕ → ℕ) → FileStream → FileStream
overwrite_flags flags f = record f {
  byte = λ a. if leb 8 a && ltb a 10 then flags (a - 8) else f.byte a;
}

-- The bytes of the stream from `offset` on.
abbrev pub from_offset : FileStream → ℕ → ℕ → ℕ
from_offset f offset i = f.byte (offset + i)

-- The part behind the checks. The first argument is what `malloc` gives.
unfoldable pub load_parts :
    Option (ℕ → ℕ) → FileStream → ℕ → ℕ → ℕ → ℕ → VmState → Outcome (Bool × VmState)
unfolding Memory.allocate Memory.load_code Memory.load_rod
load_parts given f rod_offset rod_size code_offset code_size s = do
  let allocated = Memory.allocate given code_size rod_size s.memory
  coded ←
      Memory.load_code (from_offset f code_offset) (f.file_size - code_offset) code_size allocated
  loaded ← Memory.load_rod (from_offset f rod_offset) (f.file_size - rod_offset) rod_size coded
  ok (true, record s { memory = loaded })

-- LoadScript. `none` is a file that cannot be opened; `flags` is what the variable of this name
-- happens to hold. The comparison of the version has no effect.
unfoldable pub load_script :
    Option (ℕ → ℕ) → (ℕ → ℕ) → Option FileStream → VmState → Outcome (Bool × VmState)
unfolding refuse peek load_parts
load_script given flags none s = refuse invalid_file_path s
load_script given flags (some opened) s = do
  magic ← peek opened 0 4
  if not (magic == msli_magic) then refuse invalid_magic s else do
    _ ← peek opened 4 4
    _ ← peek opened 8 2
    let f = overwrite_flags flags opened
    version ← peek f 10 1
    if not (version == vm_version_code) then refuse another_vm_version s else do
      rod_offset ← peek f 11 8
      rod_size ← peek f 19 8
      code_offset ← peek f 27 8
      code_size ← peek f 35 8
      if ltb f.file_size (u64 (code_offset + code_size))
          then refuse invalid_file s
          else load_parts given f rod_offset rod_size code_offset code_size s

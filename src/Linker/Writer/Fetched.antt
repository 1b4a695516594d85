-- ===== src/Linker/Writer/Fetched.antt =====
-- The machine fetches the operations that the linker translated, from the file that it saved.
use malachite_scripting_lang.Prelude.{
  ℕ, ◌+◌, ◌-◌, ◌*◌, ◌/◌, ◌%◌, ◌^◌, ◌<◌, ◌≤◌, ◌≡◌, refl, arith, Bool, Option, none, some, List,
  length, get_elem?, ltb, ◌==◌, if◌then◌else◌, true, false,
}
use native.Mathlib.Nat.{mod-lt}
use malachite_scripting_lang.Outcome.{ok, ◌>>=◌, Returns}
use malachite_scripting_lang.Vm.Definitions.{VmOperationCode, VmOperation}
use malachite_scripting_lang.Vm.Memory.{get_operation, align8}
use malachite_scripting_lang.Vm.State.{VmState}
use malachite_scripting_lang.Vm.Script.{load_script}
use malachite_scripting_lang.Buffer.{StaticBpointer, bytes_of}
use malachite_scripting_lang.Linker.Definitions.{ExecutionData}
use malachite_scripting_lang.Linker.Image.Code.{operation_value, operation_byte, code_byte}
use malachite_scripting_lang.Linker.Image.Fetching.{IsOperation, get_operation-code_byte}
use malachite_scripting_lang.Linker.Writer.{executable_bytes}
use malachite_scripting_lang.Linker.Writer.Loading.{
  Loaded, loaded, load_script-loaded, Loaded-loaded, loaded-HoldsBytes,
}
use malachite_scripting_lang.Linker.Writer.Saved.{IsImage}

operation_value-lt : (c : VmOperationCode) → operation_value c < 256
unfolding operation_value
operation_value-lt VmOperationCode.unlisted = omega arith
operation_value-lt _ = omega arith

code_byte-lt :
    (padding : ℕ → ℕ) (os : List VmOperation)
    → ((a : ℕ) → padding a < 256)
    → (a : ℕ) → code_byte padding os a < 256
unfolding code_byte operation_byte
code_byte-lt padding os small a = by (get_elem? os (a / 32))
  where
    low : (word i : ℕ) → bytes_of word i < 256
    low word i = mod-lt (word / 2 ^ (i * 8)) (omega arith)

    ladder :
        (o : VmOperation) (i : ℕ) (b0 b1 b2 b3 b4 : Bool)
        → (if b0
            then bytes_of o.arg0 i
            else if b1
            then bytes_of o.arg1 (i - 8)
            else if b2
            then bytes_of o.arg2 (i - 16)
            else if b3
            then bytes_of o.dsi (i - 24)
            else if b4
            then operation_value o.code
            else padding a)
          < 256
    ladder o i true b1 b2 b3 b4 = low o.arg0 i
    ladder o i false true b2 b3 b4 = low o.arg1 (i - 8)
    ladder o i false false true b3 b4 = low o.arg2 (i - 16)
    ladder o i false false false true b4 = low o.dsi (i - 24)
    ladder o i false false false false true = operation_value-lt o.code
    ladder o i false false false false false = small a

    by :
        (found : Option VmOperation)
        → elim found [ none ↦ 0 | some o ↦ operation_byte (padding a) o (a % 32) ] < 256
    by none = omega arith
    by (some o) = let i = a % 32 in ladder o i (ltb i 8) (ltb i 16) (ltb i 24) (ltb i 28) (i == 28)

le-align8 : (n : ℕ) → n < 2 ^ 61 → n ≤ align8 n
unfolding align8
le-align8 n small = omega arith

-- What Translate makes of these operations and this read-only data.
abbrev pub image_of : (ℕ → ℕ) → List VmOperation → StaticBpointer → ℕ → ExecutionData
image_of padding os rod aligned = record {
  read_only_data = rod;
  code = record { bytes_size = length os * 32; byte = code_byte padding os };
  aligned_rod_size = aligned;
  vm_type = 1;
}

-- Operations within their C++ types are saved by SaveAsMSLI, with read-only data that fits, into a file
-- which LoadScript accepts when `malloc` grants the block, and GetOperation then gives every operation at
-- its index, field by field; code and read-only data are below 2 ^ 61 bytes together.
pub get_operation-load_script :
    (padding fresh flags : ℕ → ℕ) (os : List VmOperation) (rod : StaticBpointer) (aligned : ℕ)
    (s : VmState)
    → rod.bytes_size ≤ aligned
    → aligned + length os * 32 < 2 ^ 61
    → ((a : ℕ) → padding a < 256)
    → ((a : ℕ) → fresh a < 256)
    → ((a : ℕ) → flags a < 256)
    → ((a : ℕ) → rod.byte a < 256)
    → (k : ℕ) (o : VmOperation) → get_elem? os k ≡ some o
    → IsOperation o
    → Returns
        (λ (answer : Bool × VmState). (answer.0 ≡ true) × (get_operation answer.1.memory k ≡ ok o))
        (executable_bytes (image_of padding os rod aligned) >>= λ file.
          load_script
            (some fresh)
            flags
            (some (record { file_size = file.bytes_size; byte = file.byte }))
            s)
get_operation-load_script padding fresh flags os rod aligned s fits small pad fr fl rb k o there h =
    rw (load_script-loaded e image fresh flags s) (
      refl,
      get_operation-code_byte padding os k o there (loaded e image fresh flags s) l.laid_out
          (loaded-HoldsBytes e image fresh flags s fr fl (code_byte-lt padding os pad) rb)
          (omega (arith, l.code_size, le-align8 (length os * 32) (omega arith))) l.code_there h,
    )
  where
    e : ExecutionData
    e = image_of padding os rod aligned

    image : IsImage e
    image = record { machine = refl; rod_fits = fits; small = small }

    l : Loaded e image (loaded e image fresh flags s)
    l = Loaded-loaded e image fresh flags s

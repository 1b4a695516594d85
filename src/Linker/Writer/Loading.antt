-- ===== src/Linker/Writer/Loading.antt =====
-- The machine loads what the linker has saved.
use malachite_scripting_lang.Prelude.{
  ℕ, ◌+◌, ◌-◌, ◌<◌, ◌≤◌, ◌≡◌, refl, ap, sym, ◌∙◌, arith, Bool, true, false, ◌&&◌, some, leb, ltb,
  if◌then◌else◌,
}
use malachite_scripting_lang.Outcome.{ok, ◌>>=◌, Returns}
use malachite_scripting_lang.Vm.Memory.{
  DynamicMemory, extent, allocate, load_bytes, load_code, load_rod, to_native, align8,
}
use malachite_scripting_lang.Vm.Memory.Layout.{
  HoldsBytes, IsLaidOut, extent-IsLaidOut, allocate-IsLaidOut, allocate-sizes, to_native-IsLaidOut,
}
use malachite_scripting_lang.Vm.Memory.RoundTrip.{IsLaidOut-cell}
use malachite_scripting_lang.Vm.State.{VmState}
use malachite_scripting_lang.Vm.Script.{load_parts, load_script, from_offset}
use malachite_scripting_lang.Buffer.{copy_to}
use malachite_scripting_lang.Buffer.Fields.{copy_to-below, copy_to-inside, copy_to-lt, written-lt}
use malachite_scripting_lang.Linker.Definitions.{ExecutionData}
use malachite_scripting_lang.Linker.Writer.{first_fields, other_fields, executable_bytes}
use malachite_scripting_lang.Linker.Writer.Saved.{
  IsImage, flagged, flagged-byte, load_script-parts, headed, saved, executable_bytes-saved, stream,
  saved-code, saved-rod,
}

module _ (e : ExecutionData) (image : IsImage e) where
  -- What of the executable is in the memory.
  pub record Loaded (m : DynamicMemory) : Type 0 where
    pub laid_out : IsLaidOut m
    pub code_size : m.code_size ≡ align8 e.code.bytes_size
    pub code_there : (a : ℕ) → a < e.code.bytes_size → m.cell a ≡ e.code.byte a
    pub rod_there :
        (a : ℕ)
        → a < e.read_only_data.bytes_size
        → m.cell (m.code_size + a) ≡ e.read_only_data.byte a

  load_bytes-copied :
      (m : DynamicMemory) (native : ℕ) (bytes : ℕ → ℕ) (available size : ℕ)
      → native + size ≤ extent m.m_pointer
      → size ≤ available
      → load_bytes m native bytes available size
        ≡ ok (record m { cell = copy_to native size bytes m.cell })
  load_bytes-copied m native bytes available size inside enough =
      let within : leb (native + size) (extent m.m_pointer) ≡ true = ground arith in
      let given : leb size available ≡ true = ground arith in rw (within, given) refl

  module _ (fresh flags : ℕ → ℕ) (s : VmState) where
    abbrev pub granted : DynamicMemory
    granted = allocate (some fresh) e.code.bytes_size e.aligned_rod_size s.memory

    abbrev pub file_code : ℕ → ℕ
    file_code = from_offset (flagged e image flags) (100 + e.aligned_rod_size)

    abbrev pub file_rod : ℕ → ℕ
    file_rod = from_offset (flagged e image flags) 100

    abbrev pub with_code : DynamicMemory
    with_code = record granted {
      cell = copy_to granted.code_sa e.code.bytes_size file_code granted.cell;
    }

    abbrev pub rod_at : ℕ
    rod_at = to_native with_code with_code.rod_sa

    abbrev pub loaded : DynamicMemory
    loaded = record granted { cell = copy_to rod_at e.aligned_rod_size file_rod with_code.cell }

    granted-IsLaidOut : IsLaidOut granted
    granted-IsLaidOut =
        allocate-IsLaidOut fresh e.code.bytes_size e.aligned_rod_size s.memory
          (omega (arith, image.small))

    with_code-IsLaidOut : IsLaidOut with_code
    with_code-IsLaidOut = IsLaidOut-cell with_code.cell granted-IsLaidOut

    sizes : (e.code.bytes_size ≤ granted.code_size) × (e.aligned_rod_size ≤ granted.rod_size)
    sizes =
        let all =
          allocate-sizes fresh e.code.bytes_size e.aligned_rod_size s.memory
            (omega (arith, image.small)) in
        (all.0, all.1)

    rod_at-code_size : rod_at ≡ granted.code_size
    rod_at-code_size =
        to_native-IsLaidOut with_code-IsLaidOut with_code.rod_sa
          (omega (arith, granted-IsLaidOut.rod_first))
        ∙ omega (arith, granted-IsLaidOut.rod_first)

    load_code-granted :
        load_code file_code
          ((stream e image).file_size - (100 + e.aligned_rod_size))
          e.code.bytes_size
          granted
        ≡ ok with_code
    unfolding load_code
    load_code-granted =
        load_bytes-copied granted granted.code_sa file_code _ e.code.bytes_size
          (omega (
            arith,
            extent-IsLaidOut granted-IsLaidOut,
            granted-IsLaidOut.whole,
            granted-IsLaidOut.code_first,
            sizes.0,
          ))
          (omega arith)

    load_rod-granted :
        load_rod file_rod ((stream e image).file_size - 100) e.aligned_rod_size with_code
        ≡ ok loaded
    unfolding load_rod
    load_rod-granted =
        load_bytes-copied with_code rod_at file_rod _ e.aligned_rod_size
          (omega (
            arith,
            extent-IsLaidOut granted-IsLaidOut,
            granted-IsLaidOut.whole,
            rod_at-code_size,
            sizes.1,
          ))
          (omega arith)

    rod_size-align8 : granted.code_size ≡ align8 e.code.bytes_size
    unfolding allocate
    rod_size-align8 = refl

    code_cell : (a : ℕ) → a < e.code.bytes_size → loaded.cell a ≡ e.code.byte a
    code_cell a lt =
        copy_to-below rod_at e.aligned_rod_size file_rod with_code.cell a
          (omega (arith, rod_at-code_size, sizes.0))
        ∙ ap (λ (at : ℕ). copy_to at e.code.bytes_size file_code granted.cell a)
            granted-IsLaidOut.code_first
        ∙ at_start
        ∙ flagged-byte e image flags (100 + e.aligned_rod_size + a) (omega arith)
        ∙ saved-code e image a lt
      where
        at_start : copy_to 0 e.code.bytes_size file_code granted.cell a ≡ file_code a
        at_start =
            let inside : ltb a (0 + e.code.bytes_size) ≡ true = ground arith in
            let low : leb 0 a ≡ true = ground arith in
            let same : a - 0 ≡ a = omega arith in rw (low, inside, same) refl

    rod_cell :
        (a : ℕ)
        → a < e.read_only_data.bytes_size
        → loaded.cell (granted.code_size + a) ≡ e.read_only_data.byte a
    rod_cell a lt =
        ap (λ (at : ℕ). loaded.cell (at + a)) (sym rod_at-code_size)
        ∙ copy_to-inside rod_at e.aligned_rod_size file_rod with_code.cell a
            (omega (arith, image.rod_fits))
        ∙ flagged-byte e image flags (100 + a) (omega arith)
        ∙ saved-rod e image a lt

    load_parts-loaded :
        load_parts
          (some fresh)
          (flagged e image flags)
          100
          e.aligned_rod_size
          (100 + e.aligned_rod_size)
          e.code.bytes_size
          s
        ≡ ok (true, record s { memory = loaded })
    unfolding load_parts
    load_parts-loaded = rw (load_code-granted, load_rod-granted) refl

    pub load_script-loaded :
        (executable_bytes e >>= λ file.
        load_script
          (some fresh)
          flags
          (some (record { file_size = file.bytes_size; byte = file.byte }))
          s)
        ≡ ok (true, record s { memory = loaded })
    load_script-loaded =
        rw ((executable_bytes-saved e image), load_script-parts e image flags (some fresh) s)
          load_parts-loaded

    pub Loaded-loaded : Loaded loaded
    Loaded-loaded = record {
      laid_out = IsLaidOut-cell loaded.cell granted-IsLaidOut;
      code_size = rod_size-align8;
      code_there = code_cell;
      rod_there = rod_cell;
    }

    -- An executable whose parts fit and are small is (saved e image) by SaveAsMSLI into a file that LoadScript
    -- accepts, when `malloc` grants the block, whatever the uninitialised flags are: the memory is then
    -- laid out, with the code at its start and the read-only data behind the code, byte for byte.
    pub load_script-executable_bytes :
        Returns
          (λ (answer : Bool × VmState). (answer.0 ≡ true) × Loaded answer.1.memory)
          (executable_bytes e >>= λ file.
            load_script
              (some fresh)
              flags
              (some (record { file_size = file.bytes_size; byte = file.byte }))
              s)
    load_script-executable_bytes = rw load_script-loaded (refl, Loaded-loaded)

    -- The memory is made of bytes where its sources are.
    pub loaded-HoldsBytes :
        ((a : ℕ) → fresh a < 256)
        → ((a : ℕ) → flags a < 256)
        → ((a : ℕ) → e.code.byte a < 256)
        → ((a : ℕ) → e.read_only_data.byte a < 256)
        → HoldsBytes loaded
    unfolding allocate
    loaded-HoldsBytes fresh_bytes flag_bytes code_bytes rod_bytes =
        copy_to-lt _ _ _ _ (λ a. flagged_bytes (100 + a))
          (copy_to-lt _ _ _ _ (λ a. flagged_bytes (100 + e.aligned_rod_size + a)) fresh_bytes)
      where
        headed_bytes : (a : ℕ) → (headed e image) a < 256
        headed_bytes =
            written-lt (other_fields e) 10 _ (written-lt first_fields 0 (λ a. 0) (λ a. omega arith))

        saved_bytes : (a : ℕ) → (saved e image).byte a < 256
        saved_bytes = copy_to-lt _ _ _ _ code_bytes (copy_to-lt _ _ _ _ rod_bytes headed_bytes)

        flagged_bytes : (a : ℕ) → (flagged e image flags).byte a < 256
        flagged_bytes a = by (leb 8 a && ltb a 10)
          where
            by : (b : Bool) → (if b then flags (a - 8) else (saved e image).byte a) < 256
            by true = flag_bytes (a - 8)
            by false = saved_bytes a

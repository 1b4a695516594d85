-- ===== src/Compiler/Packer/State/RoundTrip.antt =====
-- The linker reads the main object file that the compiler has written.
use malachite_scripting_lang.Prelude.{
  ℕ, suc, ◌+◌, ◌<◌, ◌≡◌, refl, ◌∙◌, arith, Bool, Option, some, List, [], ◌∷◌, ◌++◌,
}
use malachite_scripting_lang.Prelude.Bytes.{bytes_value, bytes_value_ext}
use malachite_scripting_lang.Outcome.{ok, ◌>>=◌, Returns}
use malachite_scripting_lang.Buffer.{StaticBpointer, Field, copy_to, bytes_of}
use malachite_scripting_lang.Buffer.Fields.{
  Fit, Holds, written, write_fields-written, written-below, copy_to-value, Holds-written,
  read_fields-Holds,
}
use malachite_scripting_lang.Linker.Definitions.{LinkingState}
use malachite_scripting_lang.Linker.Objects.{new_state, read_sections, deserialize_mo, add_sizes}
use malachite_scripting_lang.Compiler.Packer.State.{
  PackedConstant, PackedSymbol, field, files_version, mo_magic, module_prefix, module_extension,
  section_fields, order_fields, constant_fields, symbol_fields, order_size, constants_size,
  symbols_size, byterize_state,
}
use malachite_scripting_lang.Compiler.Packer.State.Reading.{
  symbols_from, total-order_fields, total-constant_fields, total-symbol_fields, read_order-Holds,
  read_symbols-Holds, constants_from, read_constants-Holds, SameConstants,
  constants_from-SameConstants,
}
use malachite_scripting_lang.Compiler.Packer.State.Sections.{
  read_sections-step, read_sections-end, length-constants, deserialize_mo-parts,
  handle_section-order, handle_section-constants, handle_section-symbols, handle_section-debug,
}
use malachite_scripting_lang.Compiler.Packer.State.Fits.{
  section_fields-Fit, IsState, order_fields-Fit, constant_fields-Fit, symbol_fields-Fit,
}

module _ (flags : ℕ) (m_ids : List ℕ) (cs : List PackedConstant) (ss : List PackedSymbol)
    (is_state : IsState flags m_ids cs ss) where
  abbrev constants_offset : ℕ
  constants_offset = 500 + order_size m_ids

  abbrev symbols_offset : ℕ
  symbols_offset = constants_offset + constants_size cs

  abbrev debug_offset : ℕ
  debug_offset = symbols_offset + symbols_size ss

  abbrev header_fields : List Field
  header_fields =
      field files_version 4
      ∷ field flags 2
      ∷ field module_prefix 32
      ∷ field module_extension 10
      ∷ (section_fields 14 500 (order_size m_ids)
          ++ section_fields 15 constants_offset (constants_size cs)
          ++ section_fields 16 symbols_offset (symbols_size ss)
          ++ section_fields 17 debug_offset 100)

  abbrev marked : ℕ → ℕ
  marked = copy_to 0 5 (bytes_of mo_magic) (λ a. 0)

  abbrev headed : ℕ → ℕ
  headed = written header_fields 5 marked

  abbrev ordered : ℕ → ℕ
  ordered = written (order_fields m_ids) 500 headed

  abbrev with_constants : ℕ → ℕ
  with_constants = written (constant_fields 0 cs) constants_offset ordered

  abbrev file : StaticBpointer
  file = record {
    bytes_size = debug_offset + 100;
    byte = written (symbol_fields 0 ss) symbols_offset with_constants;
  }

  byterize_state-file : byterize_state flags m_ids cs ss ≡ ok file
  unfolding byterize_state
  byterize_state-file =
      rw
        (
          write_fields-written header_fields
              (record { size = debug_offset + 100; offset = 5; memory = marked }) (omega arith),
          write_fields-written (order_fields m_ids)
              (record { size = debug_offset + 100; offset = 500; memory = headed })
              (omega (arith, total-order_fields m_ids)),
          total-order_fields m_ids,
          write_fields-written (constant_fields 0 cs)
              (record { size = debug_offset + 100; offset = constants_offset; memory = ordered })
              (omega (arith, total-constant_fields 0 cs)),
          total-constant_fields 0 cs,
          write_fields-written (symbol_fields 0 ss)
              (record {
                size = debug_offset + 100;
                offset = symbols_offset;
                memory = with_constants;
              })
              (omega (arith, total-symbol_fields 0 ss is_state.placed)),
        )
        refl

  below_symbols : (a : ℕ) → a < symbols_offset → file.byte a ≡ with_constants a
  below_symbols a lt = written-below (symbol_fields 0 ss) symbols_offset with_constants a lt

  below_constants : (a : ℕ) → a < constants_offset → file.byte a ≡ ordered a
  below_constants a lt =
      below_symbols a (omega arith)
      ∙ written-below (constant_fields 0 cs) constants_offset ordered a lt

  below_order : (a : ℕ) → a < 500 → file.byte a ≡ headed a
  below_order a lt =
      below_constants a (omega arith) ∙ written-below (order_fields m_ids) 500 headed a lt

  symbols-Holds : Holds file.byte symbols_offset (symbol_fields 0 ss)
  symbols-Holds =
      Holds-written (symbol_fields 0 ss) file.byte symbols_offset with_constants
        (symbol_fields-Fit 0 ss is_state.places_fit is_state.placed (omega (arith, is_state.small)))
        (λ a lo hi. refl)

  constants-Holds : Holds file.byte constants_offset (constant_fields 0 cs)
  constants-Holds =
      Holds-written (constant_fields 0 cs) file.byte constants_offset ordered
        (constant_fields-Fit 0 cs is_state.data_fit (omega (arith, is_state.small)))
        (λ a lo hi. below_symbols a (omega (arith, total-constant_fields 0 cs)))

  order-Holds : Holds file.byte 500 (order_fields m_ids)
  order-Holds =
      Holds-written (order_fields m_ids) file.byte 500 headed
        (order_fields-Fit m_ids is_state.ids_fit)
        (λ a lo hi. below_constants a (omega (arith, total-order_fields m_ids)))

  abbrev last_sections : List Field
  last_sections =
      section_fields 16 symbols_offset (symbols_size ss) ++ section_fields 17 debug_offset 100

  last_sections-Fit : Fit last_sections
  last_sections-Fit =
      section_fields-Fit 16 symbols_offset (symbols_size ss) (section_fields 17 debug_offset 100)
        (omega arith) (omega (arith, is_state.small)) (omega (arith, is_state.small))
        (omega arith, (omega (arith, is_state.small), (omega arith, tt)))

  sections-Fit : Fit (
      section_fields 14 500 (order_size m_ids)
      ++ (section_fields 15 constants_offset (constants_size cs) ++ last_sections))
  sections-Fit =
      section_fields-Fit 14 500 (order_size m_ids)
        (section_fields 15 constants_offset (constants_size cs) ++ last_sections) (omega arith)
        (omega arith) (omega (arith, is_state.small))
        (section_fields-Fit 15 constants_offset (constants_size cs) last_sections (omega arith)
          (omega (arith, is_state.small)) (omega (arith, is_state.small)) last_sections-Fit)

  header-Holds : Holds file.byte 5 header_fields
  header-Holds =
      Holds-written header_fields file.byte 5 marked
        (omega arith, (is_state.flags_fit, (omega arith, (omega arith, sections-Fit))))
        (λ a lo hi. below_order a (omega arith))

  file-magic : bytes_value file.byte 0 5 ≡ mo_magic
  file-magic =
      bytes_value_ext file.byte marked 0 5 (λ a lo hi.
        below_order a (omega arith) ∙ written-below header_fields 5 marked a (omega arith))
      ∙ copy_to-value 0 5 mo_magic (λ a. 0) (omega arith)

  abbrev start_state : Bool → LinkingState
  start_state alignment = record (new_state alignment) {
    version = files_version;
    compilation_flags = flags;
  }

  abbrev with_order : Bool → LinkingState
  with_order alignment = record (start_state alignment) { linking_order = m_ids }

  abbrev with_both : Bool → LinkingState
  with_both alignment = record (with_order alignment) {
    constants = constants_from file alignment 0 constants_offset cs;
    constants_size = add_sizes 0 (constants_from file alignment 0 constants_offset cs);
  }

  -- The state that the linker makes of the file.
  abbrev read_state : Bool → LinkingState
  read_state alignment = record (with_both alignment) { symbols = symbols_from 0 ss }

  -- The four entries of the table.
  sections-read :
      (alignment : Bool)
      → read_sections file 4 53 (start_state alignment) ≡ ok (some (read_state alignment))
  sections-read alignment =
      read_sections-step file 3 53 14 500 (order_size m_ids) (start_state alignment) _ (omega arith)
        (table.0, (table.1.0, (table.1.1.0, tt))) (omega (arith, is_state.small))
        (handle_section-order file 500 (order_size m_ids) (start_state alignment) m_ids (
          read_order-Holds file m_ids (suc file.bytes_size) 500 _ (omega arith)
            (omega (arith, is_state.small)) (omega (arith, is_state.small)) order-Holds))
      ∙ read_sections-step file 2 70 15 constants_offset (constants_size cs) (with_order alignment)
          _ (omega arith) (third.0, (third.1.0, (third.1.1.0, tt))) (omega (arith, is_state.small))
          (handle_section-constants file constants_offset (constants_size cs) (with_order alignment)
            _
            (read_constants-Holds file alignment 0 cs (suc file.bytes_size) constants_offset _
              (omega (arith, length-constants cs)) (omega (arith, is_state.small))
              (omega (arith, is_state.small)) constants-Holds))
      ∙ read_sections-step file 1 87 16 symbols_offset (symbols_size ss) (with_both alignment) _
          (omega arith) (fourth.0, (fourth.1.0, (fourth.1.1.0, tt))) (omega (arith, is_state.small))
          (handle_section-symbols file symbols_offset (symbols_size ss) (with_both alignment) _ (
            read_symbols-Holds file 0 ss (suc file.bytes_size) symbols_offset _ is_state.placed
              (omega arith) (omega (arith, is_state.small)) (omega (arith, is_state.small))
              symbols-Holds))
      ∙ read_sections-step file 0 104 17 debug_offset 100 (read_state alignment) _ (omega arith)
          (last.0, (last.1.0, (last.1.1.0, tt))) (omega (arith, is_state.small))
          (handle_section-debug file debug_offset 100 (read_state alignment))
      ∙ read_sections-end file 121 (read_state alignment)
    where
      table : Holds file.byte 53 (
          section_fields 14 500 (order_size m_ids)
          ++ section_fields 15 constants_offset (constants_size cs)
          ++ section_fields 16 symbols_offset (symbols_size ss)
          ++ section_fields 17 debug_offset 100)
      table = header-Holds.1.1.1.1

      third : Holds file.byte 70 (
          section_fields 15 constants_offset (constants_size cs)
          ++ section_fields 16 symbols_offset (symbols_size ss)
          ++ section_fields 17 debug_offset 100)
      third = table.1.1.1

      fourth :
          Holds file.byte 87 (
            section_fields 16 symbols_offset (symbols_size ss)
            ++ section_fields 17 debug_offset 100)
      fourth = third.1.1.1

      last : Holds file.byte 104 (section_fields 17 debug_offset 100)
      last = fourth.1.1.1

  -- A main object file within the C++ types and below 2 ^ 60 bytes, whose unhandled symbols are functions
  -- and variables, is written by ByterizeCompilationState and accepted by DeserializeMO, which finds the
  -- modules in their order, the symbols with their numbers, places, modules and types, and every
  -- constant with its number, its size and its bytes.
  pub deserialize_mo-byterize_state :
      (alignment : Bool)
      → Returns
          (λ (answer : Option LinkingState).
            (state : LinkingState) × (answer ≡ some state)
            × (state.linking_order ≡ m_ids)
            × (state.symbols ≡ symbols_from 0 ss)
            × SameConstants 0 cs state.constants)
          (byterize_state flags m_ids cs ss >>= λ b. deserialize_mo alignment (some b))
  deserialize_mo-byterize_state alignment =
      rw (byterize_state-file, deserialized)
        (
          read_state alignment,
          refl,
          refl,
          refl,
          constants_from-SameConstants file alignment 0 cs constants_offset constants-Holds,
        )
    where
      deserialized : deserialize_mo alignment (some file) ≡ ok (some (read_state alignment))
      deserialized =
          deserialize_mo-parts alignment file (omega arith) file-magic
            (read_fields-Holds (field files_version 4 ∷ field flags 2 ∷ []) file 5 (omega arith)
              (header-Holds.0, (header-Holds.1.0, tt)))
            (sections-read alignment)

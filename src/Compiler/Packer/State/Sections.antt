-- ===== src/Compiler/Packer/State/Sections.antt =====
-- One entry of the section table of a main object file, read by the linker.
use malachite_scripting_lang.Prelude.{
  ℕ, suc, ◌+◌, ◌≤◌, ◌≡◌, refl, arith, Bool, true, false, ◌==◌, some, List, [], ◌∷◌, ◌++◌, length,
  ltb,
}
use malachite_scripting_lang.Prelude.Bytes.{bytes_value}
use malachite_scripting_lang.Outcome.{ok}
use malachite_scripting_lang.Vm.Definitions.{u64}
use malachite_scripting_lang.Buffer.{StaticBpointer, read_fields}
use malachite_scripting_lang.Buffer.Fields.{Holds, read_fields-Holds}
use malachite_scripting_lang.Linker.Definitions.{SymbolData, ConstantData, LinkingState}
use malachite_scripting_lang.Linker.Objects.{
  new_state, read_order, read_constants, read_symbols, handle_section, section_of, read_sections,
  state_of, deserialize_mo, add_sizes,
}
use malachite_scripting_lang.Compiler.Packer.State.{
  PackedConstant, mo_magic, section_fields, constants_size,
}

-- One round over the section table.
pub read_sections-step :
    (b : StaticBpointer) (count offset type section_offset section_size : ℕ)
    (state state' : LinkingState)
    → offset + 17 ≤ b.bytes_size
    → Holds b.byte offset (section_fields type section_offset section_size)
    → u64 (offset + 17 + section_size) ≤ b.bytes_size
    → handle_section b type section_offset section_size state ≡ ok state'
    → read_sections b (suc count) offset state ≡ read_sections b count (offset + 17) state'
unfolding read_sections section_of
read_sections-step b count offset type section_offset section_size state state' room h fits e =
    let inside : ltb b.bytes_size (u64 (offset + 17 + section_size)) ≡ false = ground arith in
    rw
      (
        read_fields-Holds (section_fields type section_offset section_size) b offset (omega arith)
            h,
        inside,
        e,
      )
      refl

pub read_sections-end :
    (b : StaticBpointer) (offset : ℕ) (state : LinkingState)
    → read_sections b 0 offset state ≡ ok (some state)
unfolding read_sections
read_sections-end b offset state = refl

pub length-constants : (cs : List PackedConstant) → length cs ≤ constants_size cs
length-constants [] = omega arith
length-constants (c ∷ cs) = omega (arith, length-constants cs)

pub deserialize_mo-parts :
    (alignment : Bool) (b : StaticBpointer) {version flags : ℕ} {state : LinkingState}
    → 500 ≤ b.bytes_size
    → bytes_value b.byte 0 5 ≡ mo_magic
    → read_fields b 5 (4 ∷ 2 ∷ []) ≡ ok (version ∷ flags ∷ [])
    → read_sections b 4 53
        (record (new_state alignment) { version = version; compilation_flags = flags })
      ≡ ok (some state)
    → deserialize_mo alignment (some b) ≡ ok (some state)
unfolding deserialize_mo state_of
deserialize_mo-parts alignment b big magic header sections =
    let some_bytes : (b.bytes_size == 0) ≡ false = ground arith in
    let enough : ltb b.bytes_size 500 ≡ false = ground arith in
    let mark : (bytes_value b.byte 0 5 == mo_magic) ≡ true = ground (arith, magic) in
    rw (some_bytes, enough, mark, header) sections

-- The three kinds of sections.
module _ (b : StaticBpointer) (offset size : ℕ) (state : LinkingState) where
  pub handle_section-order :
      (m_ids : List ℕ)
      → read_order b (suc b.bytes_size) offset (u64 (offset + size)) ≡ ok m_ids
      → handle_section b 14 offset size state
        ≡ ok (record state { linking_order = state.linking_order ++ m_ids })
  unfolding handle_section
  handle_section-order m_ids e = rw e refl

  pub handle_section-constants :
      (ds : List ConstantData)
      → read_constants b state.using_constant_alignment
          (suc b.bytes_size)
          offset
          (u64 (offset + size))
        ≡ ok ds
      → handle_section b 15 offset size state
        ≡ ok (record state {
          constants = state.constants ++ ds;
          constants_size = add_sizes state.constants_size ds;
        })
  unfolding handle_section
  handle_section-constants ds e = rw e refl

  pub handle_section-symbols :
      (found : List SymbolData)
      → read_symbols b (suc b.bytes_size) offset (u64 (offset + size)) ≡ ok found
      → handle_section b 16 offset size state
        ≡ ok (record state { symbols = state.symbols ++ found })
  unfolding handle_section
  handle_section-symbols found e = rw e refl

  pub handle_section-debug : handle_section b 17 offset size state ≡ ok state
  unfolding handle_section
  handle_section-debug = refl

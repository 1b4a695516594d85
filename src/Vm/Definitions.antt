-- ===== src/Vm/Definitions.antt =====
-- MSLVM/include/mslvm/vm_definitions.hpp: constants, special registers, flags, operation codes and
-- the operation. A `Register` is a union of 64-bit views: it is its word, a number below 2 ^ 64.
use malachite_scripting_lang.Prelude.{
  ℕ, ◌-◌, ◌+◌, ◌/◌, ◌%◌, ◌^◌, none, some, List, [], ◌∷◌, get_elem?,
}

abbrev pub u64 : ℕ → ℕ
u64 n = n % 2 ^ 64

-- `a - b` of two 64-bit words.
abbrev pub sub64 : ℕ → ℕ → ℕ
sub64 a b = (a + 2 ^ 64 - b) % 2 ^ 64

abbrev pub total_registers : ℕ
total_registers = 128

-- UINT16_MAX / 2
abbrev pub min_stack_size : ℕ
min_stack_size = 65535 / 2

abbrev pub min_heap_size : ℕ
min_heap_size = 65535 / 2

abbrev pub default_alignment : ℕ
default_alignment = 8

abbrev pub call_stack_size : ℕ
call_stack_size = 256

abbrev pub error_stack_size : ℕ
error_stack_size = 64

-- VMOperationCode; `unlisted` is a byte that is no enumerator.
pub data VmOperationCode : Type 0 where
  nop : VmOperationCode
  add_rrr_real sub_rrr_real div_rrr_real mul_rrr_real neg_rr_real : VmOperationCode
  add_rrr_integer sub_rrr_integer div_rrr_integer mul_rrr_integer : VmOperationCode
  neg_rr_integer mod_rrr_integer : VmOperationCode
  add_rrr_unsigned sub_rrr_unsigned div_rrr_unsigned mul_rrr_unsigned : VmOperationCode
  mod_rrr_unsigned : VmOperationCode
  and_rrr or_rrr not_rr bit_or_rrr bit_not_rr bit_and_rrr : VmOperationCode
  bit_offset_left_rrr bit_offset_right_rrr : VmOperationCode
  cmp_rr_integer cmp_rr_unsigned cmp_rr_real get_flag : VmOperationCode
  mov_rr mov_ri push pop : VmOperationCode
  load_absolute load_local store_local : VmOperationCode
  calc_frame_address load_by_address store_by_address : VmOperationCode
  load_const_local load_const_by_address : VmOperationCode
  allocate_memory free_memory grab_frame static_copy dynamic_copy : VmOperationCode
  jmp jmp_cv jmp_cnv call ret halt : VmOperationCode
  vm_call : VmOperationCode
  tc_itr_r tc_rti_r tc_utr_r tc_uti_r tc_rtu_r tc_itu_r : VmOperationCode
  unlisted : VmOperationCode

-- The enumerators in the order of their values, from 0.
abbrev operation_codes : List VmOperationCode
operation_codes =
    nop ∷ add_rrr_real ∷ sub_rrr_real ∷ div_rrr_real ∷ mul_rrr_real ∷ neg_rr_real ∷ add_rrr_integer
    ∷ sub_rrr_integer ∷ div_rrr_integer ∷ mul_rrr_integer ∷ neg_rr_integer ∷ mod_rrr_integer
    ∷ add_rrr_unsigned ∷ sub_rrr_unsigned ∷ div_rrr_unsigned ∷ mul_rrr_unsigned ∷ mod_rrr_unsigned
    ∷ and_rrr ∷ or_rrr ∷ not_rr ∷ bit_or_rrr ∷ bit_not_rr ∷ bit_and_rrr ∷ bit_offset_left_rrr
    ∷ bit_offset_right_rrr ∷ cmp_rr_integer ∷ cmp_rr_unsigned ∷ cmp_rr_real ∷ get_flag ∷ mov_rr
    ∷ mov_ri ∷ push ∷ pop ∷ load_absolute ∷ load_local ∷ store_local ∷ calc_frame_address
    ∷ load_by_address ∷ store_by_address ∷ load_const_local ∷ load_const_by_address
    ∷ allocate_memory ∷ free_memory ∷ grab_frame ∷ static_copy ∷ dynamic_copy ∷ jmp ∷ jmp_cv
    ∷ jmp_cnv ∷ call ∷ ret ∷ halt ∷ vm_call ∷ tc_itr_r ∷ tc_rti_r ∷ tc_utr_r ∷ tc_uti_r ∷ tc_rtu_r
    ∷ tc_itu_r ∷ []

-- The enumerator that a byte of the code section holds.
unfoldable pub operation_code : ℕ → VmOperationCode
operation_code byte = elim (get_elem? operation_codes byte) [ none ↦ unlisted | some c ↦ c ]

-- VMOperation: 32 bytes, with the arguments at 0, 8 and 16, `dsi` at 24 and `code` at 28.
pub record VmOperation : Type 0 where
  pub arg0 : ℕ
  pub arg1 : ℕ
  pub arg2 : ℕ
  pub dsi : ℕ
  pub code : VmOperationCode

abbrev pub operation_size : ℕ
operation_size = 32

-- ===== src/Linker/Image/Code.antt =====
-- `memcpy(code.ptr, commands.data(), ...)`: the operations of MSLVM_1 as bytes, 32 for each.
use malachite_scripting_lang.Prelude.{
  ℕ, ◌-◌, ◌/◌, ◌%◌, none, some, List, get_elem?, ltb, ◌==◌, if◌then◌else◌,
}
use malachite_scripting_lang.Vm.Definitions.{VmOperationCode, VmOperation, operation_size}
use malachite_scripting_lang.Buffer.{bytes_of}

-- The value of an enumerator.
unfoldable pub operation_value : VmOperationCode → ℕ
operation_value VmOperationCode.nop = 0
operation_value VmOperationCode.add_rrr_real = 1
operation_value VmOperationCode.sub_rrr_real = 2
operation_value VmOperationCode.div_rrr_real = 3
operation_value VmOperationCode.mul_rrr_real = 4
operation_value VmOperationCode.neg_rr_real = 5
operation_value VmOperationCode.add_rrr_integer = 6
operation_value VmOperationCode.sub_rrr_integer = 7
operation_value VmOperationCode.div_rrr_integer = 8
operation_value VmOperationCode.mul_rrr_integer = 9
operation_value VmOperationCode.neg_rr_integer = 10
operation_value VmOperationCode.mod_rrr_integer = 11
operation_value VmOperationCode.add_rrr_unsigned = 12
operation_value VmOperationCode.sub_rrr_unsigned = 13
operation_value VmOperationCode.div_rrr_unsigned = 14
operation_value VmOperationCode.mul_rrr_unsigned = 15
operation_value VmOperationCode.mod_rrr_unsigned = 16
operation_value VmOperationCode.and_rrr = 17
operation_value VmOperationCode.or_rrr = 18
operation_value VmOperationCode.not_rr = 19
operation_value VmOperationCode.bit_or_rrr = 20
operation_value VmOperationCode.bit_not_rr = 21
operation_value VmOperationCode.bit_and_rrr = 22
operation_value VmOperationCode.bit_offset_left_rrr = 23
operation_value VmOperationCode.bit_offset_right_rrr = 24
operation_value VmOperationCode.cmp_rr_integer = 25
operation_value VmOperationCode.cmp_rr_unsigned = 26
operation_value VmOperationCode.cmp_rr_real = 27
operation_value VmOperationCode.get_flag = 28
operation_value VmOperationCode.mov_rr = 29
operation_value VmOperationCode.mov_ri = 30
operation_value VmOperationCode.push = 31
operation_value VmOperationCode.pop = 32
operation_value VmOperationCode.load_absolute = 33
operation_value VmOperationCode.load_local = 34
operation_value VmOperationCode.store_local = 35
operation_value VmOperationCode.calc_frame_address = 36
operation_value VmOperationCode.load_by_address = 37
operation_value VmOperationCode.store_by_address = 38
operation_value VmOperationCode.load_const_local = 39
operation_value VmOperationCode.load_const_by_address = 40
operation_value VmOperationCode.allocate_memory = 41
operation_value VmOperationCode.free_memory = 42
operation_value VmOperationCode.grab_frame = 43
operation_value VmOperationCode.static_copy = 44
operation_value VmOperationCode.dynamic_copy = 45
operation_value VmOperationCode.jmp = 46
operation_value VmOperationCode.jmp_cv = 47
operation_value VmOperationCode.jmp_cnv = 48
operation_value VmOperationCode.call = 49
operation_value VmOperationCode.ret = 50
operation_value VmOperationCode.halt = 51
operation_value VmOperationCode.vm_call = 52
operation_value VmOperationCode.tc_itr_r = 53
operation_value VmOperationCode.tc_rti_r = 54
operation_value VmOperationCode.tc_utr_r = 55
operation_value VmOperationCode.tc_uti_r = 56
operation_value VmOperationCode.tc_rtu_r = 57
operation_value VmOperationCode.tc_itu_r = 58
operation_value VmOperationCode.unlisted = 255

-- Byte `i` of an operation: the arguments at 0, 8 and 16, `dsi` at 24 and `code` at 28. The last three
-- bytes belong to no field.
unfoldable pub operation_byte : ℕ → VmOperation → ℕ → ℕ
unfolding operation_value
operation_byte pad o i =
    if ltb i 8
    then bytes_of o.arg0 i
    else if ltb i 16
    then bytes_of o.arg1 (i - 8)
    else if ltb i 24
    then bytes_of o.arg2 (i - 16)
    else if ltb i 28
    then bytes_of o.dsi (i - 24)
    else if i == 28
    then operation_value o.code
    else pad

-- Byte `a` of the operations one behind another.
unfoldable pub code_byte : (ℕ → ℕ) → List VmOperation → ℕ → ℕ
unfolding operation_byte
code_byte padding os a = elim (get_elem? os (a / operation_size)) [
  | none ↦ 0
  | some o ↦ operation_byte (padding a) o (a % operation_size)
]

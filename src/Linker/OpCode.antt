-- ===== src/Linker/OpCode.antt =====
-- ByteOpCode of MSLL/include/ObjectsReading/LinkDefinitions.hpp, and OpCodeTable of
-- MSLL/include/Translators/MSLVM_1/MSLVM_1Common.hpp.
use malachite_scripting_lang.Prelude.{
  ℕ, ◌<◌, ◌≡◌, refl, arith, Bool, ◌&&◌, ltb, none, some, List, [], ◌∷◌, get_elem?,
}
use malachite_scripting_lang.Vm.Definitions.{VmOperationCode}

-- The enumerators, those included that only mark a section; `unlisted` is a byte that is none.
pub data ByteOpCode : Type 0 where
  nop comp_flg section_arithmetic_st addr subr divr mulr negr expr addi subi : ByteOpCode
  divi muli negi modi expi addu subu divu mulu modu expu section_arithmetic_ed : ByteOpCode
  section_logic_st and or not bit_or bit_not bit_and bit_offset_left : ByteOpCode
  bit_offset_right section_logic_ed section_comparing_st equali not_equali : ByteOpCode
  greateri lessi egreateri elessi equalu not_equalu greateru lessu egreateru : ByteOpCode
  elessu equalr not_equalr greaterr lessr egreaterr elessr section_comparing_ed : ByteOpCode
  section_memory_st movrr movri stack_up stack_down push pop lea_static : ByteOpCode
  lea_dynamic load_dynamic store_dynamic load_const_static lea_const load_static : ByteOpCode
  store_static alloc free copy_dynamic copy_static section_memory_ed : ByteOpCode
  section_control_flow_st jmp_label jmp jmpcv jmpcnv call ret ext : ByteOpCode
  section_control_flow_ed section_special_st tc_itr tc_rti tc_utr tc_uti tc_rtu : ByteOpCode
  tc_itu symbol_label mov_from_sr spec_call section_special_ed : ByteOpCode
  unlisted : ℕ → ByteOpCode

-- The value of an enumerator.
unfoldable pub value : ByteOpCode → ℕ
value ByteOpCode.nop = 0
value ByteOpCode.comp_flg = 1
value ByteOpCode.section_arithmetic_st = 2
value ByteOpCode.addr = 3
value ByteOpCode.subr = 4
value ByteOpCode.divr = 5
value ByteOpCode.mulr = 6
value ByteOpCode.negr = 7
value ByteOpCode.expr = 8
value ByteOpCode.addi = 9
value ByteOpCode.subi = 10
value ByteOpCode.divi = 11
value ByteOpCode.muli = 12
value ByteOpCode.negi = 13
value ByteOpCode.modi = 14
value ByteOpCode.expi = 15
value ByteOpCode.addu = 16
value ByteOpCode.subu = 17
value ByteOpCode.divu = 18
value ByteOpCode.mulu = 19
value ByteOpCode.modu = 20
value ByteOpCode.expu = 21
value ByteOpCode.section_arithmetic_ed = 22
value ByteOpCode.section_logic_st = 23
value ByteOpCode.and = 24
value ByteOpCode.or = 25
value ByteOpCode.not = 26
value ByteOpCode.bit_or = 27
value ByteOpCode.bit_not = 28
value ByteOpCode.bit_and = 29
value ByteOpCode.bit_offset_left = 30
value ByteOpCode.bit_offset_right = 31
value ByteOpCode.section_logic_ed = 32
value ByteOpCode.section_comparing_st = 33
value ByteOpCode.equali = 34
value ByteOpCode.not_equali = 35
value ByteOpCode.greateri = 36
value ByteOpCode.lessi = 37
value ByteOpCode.egreateri = 38
value ByteOpCode.elessi = 39
value ByteOpCode.equalu = 40
value ByteOpCode.not_equalu = 41
value ByteOpCode.greateru = 42
value ByteOpCode.lessu = 43
value ByteOpCode.egreateru = 44
value ByteOpCode.elessu = 45
value ByteOpCode.equalr = 46
value ByteOpCode.not_equalr = 47
value ByteOpCode.greaterr = 48
value ByteOpCode.lessr = 49
value ByteOpCode.egreaterr = 50
value ByteOpCode.elessr = 51
value ByteOpCode.section_comparing_ed = 52
value ByteOpCode.section_memory_st = 53
value ByteOpCode.movrr = 54
value ByteOpCode.movri = 55
value ByteOpCode.stack_up = 56
value ByteOpCode.stack_down = 57
value ByteOpCode.push = 58
value ByteOpCode.pop = 59
value ByteOpCode.lea_static = 60
value ByteOpCode.lea_dynamic = 61
value ByteOpCode.load_dynamic = 62
value ByteOpCode.store_dynamic = 63
value ByteOpCode.load_const_static = 64
value ByteOpCode.lea_const = 65
value ByteOpCode.load_static = 66
value ByteOpCode.store_static = 67
value ByteOpCode.alloc = 68
value ByteOpCode.free = 69
value ByteOpCode.copy_dynamic = 70
value ByteOpCode.copy_static = 71
value ByteOpCode.section_memory_ed = 72
value ByteOpCode.section_control_flow_st = 73
value ByteOpCode.jmp_label = 74
value ByteOpCode.jmp = 75
value ByteOpCode.jmpcv = 76
value ByteOpCode.jmpcnv = 77
value ByteOpCode.call = 78
value ByteOpCode.ret = 79
value ByteOpCode.ext = 80
value ByteOpCode.section_control_flow_ed = 81
value ByteOpCode.section_special_st = 82
value ByteOpCode.tc_itr = 83
value ByteOpCode.tc_rti = 84
value ByteOpCode.tc_utr = 85
value ByteOpCode.tc_uti = 86
value ByteOpCode.tc_rtu = 87
value ByteOpCode.tc_itu = 88
value ByteOpCode.symbol_label = 89
value ByteOpCode.mov_from_sr = 90
value ByteOpCode.spec_call = 91
value ByteOpCode.section_special_ed = 92
value (ByteOpCode.unlisted byte) = byte

-- Strictly between the marks of the section.
unfoldable pub is_arithmetic : ByteOpCode → Bool
unfolding value
is_arithmetic code =
    ltb (value ByteOpCode.section_arithmetic_st) (value code)
    && ltb (value code) (value ByteOpCode.section_arithmetic_ed)

-- Strictly between the marks of the section.
unfoldable pub is_logic : ByteOpCode → Bool
unfolding value
is_logic code =
    ltb (value ByteOpCode.section_logic_st) (value code)
    && ltb (value code) (value ByteOpCode.section_logic_ed)

-- Strictly between the marks of the section.
unfoldable pub is_comparing : ByteOpCode → Bool
unfolding value
is_comparing code =
    ltb (value ByteOpCode.section_comparing_st) (value code)
    && ltb (value code) (value ByteOpCode.section_comparing_ed)

-- Strictly between the marks of the section.
unfoldable pub is_memory : ByteOpCode → Bool
unfolding value
is_memory code =
    ltb (value ByteOpCode.section_memory_st) (value code)
    && ltb (value code) (value ByteOpCode.section_memory_ed)

-- Strictly between the marks of the section.
unfoldable pub is_control_flow : ByteOpCode → Bool
unfolding value
is_control_flow code =
    ltb (value ByteOpCode.section_control_flow_st) (value code)
    && ltb (value code) (value ByteOpCode.section_control_flow_ed)

-- Strictly between the marks of the section.
unfoldable pub is_special : ByteOpCode → Bool
unfolding value
is_special code =
    ltb (value ByteOpCode.section_special_st) (value code)
    && ltb (value code) (value ByteOpCode.section_special_ed)

-- OpCodeTable::At; what the table does not have is NOP.
unfoldable pub at_code : ByteOpCode → VmOperationCode
at_code ByteOpCode.addr = VmOperationCode.add_rrr_real
at_code ByteOpCode.subr = VmOperationCode.sub_rrr_real
at_code ByteOpCode.divr = VmOperationCode.div_rrr_real
at_code ByteOpCode.mulr = VmOperationCode.mul_rrr_real
at_code ByteOpCode.negr = VmOperationCode.neg_rr_real
at_code ByteOpCode.expr = VmOperationCode.nop
at_code ByteOpCode.addi = VmOperationCode.add_rrr_integer
at_code ByteOpCode.subi = VmOperationCode.sub_rrr_integer
at_code ByteOpCode.divi = VmOperationCode.div_rrr_integer
at_code ByteOpCode.muli = VmOperationCode.mul_rrr_integer
at_code ByteOpCode.negi = VmOperationCode.neg_rr_integer
at_code ByteOpCode.modi = VmOperationCode.mod_rrr_integer
at_code ByteOpCode.expi = VmOperationCode.nop
at_code ByteOpCode.addu = VmOperationCode.add_rrr_unsigned
at_code ByteOpCode.subu = VmOperationCode.sub_rrr_unsigned
at_code ByteOpCode.divu = VmOperationCode.div_rrr_unsigned
at_code ByteOpCode.mulu = VmOperationCode.mul_rrr_unsigned
at_code ByteOpCode.modu = VmOperationCode.mod_rrr_unsigned
at_code ByteOpCode.expu = VmOperationCode.nop
at_code ByteOpCode.and = VmOperationCode.and_rrr
at_code ByteOpCode.or = VmOperationCode.or_rrr
at_code ByteOpCode.not = VmOperationCode.not_rr
at_code ByteOpCode.bit_or = VmOperationCode.bit_or_rrr
at_code ByteOpCode.bit_not = VmOperationCode.bit_not_rr
at_code ByteOpCode.bit_and = VmOperationCode.bit_and_rrr
at_code ByteOpCode.bit_offset_left = VmOperationCode.bit_offset_left_rrr
at_code ByteOpCode.bit_offset_right = VmOperationCode.bit_offset_right_rrr
at_code _ = VmOperationCode.nop

-- The enumerators in the order of their values, from 0.
abbrev enumerators : List ByteOpCode
enumerators =
    ByteOpCode.nop ∷ ByteOpCode.comp_flg ∷ ByteOpCode.section_arithmetic_st ∷ ByteOpCode.addr
    ∷ ByteOpCode.subr ∷ ByteOpCode.divr ∷ ByteOpCode.mulr ∷ ByteOpCode.negr ∷ ByteOpCode.expr
    ∷ ByteOpCode.addi ∷ ByteOpCode.subi ∷ ByteOpCode.divi ∷ ByteOpCode.muli ∷ ByteOpCode.negi
    ∷ ByteOpCode.modi ∷ ByteOpCode.expi ∷ ByteOpCode.addu ∷ ByteOpCode.subu ∷ ByteOpCode.divu
    ∷ ByteOpCode.mulu ∷ ByteOpCode.modu ∷ ByteOpCode.expu ∷ ByteOpCode.section_arithmetic_ed
    ∷ ByteOpCode.section_logic_st ∷ ByteOpCode.and ∷ ByteOpCode.or ∷ ByteOpCode.not
    ∷ ByteOpCode.bit_or ∷ ByteOpCode.bit_not ∷ ByteOpCode.bit_and ∷ ByteOpCode.bit_offset_left
    ∷ ByteOpCode.bit_offset_right ∷ ByteOpCode.section_logic_ed ∷ ByteOpCode.section_comparing_st
    ∷ ByteOpCode.equali ∷ ByteOpCode.not_equali ∷ ByteOpCode.greateri ∷ ByteOpCode.lessi
    ∷ ByteOpCode.egreateri ∷ ByteOpCode.elessi ∷ ByteOpCode.equalu ∷ ByteOpCode.not_equalu
    ∷ ByteOpCode.greateru ∷ ByteOpCode.lessu ∷ ByteOpCode.egreateru ∷ ByteOpCode.elessu
    ∷ ByteOpCode.equalr ∷ ByteOpCode.not_equalr ∷ ByteOpCode.greaterr ∷ ByteOpCode.lessr
    ∷ ByteOpCode.egreaterr ∷ ByteOpCode.elessr ∷ ByteOpCode.section_comparing_ed
    ∷ ByteOpCode.section_memory_st ∷ ByteOpCode.movrr ∷ ByteOpCode.movri ∷ ByteOpCode.stack_up
    ∷ ByteOpCode.stack_down ∷ ByteOpCode.push ∷ ByteOpCode.pop ∷ ByteOpCode.lea_static
    ∷ ByteOpCode.lea_dynamic ∷ ByteOpCode.load_dynamic ∷ ByteOpCode.store_dynamic
    ∷ ByteOpCode.load_const_static ∷ ByteOpCode.lea_const ∷ ByteOpCode.load_static
    ∷ ByteOpCode.store_static ∷ ByteOpCode.alloc ∷ ByteOpCode.free ∷ ByteOpCode.copy_dynamic
    ∷ ByteOpCode.copy_static ∷ ByteOpCode.section_memory_ed ∷ ByteOpCode.section_control_flow_st
    ∷ ByteOpCode.jmp_label ∷ ByteOpCode.jmp ∷ ByteOpCode.jmpcv ∷ ByteOpCode.jmpcnv ∷ ByteOpCode.call
    ∷ ByteOpCode.ret ∷ ByteOpCode.ext ∷ ByteOpCode.section_control_flow_ed
    ∷ ByteOpCode.section_special_st ∷ ByteOpCode.tc_itr ∷ ByteOpCode.tc_rti ∷ ByteOpCode.tc_utr
    ∷ ByteOpCode.tc_uti ∷ ByteOpCode.tc_rtu ∷ ByteOpCode.tc_itu ∷ ByteOpCode.symbol_label
    ∷ ByteOpCode.mov_from_sr ∷ ByteOpCode.spec_call ∷ ByteOpCode.section_special_ed ∷ []

-- The enumerator that a byte stands for.
unfoldable pub byte_op_code : ℕ → ByteOpCode
byte_op_code byte = elim (get_elem? enumerators byte) [
  | none ↦ ByteOpCode.unlisted byte
  | some code ↦ code
]

-- An enumerator, and not another byte.
abbrev pub IsListed : ByteOpCode → Type 0
IsListed (ByteOpCode.unlisted byte) = ⊥
IsListed _ = Unit

pub byte_op_code-value : (code : ByteOpCode) → IsListed code → byte_op_code (value code) ≡ code
unfolding byte_op_code value
byte_op_code-value (ByteOpCode.unlisted byte) h = elim h [ ]
byte_op_code-value _ h = refl

pub value-lt : (code : ByteOpCode) → IsListed code → value code < 256
unfolding value
value-lt (ByteOpCode.unlisted byte) h = elim h [ ]
value-lt _ h = omega arith

-- ===== src/Linker/Translator/Comparing.antt =====
-- TranslatorVM_1::HandleCOMP: a comparison becomes CMP, GET_FLAG and, for an inequality, NOT.
use malachite_scripting_lang.Prelude.{ℕ, Bool, true, false, Option, none, some, List, if◌then◌else◌}
use malachite_scripting_lang.Vm.Definitions.{VmOperation, VmOperationCode}
use malachite_scripting_lang.Vm.Flag
use malachite_scripting_lang.Linker.OpCode.{ByteOpCode}
use malachite_scripting_lang.Linker.Definitions.{ByteCommand}
use malachite_scripting_lang.Linker.Translator.Emission.{operation_of, push_back}

-- What the switch sets: the comparison, the two flags that are asked for, and `use_not`.
pub record Question : Type 0 where
  pub compare : VmOperationCode
  pub flag0 : ℕ
  pub flag1 : ℕ
  pub use_not : Bool

abbrev ask : VmOperationCode → ℕ → ℕ → Option Question
ask compare flag0 flag1 =
    some (record { compare = compare; flag0 = flag0; flag1 = flag1; use_not = false })

abbrev ask_not : VmOperationCode → ℕ → Option Question
ask_not compare flag = some (record { compare = compare; flag0 = flag; flag1 = 0; use_not = true })

-- The switch; `none` is its default.
unfoldable pub question : ByteOpCode → Option Question
question ByteOpCode.equali = ask VmOperationCode.cmp_rr_integer Flag.zero 0
question ByteOpCode.not_equali = ask_not VmOperationCode.cmp_rr_integer Flag.zero
question ByteOpCode.greateri = ask VmOperationCode.cmp_rr_integer Flag.greater 0
question ByteOpCode.lessi = ask VmOperationCode.cmp_rr_integer Flag.less 0
question ByteOpCode.egreateri = ask VmOperationCode.cmp_rr_integer Flag.greater Flag.zero
question ByteOpCode.elessi = ask VmOperationCode.cmp_rr_integer Flag.less Flag.zero
question ByteOpCode.equalu = ask VmOperationCode.cmp_rr_unsigned Flag.zero 0
question ByteOpCode.not_equalu = ask_not VmOperationCode.cmp_rr_unsigned Flag.zero
question ByteOpCode.greateru = ask VmOperationCode.cmp_rr_unsigned Flag.greater 0
question ByteOpCode.lessu = ask VmOperationCode.cmp_rr_unsigned Flag.less 0
question ByteOpCode.egreateru = ask VmOperationCode.cmp_rr_unsigned Flag.greater Flag.zero
question ByteOpCode.elessu = ask VmOperationCode.cmp_rr_unsigned Flag.less Flag.zero
question ByteOpCode.equalr = ask VmOperationCode.cmp_rr_real Flag.zero 0
question ByteOpCode.not_equalr = ask_not VmOperationCode.cmp_rr_real Flag.zero
question ByteOpCode.greaterr = ask VmOperationCode.cmp_rr_real Flag.greater 0
question ByteOpCode.lessr = ask VmOperationCode.cmp_rr_real Flag.less 0
question ByteOpCode.egreaterr = ask VmOperationCode.cmp_rr_real Flag.greater Flag.zero
question ByteOpCode.elessr = ask VmOperationCode.cmp_rr_real Flag.less Flag.zero
question _ = none

-- The two or three operations.
abbrev pub answer : Question → ByteCommand → List VmOperation → List VmOperation
answer q command result =
    let dest = command.arg0.data_word in
    let compared =
      push_back result (operation_of q.compare command.arg1.data_word command.arg2.data_word 0) in
    let flagged = push_back compared (operation_of VmOperationCode.get_flag dest q.flag0 q.flag1) in
    if q.use_not
    then push_back flagged (operation_of VmOperationCode.not_rr dest dest 0)
    else flagged

-- HandleCOMP
unfoldable pub handle_comp : ByteCommand → List VmOperation → Bool × List VmOperation
unfolding question
handle_comp command result = elim (question command.code) [
  | none ↦ (false, result)
  | some q ↦ (true, answer q command result)
]

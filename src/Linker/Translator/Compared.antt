-- ===== src/Linker/Translator/Compared.antt =====
-- What the translation of a comparison computes, when the machine runs it.
use malachite_scripting_lang.Prelude.{
  ℕ, ◌^◌, ◌<◌, ◌≡◌, ◌≢◌, refl, ap, arith, Bool, true, false, not, ◌||◌, List, [], ◌∷◌, ltb, ◌==◌,
  lt→ltb, ne→==, ==_self,
}
use malachite_scripting_lang.Prelude.Bits.{bit_and-mask}
use malachite_scripting_lang.Prelude.Int.{signed64, ltb_ℤ}
use malachite_scripting_lang.Outcome.{Outcome, ok, throws, undefined, ◌>>=◌, Returns}
use malachite_scripting_lang.Vm.Definitions.{VmOperation, VmOperationCode, total_registers}
use malachite_scripting_lang.Vm.SpecialRegister
use malachite_scripting_lang.Vm.Flag
use malachite_scripting_lang.Vm.Reals.{Reals}
use malachite_scripting_lang.Vm.State.{VmState, put, has_flags}
use malachite_scripting_lang.Vm.Instruction.Logic.{truth, not_word}
use malachite_scripting_lang.Vm.Instruction.Arithmetic.{rr}
use malachite_scripting_lang.Vm.Instruction.Compare.{
  reset_comparison, set_comparison, cmp_unsigned, cmp_integer,
}
use malachite_scripting_lang.Vm.Instruction.Compare.Ladder.{
  Says, cmp_unsigned-Says, cmp_integer-Says, get_flag-either,
}
use malachite_scripting_lang.Linker.OpCode.{ByteOpCode}
use malachite_scripting_lang.Linker.Definitions.{ByteCommand}
use malachite_scripting_lang.Linker.Translator.Emission.{operation_of}
use malachite_scripting_lang.Linker.Translator.Comparing.{handle_comp}
use malachite_scripting_lang.Linker.Translator.Run.{run}

-- The six comparisons of the byte code, and the codes they have.
pub data Comparison : Type 0 where
  equal not_equal greater less greater_equal less_equal : Comparison

abbrev pub unsigned_code : Comparison → ByteOpCode
unsigned_code equal = ByteOpCode.equalu
unsigned_code not_equal = ByteOpCode.not_equalu
unsigned_code greater = ByteOpCode.greateru
unsigned_code less = ByteOpCode.lessu
unsigned_code greater_equal = ByteOpCode.egreateru
unsigned_code less_equal = ByteOpCode.elessu

abbrev pub integer_code : Comparison → ByteOpCode
integer_code equal = ByteOpCode.equali
integer_code not_equal = ByteOpCode.not_equali
integer_code greater = ByteOpCode.greateri
integer_code less = ByteOpCode.lessi
integer_code greater_equal = ByteOpCode.egreateri
integer_code less_equal = ByteOpCode.elessi

-- Whether a comparison holds of two values, given their equality and their order.
abbrev pub holds : Comparison → Bool → Bool → Bool → Bool
holds equal eq gt lt = eq
holds not_equal eq gt lt = not eq
holds greater eq gt lt = gt
holds less eq gt lt = lt
holds greater_equal eq gt lt = gt || eq
holds less_equal eq gt lt = lt || eq

-- Nothing but registers has changed: the memory, the list of free blocks and both stacks are as before.
abbrev pub SameMachine : VmState → VmState → Type 0
SameMachine s s' = s' ≡ record s { registers = s'.registers }

-- `dest` holds `word`, the registers other than it and FL are as before, and so is the machine.
pub record Puts (s : VmState) (dest word : ℕ) (s' : VmState) : Type 0 where
  pub there : s'.registers dest ≡ word
  pub others : (r : ℕ) → r ≢ SpecialRegister.fl → r ≢ dest → s'.registers r ≡ s.registers r
  pub same_machine : SameMachine s s'

abbrev Keeps : VmState → VmState → Type 0
Keeps s s' = ((r : ℕ) → r ≢ SpecialRegister.fl → s'.registers r ≡ s.registers r) × SameMachine s s'

SameMachine-put :
    (s t : VmState) (dest word : ℕ) → SameMachine s t → SameMachine s (put t dest word)
SameMachine-put s t dest word same =
    ap (λ (u : VmState). record u { registers = (put t dest word).registers }) same

Returns-then :
    (P Q R : VmState → Type 0) (m : Outcome VmState) (f : VmState → Outcome VmState)
    → Returns P m
    → Returns Q m
    → ((s : VmState) → P s → Q s → Returns R (f s))
    → Returns R (m >>= f)
Returns-then P Q R (ok s) f p q h = h s p q
Returns-then P Q R (throws e) f p q h = elim p [ ]
Returns-then P Q R undefined f p q h = elim p [ ]

ladder-Keeps : (s : VmState) (e g : Bool) → Keeps s (set_comparison e g (reset_comparison s))
ladder-Keeps s true g = (λ r ne. rw (ne→== r SpecialRegister.fl ne) refl, refl)
ladder-Keeps s false true = (λ r ne. rw (ne→== r SpecialRegister.fl ne) refl, refl)
ladder-Keeps s false false = (λ r ne. rw (ne→== r SpecialRegister.fl ne) refl, refl)

module _ (s : VmState) (o : VmOperation) (in0 : o.arg0 < total_registers)
    (in1 : o.arg1 < total_registers) where
  cmp_unsigned-Keeps : Returns (Keeps s) (cmp_unsigned o s)
  unfolding cmp_unsigned
  cmp_unsigned-Keeps = rw (lt→ltb _ _ in0, lt→ltb _ _ in1) (ladder-Keeps s _ _)

  cmp_integer-Keeps : Returns (Keeps s) (cmp_integer o s)
  unfolding cmp_integer
  cmp_integer-Keeps = rw (lt→ltb _ _ in0, lt→ltb _ _ in1) (ladder-Keeps s _ _)

-- What follows the comparison.
abbrev questions : ℕ → Comparison → List VmOperation
questions dest equal = operation_of VmOperationCode.get_flag dest Flag.zero 0 ∷ []
questions dest not_equal =
    operation_of VmOperationCode.get_flag dest Flag.zero 0
    ∷ operation_of VmOperationCode.not_rr dest dest 0
    ∷ []
questions dest greater = operation_of VmOperationCode.get_flag dest Flag.greater 0 ∷ []
questions dest less = operation_of VmOperationCode.get_flag dest Flag.less 0 ∷ []
questions dest greater_equal =
    operation_of VmOperationCode.get_flag dest Flag.greater Flag.zero ∷ []
questions dest less_equal = operation_of VmOperationCode.get_flag dest Flag.less Flag.zero ∷ []

abbrev comparing : VmOperationCode → ByteCommand → VmOperation
comparing code command = operation_of code command.arg1.data_word command.arg2.data_word 0

emitted_unsigned :
    (command : ByteCommand) (r : Comparison)
    → command.code ≡ unsigned_code r
    → (handle_comp command []).1
      ≡ comparing VmOperationCode.cmp_rr_unsigned command ∷ questions command.arg0.data_word r
unfolding handle_comp
emitted_unsigned command equal e = rw e refl
emitted_unsigned command not_equal e = rw e refl
emitted_unsigned command greater e = rw e refl
emitted_unsigned command less e = rw e refl
emitted_unsigned command greater_equal e = rw e refl
emitted_unsigned command less_equal e = rw e refl

emitted_integer :
    (command : ByteCommand) (r : Comparison)
    → command.code ≡ integer_code r
    → (handle_comp command []).1
      ≡ comparing VmOperationCode.cmp_rr_integer command ∷ questions command.arg0.data_word r
unfolding handle_comp
emitted_integer command equal e = rw e refl
emitted_integer command not_equal e = rw e refl
emitted_integer command greater e = rw e refl
emitted_integer command less e = rw e refl
emitted_integer command greater_equal e = rw e refl
emitted_integer command less_equal e = rw e refl

-- One register written behind the flags.
Puts-put : (s t : VmState) (dest word : ℕ) → Keeps s t → Puts s dest word (put t dest word)
Puts-put s t dest word kept = record {
  there = rw (==_self dest) refl;
  others = λ r ne nd. rw (ne→== r dest nd) (kept.0 r ne);
  same_machine = SameMachine-put s t dest word kept.1;
}

module _ (reals : Reals) (dest : ℕ) (in_file : dest < total_registers) where
  -- GET_FLAG alone, and GET_FLAG before NOT.
  module _ (s t : VmState) (flag0 flag1 : ℕ) (b : Bool) (kept : Keeps s t)
      (e : (has_flags flag0 t || has_flags flag1 t) ≡ b) where
    ask_flags :
        Returns
          (Puts s dest (truth b))
          (run reals (operation_of VmOperationCode.get_flag dest flag0 flag1 ∷ []) t)
    unfolding run
    ask_flags =
        rw
          (
            get_flag-either (operation_of VmOperationCode.get_flag dest flag0 flag1) t,
            e,
            lt→ltb _ _ in_file,
          )
          (Puts-put s t dest (truth b) kept)

    ask_flags_not : Returns (Puts s dest (truth (not b))) (
        run reals
          (operation_of VmOperationCode.get_flag dest flag0 flag1
            ∷ operation_of VmOperationCode.not_rr dest dest 0
            ∷ [])
          t)
    unfolding run rr not_word
    ask_flags_not =
        rw
          (
            get_flag-either (operation_of VmOperationCode.get_flag dest flag0 flag1) t,
            e,
            lt→ltb _ _ in_file,
            ==_self dest,
            negated b,
          )
          (record {
            there = rw (==_self dest) refl;
            others = λ r ne nd. rw (ne→== r dest nd) (kept.0 r ne);
            same_machine = SameMachine-put s _ dest _ (SameMachine-put s t dest _ kept.1);
          })
      where
        negated : (c : Bool) → truth (truth c == 0) ≡ truth (not c)
        negated true = refl
        negated false = refl

  module _ (s t : VmState) (eq gt lt : Bool) (said : Says s eq gt lt t) (kept : Keeps s t) where
    alone : (flag : ℕ) {b : Bool} → has_flags flag t ≡ b → (has_flags flag t || has_flags 0 t) ≡ b
    alone flag e = ground (arith, e, bit_and-mask 0 (t.registers SpecialRegister.fl))

    answers :
        (r : Comparison)
        → Returns (Puts s dest (truth (holds r eq gt lt))) (run reals (questions dest r) t)
    answers equal = ask_flags s t Flag.zero 0 eq kept (alone Flag.zero said.zero_flag)
    answers not_equal = ask_flags_not s t Flag.zero 0 eq kept (alone Flag.zero said.zero_flag)
    answers greater = ask_flags s t Flag.greater 0 gt kept (alone Flag.greater said.greater_flag)
    answers less = ask_flags s t Flag.less 0 lt kept (alone Flag.less said.less_flag)
    answers greater_equal =
        ask_flags s t Flag.greater Flag.zero (gt || eq) kept
          (rw (said.greater_flag, said.zero_flag) refl)
    answers less_equal =
        ask_flags s t Flag.less Flag.zero (lt || eq) kept (rw (said.less_flag, said.zero_flag) refl)

module _ (reals : Reals) (s : VmState) (command : ByteCommand) (r : Comparison)
    (in0 : command.arg0.data_word < total_registers)
    (in1 : command.arg1.data_word < total_registers)
    (in2 : command.arg2.data_word < total_registers)
    (ne1 : command.arg1.data_word ≢ SpecialRegister.fl)
    (ne2 : command.arg2.data_word ≢ SpecialRegister.fl) where
  abbrev a : ℕ
  a = s.registers command.arg1.data_word

  abbrev b : ℕ
  b = s.registers command.arg2.data_word

  -- The operations that HandleCOMP emits for a comparison of unsigned words always run, when its
  -- registers exist and the compared ones are not FL: the destination then holds 1 where the
  -- comparison holds of the two words and 0 elsewhere, and of the whole
  -- machine only that register and FL have changed: the other registers, the memory, the list of free
  -- blocks, the call stack and the error stack are as before.
  pub handle_comp-unsigned :
      command.code ≡ unsigned_code r
      → Returns
          (Puts s command.arg0.data_word (truth (holds r (a == b) (ltb b a) (ltb a b))))
          (run reals (handle_comp command []).1 s)
  unfolding run
  handle_comp-unsigned e = rw (emitted_unsigned command r e) (
      Returns-then _ _ _ (cmp_unsigned (comparing VmOperationCode.cmp_rr_unsigned command) s) _
        (cmp_unsigned-Says s (comparing VmOperationCode.cmp_rr_unsigned command) in1 in2 ne1 ne2)
        (cmp_unsigned-Keeps s (comparing VmOperationCode.cmp_rr_unsigned command) in1 in2)
        λ t said kept. answers reals command.arg0.data_word in0 s t _ _ _ said kept r)

  -- The operations that HandleCOMP emits for a comparison of integers always run, when its registers
  -- exist, hold words and the compared ones are not FL: the destination then holds 1 where the
  -- comparison holds of the signed values of the two words and 0 elsewhere, and of the
  -- whole machine only that register and FL have changed: the other registers, the memory, the list of
  -- free blocks, the call stack and the error stack are as before.
  pub handle_comp-integer :
      command.code ≡ integer_code r
      → a < 2 ^ 64
      → b < 2 ^ 64
      → Returns
          (Puts s command.arg0.data_word (
            truth (
              holds r
                (a == b)
                (ltb_ℤ (signed64 b) (signed64 a))
                (ltb_ℤ (signed64 a) (signed64 b)))))
          (run reals (handle_comp command []).1 s)
  unfolding run
  handle_comp-integer e word_a word_b = rw (emitted_integer command r e) (
      Returns-then _ _ _ (cmp_integer (comparing VmOperationCode.cmp_rr_integer command) s) _
        (cmp_integer-Says s (comparing VmOperationCode.cmp_rr_integer command) in1 in2 ne1 ne2
          word_a word_b)
        (cmp_integer-Keeps s (comparing VmOperationCode.cmp_rr_integer command) in1 in2)
        λ t said kept. answers reals command.arg0.data_word in0 s t _ _ _ said kept r)

-- ===== src/Linker/Translator/TwoPass/Adds.antt =====
-- The handlers that add operations without a look at the ones before.
use malachite_scripting_lang.Prelude.{
  ◌≡◌, refl, ap, Bool, true, false, Option, none, some, List, [], ◌∷◌, ◌++◌, if◌then◌else◌,
}
use malachite_scripting_lang.Vm.Definitions.{VmOperation}
use malachite_scripting_lang.Linker.OpCode.{ByteOpCode, at_code}
use malachite_scripting_lang.Linker.Definitions.{ByteCommand}
use malachite_scripting_lang.Linker.Translator.{handle_al, special_cases}
use malachite_scripting_lang.Linker.Translator.Emission.{push_back, push_vm_command, is_nop}
use malachite_scripting_lang.Linker.Translator.Comparing.{Question, question, answer, handle_comp}
use malachite_scripting_lang.Linker.Translator.Storage.{memory_cases}

-- A handler that only adds operations adds the same ones behind any others.
abbrev pub Adds : (List VmOperation → Bool × List VmOperation) → Type 0
Adds handler =
    (result : List VmOperation) → handler result ≡ ((handler []).0, result ++ (handler []).1)

pub append_none : (xs : List VmOperation) → xs ++ [] ≡ xs
append_none [] = refl
append_none (x ∷ xs) = ap (λ (ys : List VmOperation). x ∷ ys) (append_none xs)

pub append_assoc : (xs ys zs : List VmOperation) → (xs ++ ys) ++ zs ≡ xs ++ (ys ++ zs)
append_assoc [] ys zs = refl
append_assoc (x ∷ xs) ys zs = ap (λ (os : List VmOperation). x ∷ os) (append_assoc xs ys zs)

none-Adds : (b : Bool) → Adds (λ result. (b, result))
none-Adds b result = rw (append_none result) refl

two-Adds : (b : Bool) (x y : VmOperation) → Adds (λ result. (b, push_back (push_back result x) y))
two-Adds b x y result = rw (append_assoc result (x ∷ []) (y ∷ [])) refl

pub memory_cases-Adds :
    (code : ByteOpCode) (command : ByteCommand) → Adds (memory_cases code command)
unfolding memory_cases
memory_cases-Adds ByteOpCode.movrr command result = refl
memory_cases-Adds ByteOpCode.movri command result = refl
memory_cases-Adds ByteOpCode.lea_static command result = refl
memory_cases-Adds ByteOpCode.load_dynamic command result = refl
memory_cases-Adds ByteOpCode.store_dynamic command result = refl
memory_cases-Adds ByteOpCode.load_const_static command result = refl
memory_cases-Adds ByteOpCode.lea_const command result = refl
memory_cases-Adds ByteOpCode.load_static command result = refl
memory_cases-Adds ByteOpCode.store_static command result = refl
memory_cases-Adds ByteOpCode.alloc command result = refl
memory_cases-Adds ByteOpCode.free command result = refl
memory_cases-Adds ByteOpCode.copy_static command result = refl
memory_cases-Adds ByteOpCode.copy_dynamic command result = refl
memory_cases-Adds ByteOpCode.stack_up command result = two-Adds true _ _ result
memory_cases-Adds ByteOpCode.stack_down command result = two-Adds true _ _ result
memory_cases-Adds ByteOpCode.lea_dynamic command result = none-Adds false result
memory_cases-Adds _ command result = none-Adds true result

pub special_cases-Adds :
    (code : ByteOpCode) (command : ByteCommand) → Adds (special_cases code command)
unfolding special_cases
special_cases-Adds ByteOpCode.tc_itr command result = refl
special_cases-Adds ByteOpCode.tc_rti command result = refl
special_cases-Adds ByteOpCode.tc_utr command result = refl
special_cases-Adds ByteOpCode.tc_uti command result = refl
special_cases-Adds ByteOpCode.tc_rtu command result = refl
special_cases-Adds ByteOpCode.tc_itu command result = refl
special_cases-Adds ByteOpCode.spec_call command result = refl
special_cases-Adds _ command result = none-Adds false result

pub handle_al-Adds : (command : ByteCommand) → Adds (handle_al command)
unfolding handle_al
handle_al-Adds command result = by (is_nop (at_code command.code)) result
  where
    by :
        (b : Bool)
        → Adds (λ xs. if b then (false, xs) else (
          true,
          push_vm_command (at_code command.code) command.arg0 command.arg1 command.arg2 xs,
        ))
    by true = none-Adds false
    by false = λ xs. refl

answer-Adds :
    (b : Bool) (x y z : VmOperation)
    → Adds (λ xs.
      let compared = push_back (push_back xs x) y in
      (true, if b then push_back compared z else compared))
answer-Adds true x y z result =
    rw (append_assoc result (x ∷ []) (y ∷ []), append_assoc result (x ∷ y ∷ []) (z ∷ [])) refl
answer-Adds false x y z result = two-Adds true x y result

pub handle_comp-Adds : (command : ByteCommand) → Adds (handle_comp command)
unfolding handle_comp
handle_comp-Adds command result = by (question command.code) result
  where
    by :
        (q : Option Question)
        → Adds (λ xs. elim q [ none ↦ (false, xs) | some asked ↦ (true, answer asked command xs) ])
    by none = none-Adds false
    by (some q) = answer-Adds q.use_not _ _ _

-- ===== src/Vm/Instruction/Calls.antt =====
-- `handle_vm_call` and the type conversions of `execute_code_switch`.
use malachite_scripting_lang.Prelude.{ℕ, ◌%◌, none, some, [], ◌∷◌, if◌then◌else◌, get_elem?}
use malachite_scripting_lang.Prelude.Int.{signed64}
use malachite_scripting_lang.Outcome.{Outcome, ok, defined, ◌>>=◌}
use malachite_scripting_lang.Vm.Definitions.{VmOperation}
use malachite_scripting_lang.Vm.Errors.{no_error, error_number}
use malachite_scripting_lang.Vm.Reals.{Reals}
use malachite_scripting_lang.Vm.Stack
use malachite_scripting_lang.Vm.State.{
  VmState, Output, integer, unsigned, char, real, register, set_register,
}

-- VMCallType; `unlisted` stands for the numbers that are no enumerator.
pub data VmCallType : Type 0 where
  print_integer print_real print_unsigned print_char get_error unlisted : VmCallType

unfoldable pub call_type : ℕ → VmCallType
call_type n =
    elim (get_elem? (print_integer ∷ print_real ∷ print_unsigned ∷ print_char ∷ get_error ∷ []) n) [
      | none ↦ unlisted
      | some c ↦ c
    ]

abbrev pub print : Output → VmState → VmState
print out s = record s { output = out ∷ s.output }

-- GET_ERROR: the code of the last error, which is taken off the stack.
unfoldable pub get_error_into : ℕ → VmState → Outcome VmState
unfolding error_number Stack.empty Stack.top Stack.pop
get_error_into r s =
    if Stack.empty s.error_stack then set_register r (error_number no_error) s else do
      frame ← Stack.top s.error_stack
      written ← set_register r (error_number frame.code) s
      (_, errors) ← Stack.pop written.error_stack
      ok (record written { error_stack = errors })

unfoldable pub handle_call : VmCallType → VmOperation → VmState → Outcome VmState
unfolding get_error_into
handle_call print_integer o s = do a ← register o.arg1 s; ok (print (integer (signed64 a)) s)
handle_call print_unsigned o s = do a ← register o.arg1 s; ok (print (unsigned a) s)
-- `putchar` converts to `unsigned char`
handle_call print_char o s = do a ← register o.arg1 s; ok (print (char (a % 256)) s)
handle_call print_real o s = do a ← register o.arg1 s; ok (print (real a) s)
handle_call get_error o s = get_error_into o.arg1 s
handle_call unlisted o s = ok s

unfoldable pub handle_vm_call : VmOperation → VmState → Outcome VmState
unfolding call_type handle_call
handle_vm_call o s = handle_call (call_type o.arg0) o s

-- `registers[arg0] = static_cast<...>(registers[arg0])`
unfoldable pub convert : (ℕ → Outcome ℕ) → VmOperation → VmState → Outcome VmState
convert f o s = do a ← register o.arg0 s; word ← f a; set_register o.arg0 word s

-- Between the two integer types the word stays as it is.
unfoldable pub same_word : ℕ → Outcome ℕ
same_word a = ok a

module _ (reals : Reals) where
  open reals use {of_integer, of_unsigned, to_integer, to_unsigned}

  unfoldable pub integer_to_real : ℕ → Outcome ℕ
  integer_to_real a = ok (of_integer a)

  unfoldable pub unsigned_to_real : ℕ → Outcome ℕ
  unsigned_to_real a = ok (of_unsigned a)

  unfoldable pub real_to_integer : ℕ → Outcome ℕ
  real_to_integer a = defined (to_integer a)

  unfoldable pub real_to_unsigned : ℕ → Outcome ℕ
  real_to_unsigned a = defined (to_unsigned a)

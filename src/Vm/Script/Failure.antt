-- ===== src/Vm/Script/Failure.antt =====
-- What is left of the reason when LoadScript refuses a file.
use malachite_scripting_lang.Prelude.{
  ℕ, ◌+◌, ◌-◌, ◌≡◌, refl, Bool, true, false, not, ◌==◌, arith, leb, ltb, Bool-cases, inl, inr,
  Option, none, some, if◌then◌else◌, ==_self,
}
use malachite_scripting_lang.Outcome.{Outcome, ok, throws, undefined, ◌>>=◌, Returned}
use malachite_scripting_lang.Vm.Definitions.{u64, error_stack_size}
use malachite_scripting_lang.Vm.Errors.{
  ErrorCode, no_error, invalid_file_path, invalid_magic, invalid_file, another_vm_version,
}
use malachite_scripting_lang.Vm.Stack
use malachite_scripting_lang.Vm.Memory
use malachite_scripting_lang.Vm.Memory.{DynamicMemory}
use malachite_scripting_lang.Vm.State.{VmState}
use malachite_scripting_lang.Vm.Script.{
  FileStream, refuse, peek, load_parts, load_script, msli_magic, vm_version_code, overwrite_flags,
  from_offset,
}

-- A refusal changes only the error stack, and says NoError there; an acceptance raises nothing.
abbrev pub Reported : VmState → Bool × VmState → Type 0
Reported s (accepted, s') =
    if accepted
    then s'.error_stack ≡ s.error_stack
    else ((Stack.top s'.error_stack >>= λ frame. ok frame.code) ≡ ok no_error)
      × (s'.memory ≡ s.memory)
      × (s'.registers ≡ s.registers)

refuse-Reported : (e : ErrorCode) (s : VmState) → Returned (Reported s) (refuse e s)
unfolding refuse Stack.push Stack.top
refuse-Reported e s = elim (Bool-cases (leb error_stack_size s.error_stack.m_top)) [
  | inl full ↦ rw full tt
  | inr room ↦
      let pushed : (s.error_stack.m_top + 1 == 0) ≡ false = ground arith in
      let back : s.error_stack.m_top + 1 - 1 ≡ s.error_stack.m_top = omega arith in
      rw (room, pushed, back, ==_self s.error_stack.m_top) (refl, refl, refl)
]

-- Behind a piece of which nothing need be known.
pub Returned-any {ℓ} :
    {A : Type ℓ} {B : Type 0} (P : B → Type 0) (m : Outcome A) (f : A → Outcome B)
    → ((a : A) → Returned P (f a))
    → Returned P (m >>= f)
Returned-any P (ok a) f h = h a
Returned-any P (throws e) f h = tt
Returned-any P undefined f h = tt

pub Returned-if :
    {B : Type 0} (P : B → Type 0) (b : Bool) (m m' : Outcome B)
    → Returned P m
    → Returned P m'
    → Returned P (if b then m else m')
Returned-if P true m m' p q = p
Returned-if P false m m' p q = q

module _ (given : Option (ℕ → ℕ)) (flags : ℕ → ℕ) (s : VmState) where
  load_parts-Reported :
      (f : FileStream) (rod_offset rod_size code_offset code_size : ℕ)
      → Returned (Reported s) (load_parts given f rod_offset rod_size code_offset code_size s)
  unfolding load_parts
  load_parts-Reported f rod_offset rod_size code_offset code_size =
      Returned-any (Reported s)
        (Memory.load_code (from_offset f code_offset) (f.file_size - code_offset) code_size
          (Memory.allocate given code_size rod_size s.memory))
        (λ coded. rod coded >>= keep)
        λ coded. Returned-any (Reported s) (rod coded) keep λ loaded. refl
    where
      rod : DynamicMemory → Outcome DynamicMemory
      rod = Memory.load_rod (from_offset f rod_offset) (f.file_size - rod_offset) rod_size

      keep : DynamicMemory → Outcome (Bool × VmState)
      keep m = ok (true, record s { memory = m })

  -- Whatever the file is: when LoadScript refuses it, memory and registers are as before and the
  -- error on top of the stack has the code NoError; when it accepts it, it adds no error.
  pub load_script-hides_reason :
      (file : Option FileStream) → Returned (Reported s) (load_script given flags file s)
  unfolding load_script
  load_script-hides_reason none = refuse-Reported invalid_file_path s
  load_script-hides_reason (some opened) =
      let f = overwrite_flags flags opened in
      Returned-any (Reported s) (peek opened 0 4) _ λ magic.
        Returned-if (Reported s) (not (magic == msli_magic)) _ _ (refuse-Reported invalid_magic s) (
          Returned-any (Reported s) (peek opened 4 4) _ λ _.
            Returned-any (Reported s) (peek opened 8 2) _ λ _.
              Returned-any (Reported s) (peek f 10 1) _ λ version.
                Returned-if (Reported s) (not (version == vm_version_code)) _ _
                  (refuse-Reported another_vm_version s)
                  (Returned-any (Reported s) (peek f 11 8) _ λ rod_offset.
                    Returned-any (Reported s) (peek f 19 8) _ λ rod_size.
                      Returned-any (Reported s) (peek f 27 8) _ λ code_offset.
                        Returned-any (Reported s) (peek f 35 8) _ λ code_size.
                          Returned-if (Reported s) (ltb f.file_size (u64 (code_offset + code_size)))
                            _ _ (refuse-Reported invalid_file s)
                            (load_parts-Reported f rod_offset rod_size code_offset code_size)))

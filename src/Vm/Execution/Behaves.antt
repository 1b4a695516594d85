-- ===== src/Vm/Execution/Behaves.antt =====
-- What a piece of the interpreter may do to a state at most: the layout of the memory stays, the
-- call stack stays in its array, and few errors are added; and when it may throw.
use malachite_scripting_lang.Prelude.{
  ℕ, ◌+◌, ◌≤◌, ◌<◌, ◌≡◌, refl, ◌∙◌, Bool, true, false, arith, ltb, leb, if◌then◌else◌, Bool-cases,
  inl, inr,
}
use malachite_scripting_lang.Outcome.{Outcome, ok, throws, undefined, ◌>>=◌}
use malachite_scripting_lang.Vm.Definitions.{total_registers, call_stack_size, error_stack_size}
use malachite_scripting_lang.Vm.Errors.{ErrorCode, no_error, error_type}
use malachite_scripting_lang.Vm.Stack
use malachite_scripting_lang.Vm.Memory.{DynamicMemory}
use malachite_scripting_lang.Vm.State.{VmState, put, register, set_register, raise, is_critical}

-- The memory without the contents of its cells and without its status.
abbrev pub frame : DynamicMemory → DynamicMemory
frame m = record m { cell = λ a. 0; status = no_error }

-- `s'` comes after `s`, with at most `n` errors more.
pub record Follows (n : ℕ) (s s' : VmState) : Type 0 where
  pub same_frame : frame s'.memory ≡ frame s.memory
  pub calls : s.call_stack.m_top ≤ call_stack_size → s'.call_stack.m_top ≤ call_stack_size
  pub errors : s'.error_stack.m_top ≤ s.error_stack.m_top + n

-- The code returns a state that follows; it throws only where the error stack has no room for `n`
-- errors.
abbrev pub Behaves : ℕ → VmState → Outcome VmState → Type 0
Behaves n s (ok s') = Follows n s s'
Behaves n s (throws e) = error_stack_size < s.error_stack.m_top + n
Behaves n s undefined = Unit

pub Follows-refl : (n : ℕ) (s : VmState) → Follows n s s
Follows-refl n s = record { same_frame = refl; calls = λ h. h; errors = omega arith }

pub Follows-trans :
    (n k : ℕ) (s t u : VmState) → Follows n s t → Follows k t u → Follows (n + k) s u
Follows-trans n k s t u f g = record {
  same_frame = g.same_frame ∙ f.same_frame;
  calls = λ h. g.calls (f.calls h);
  errors = omega (arith, f.errors, g.errors);
}

pub Follows-put : (n : ℕ) (s t : VmState) (r word : ℕ) → Follows n s t → Follows n s (put t r word)
Follows-put n s t r word f = record {
  same_frame = f.same_frame;
  calls = f.calls;
  errors = f.errors;
}

pub Behaves-more :
    (n k : ℕ) (s : VmState) (m : Outcome VmState) → n ≤ k → Behaves n s m → Behaves k s m
Behaves-more n k s (ok t) h b = record {
  same_frame = b.same_frame;
  calls = b.calls;
  errors = omega (arith, b.errors);
}
Behaves-more n k s (throws e) h b = omega (arith, b)
Behaves-more n k s undefined h b = tt

-- One piece behind another.
pub Behaves-then :
    (n k : ℕ) (s : VmState) (m : Outcome VmState) (f : VmState → Outcome VmState)
    → Behaves n s m
    → ((t : VmState) → Behaves k t (f t))
    → Behaves (n + k) s (m >>= f)
Behaves-then n k s (ok t) f b c = join (f t) (c t)
  where
    join : (u : Outcome VmState) → Behaves k t u → Behaves (n + k) s u
    join (ok u) d = Follows-trans n k s t u b d
    join (throws e) d = omega (arith, b.errors, d)
    join undefined d = tt
Behaves-then n k s (throws e) f b c = omega (arith, b)
Behaves-then n k s undefined f b c = tt

-- Behind something that cannot throw.
abbrev pub Quiet {ℓ} : {A : Type ℓ} → Outcome A → Type 0
Quiet (ok a) = Unit
Quiet (throws e) = ⊥
Quiet undefined = Unit

pub Quiet-then {ℓ κ} :
    {A : Type ℓ} {B : Type κ} (x : Outcome A) (f : A → Outcome B)
    → Quiet x
    → ((a : A) → Quiet (f a))
    → Quiet (x >>= f)
Quiet-then (ok a) f p q = q a
Quiet-then (throws e) f p q = p
Quiet-then undefined f p q = tt

pub Behaves-after {ℓ} :
    {A : Type ℓ} (n : ℕ) (s : VmState) (m : Outcome A) (f : A → Outcome VmState)
    → Quiet m
    → ((a : A) → Behaves n s (f a))
    → Behaves n s (m >>= f)
Behaves-after n s (ok a) f q b = b a
Behaves-after n s (throws e) f q b = absurd q
Behaves-after n s undefined f q b = tt

pub Behaves-if :
    (n : ℕ) (s : VmState) (b : Bool) (m m' : Outcome VmState)
    → Behaves n s m
    → Behaves n s m'
    → Behaves n s (if b then m else m')
Behaves-if n s true m m' p q = p
Behaves-if n s false m m' p q = q

pub register-Quiet : (r : ℕ) (s : VmState) → Quiet (register r s)
register-Quiet r s = either (ltb r total_registers)
  where
    either : (b : Bool) → Quiet (if b then ok (s.registers r) else undefined)
    either true = tt
    either false = tt

pub Behaves-register :
    (n r : ℕ) (s t : VmState) (f : ℕ → Outcome VmState)
    → ((a : ℕ) → Behaves n s (f a))
    → Behaves n s (register r t >>= f)
Behaves-register n r s t f b = Behaves-after n s (register r t) f (register-Quiet r t) b

pub Behaves-set_register :
    (n r word : ℕ) (s t : VmState) → Follows n s t → Behaves n s (set_register r word t)
Behaves-set_register n r word s t f =
    Behaves-if n s (ltb r total_registers) (ok (put t r word)) undefined
      (Follows-put n s t r word f) tt

pub Follows-if :
    (n : ℕ) (s : VmState) (b : Bool) (t u : VmState)
    → Follows n s t
    → Follows n s u
    → Follows n s (if b then t else u)
Follows-if n s true t u p q = p
Follows-if n s false t u p q = q

pub raise-Behaves : (e : ErrorCode) (s : VmState) → Behaves 1 s (raise e s)
unfolding raise Stack.push
raise-Behaves e s = elim (Bool-cases (leb error_stack_size s.error_stack.m_top)) [
  | inl full ↦ rw full (ground (arith, full))
  | inr room ↦ rw room (
      Follows-if 1 s (is_critical (error_type e)) _ _
        (record { same_frame = refl; calls = λ h. h; errors = omega arith })
        (record { same_frame = refl; calls = λ h. h; errors = omega arith }))
]

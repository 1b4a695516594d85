-- ===== src/Vm/Execution/Operations/Registers.antt =====
-- The cases of the switch that compute in registers.
use malachite_scripting_lang.Prelude.{
  ℕ, suc, Bool, true, false, arith, ltb, ◌==◌, ◌||◌, Bool-cases, inl, inr, Option, none, some,
}
use malachite_scripting_lang.Prelude.Int.{signed64, quot, rem, word_of}
use malachite_scripting_lang.Outcome.{Outcome, ok, ◌>>=◌, defined}
use malachite_scripting_lang.Vm.Definitions.{VmOperation}
use malachite_scripting_lang.Vm.Errors.{ErrorCode, zero_division, nan_value, inf_value}
use malachite_scripting_lang.Vm.Reals.{Reals}
use malachite_scripting_lang.Vm.State.{VmState, register, set_register, raise}
use malachite_scripting_lang.Vm.Execution.Behaves.{
  Behaves, Follows, Quiet, Follows-refl, Follows-if, Follows-put, Behaves-more, Behaves-then,
  Behaves-after, Behaves-if, Behaves-register, Behaves-set_register, raise-Behaves,
}
use malachite_scripting_lang.Vm.Instruction.Arithmetic.{
  rrr, rr, rrr_div, add_integer, sub_integer, mul_integer, div_integer, mod_integer, neg_integer,
}
use malachite_scripting_lang.Vm.Instruction.Logic.{offset_left, offset_right}
use malachite_scripting_lang.Vm.Instruction.Compare.{
  cmp_unsigned, cmp_integer, cmp_real, get_flag, reset_comparison, set_comparison, is_nan, is_inf,
  raise_if_infinite,
}
use malachite_scripting_lang.Vm.Instruction.Calls.{convert}

pub defined-Quiet {ℓ} : {A : Type ℓ} (o : Option A) → Quiet (defined o)
defined-Quiet none = tt
defined-Quiet (some a) = tt

module _ (n : ℕ) (s : VmState) where
  pub writes : (r word : ℕ) → Behaves n s (set_register r word s)
  writes r word = Behaves-set_register n r word s s (Follows-refl n s)

  pub reads :
      (r : ℕ) (f : ℕ → Outcome VmState)
      → ((a : ℕ) → Behaves n s (f a))
      → Behaves n s (register r s >>= f)
  reads r f b = Behaves-register n r s s f b

  pub rrr-Behaves :
      (f : ℕ → ℕ → Outcome ℕ) (o : VmOperation)
      → ((a b : ℕ) → Quiet (f a b))
      → Behaves n s (rrr f o s)
  unfolding rrr
  rrr-Behaves f o q =
      reads o.arg1 _ λ a. reads o.arg2 _ λ b. Behaves-after n s (f a b) _ (q a b) (writes o.arg0)

  pub rr-Behaves :
      (f : ℕ → Outcome ℕ) (o : VmOperation) → ((a : ℕ) → Quiet (f a)) → Behaves n s (rr f o s)
  unfolding rr
  rr-Behaves f o q = reads o.arg1 _ λ a. Behaves-after n s (f a) _ (q a) (writes o.arg0)

  pub convert-Behaves :
      (f : ℕ → Outcome ℕ) (o : VmOperation) → ((a : ℕ) → Quiet (f a)) → Behaves n s (convert f o s)
  unfolding convert
  convert-Behaves f o q = reads o.arg0 _ λ a. Behaves-after n s (f a) _ (q a) (writes o.arg0)

-- An error is raised.
pub raises : (n : ℕ) (e : ErrorCode) (s : VmState) → Behaves (suc n) s (raise e s)
raises n e s = Behaves-more 1 (suc n) s (raise e s) (omega arith) (raise-Behaves e s)

pub rrr_div-Behaves :
    (s : VmState) (is_zero : ℕ → Bool) (f : ℕ → ℕ → Outcome ℕ) (o : VmOperation)
    → ((a b : ℕ) → Quiet (f a b))
    → Behaves 2 s (rrr_div is_zero f o s)
unfolding rrr_div
rrr_div-Behaves s is_zero f o q = reads 2 s o.arg2 _ λ b.
    Behaves-if 2 s (is_zero b) (raise zero_division s) (rrr f o s) (raises 1 zero_division s)
      (rrr-Behaves 2 s f o q)

module _ (a b : ℕ) where
  pub offset_left-Quiet : Quiet (offset_left a b)
  unfolding offset_left
  offset_left-Quiet = elim (Bool-cases (ltb b 64)) [ inl e ↦ rw e tt | inr e ↦ rw e tt ]

  pub offset_right-Quiet : Quiet (offset_right a b)
  unfolding offset_right
  offset_right-Quiet = elim (Bool-cases (ltb b 64)) [ inl e ↦ rw e tt | inr e ↦ rw e tt ]

  pub add_integer-Quiet : Quiet (add_integer a b)
  unfolding add_integer
  add_integer-Quiet = defined-Quiet _

  pub sub_integer-Quiet : Quiet (sub_integer a b)
  unfolding sub_integer
  sub_integer-Quiet = defined-Quiet _

  pub mul_integer-Quiet : Quiet (mul_integer a b)
  unfolding mul_integer
  mul_integer-Quiet = defined-Quiet _

  pub div_integer-Quiet : Quiet (div_integer a b)
  unfolding div_integer
  div_integer-Quiet = defined-Quiet _

  pub mod_integer-Quiet : Quiet (mod_integer a b)
  unfolding mod_integer
  mod_integer-Quiet =
      both (word_of (quot (signed64 a) (signed64 b))) (word_of (rem (signed64 a) (signed64 b)))
    where
      both : (x y : Option ℕ) → Quiet (defined x >>= λ _. defined y)
      both none y = tt
      both (some x) y = defined-Quiet y

  pub neg_integer-Quiet : Quiet (neg_integer a)
  unfolding neg_integer
  neg_integer-Quiet = defined-Quiet _

pub Follows-set_comparison :
    (n : ℕ) (s t : VmState) (equal greater : Bool)
    → Follows n s t
    → Follows n s (set_comparison equal greater t)
Follows-set_comparison n s t equal greater f =
    Follows-if n s equal _ _ (Follows-put n s t _ _ f)
      (Follows-if n s greater _ _ (Follows-put n s t _ _ f) (Follows-put n s t _ _ f))

module _ (s : VmState) (o : VmOperation) where
  abbrev reset : VmState
  reset = reset_comparison s

  reset-Follows : (n : ℕ) → Follows n s reset
  reset-Follows n = Follows-put n s s _ _ (Follows-refl n s)

  pub cmp_unsigned-Behaves : Behaves 2 s (cmp_unsigned o s)
  unfolding cmp_unsigned
  cmp_unsigned-Behaves = Behaves-register 2 o.arg0 s reset _ λ a.
      Behaves-register 2 o.arg1 s reset _
        λ b. Follows-set_comparison 2 s reset (a == b) (ltb b a) (reset-Follows 2)

  pub cmp_integer-Behaves : Behaves 2 s (cmp_integer o s)
  unfolding cmp_integer
  cmp_integer-Behaves = Behaves-register 2 o.arg0 s reset _ λ a.
      Behaves-register 2 o.arg1 s reset _
        λ b. Follows-set_comparison 2 s reset (a == b) _ (reset-Follows 2)

  pub cmp_real-Behaves : (reals : Reals) → Behaves 2 s (cmp_real reals o s)
  unfolding cmp_real
  cmp_real-Behaves reals = Behaves-register 2 o.arg0 s reset _ λ a.
      Behaves-register 2 o.arg1 s reset _ λ b.
        Behaves-if 2 s (is_nan a || is_nan b) _ _
          (Behaves-then 0 2 s (ok reset) (λ t. raise nan_value t) (reset-Follows 0)
            λ t. raises 1 nan_value t)
          (Behaves-then 1 1 s (raise_if_infinite (is_inf a || is_inf b) reset) _
            (warns (is_inf a || is_inf b))
            λ t.
              reads 1 t o.arg0 _
                λ a'. reads 1 t o.arg1 _ λ b'. Follows-set_comparison 1 t t _ _ (Follows-refl 1 t))
    where
      warns : (infinite : Bool) → Behaves 1 s (raise_if_infinite infinite reset)
      warns true =
          Behaves-then 0 1 s (ok reset) (λ t. raise inf_value t) (reset-Follows 0)
            λ t. raises 0 inf_value t
      warns false = reset-Follows 1

  pub get_flag-Behaves : Behaves 2 s (get_flag o s)
  unfolding get_flag
  get_flag-Behaves = writes 2 s o.arg0 _

-- ===== src/Vm/Instruction/Arithmetic.antt =====
-- The arithmetic cases of `execute_code_switch`. A signed result that `int64_t` does not hold has
-- no meaning in C++.
pub mod Signed
use malachite_scripting_lang.Prelude.{ℕ, ◌+◌, ◌*◌, ◌/◌, ◌%◌, Bool, ◌==◌, if◌then◌else◌}
use malachite_scripting_lang.Prelude.Int.{ℤ, pos, ◌+ℤ◌, ◌-ℤ◌, ◌*ℤ◌, quot, rem, signed64, word_of}
use malachite_scripting_lang.Outcome.{Outcome, ok, defined, ◌>>=◌}
use malachite_scripting_lang.Vm.Definitions.{VmOperation, u64, sub64}
use malachite_scripting_lang.Vm.Errors.{zero_division}
use malachite_scripting_lang.Vm.Reals.{Reals}
use malachite_scripting_lang.Vm.State.{VmState, register, set_register, raise}

-- `registers[arg0] = f(registers[arg1], registers[arg2])`
unfoldable pub rrr : (ℕ → ℕ → Outcome ℕ) → VmOperation → VmState → Outcome VmState
rrr f o s = do
  a ← register o.arg1 s
  b ← register o.arg2 s
  word ← f a b
  set_register o.arg0 word s

-- `registers[arg0] = f(registers[arg1])`
unfoldable pub rr : (ℕ → Outcome ℕ) → VmOperation → VmState → Outcome VmState
rr f o s = do a ← register o.arg1 s; word ← f a; set_register o.arg0 word s

-- A division: a zero in `registers[arg2]` is an error of the machine.
unfoldable pub rrr_div : (ℕ → Bool) → (ℕ → ℕ → Outcome ℕ) → VmOperation → VmState → Outcome VmState
unfolding rrr raise
rrr_div is_zero f o s = do
  b ← register o.arg2 s
  if is_zero b then raise zero_division s else rrr f o s

unfoldable pub add_unsigned : ℕ → ℕ → Outcome ℕ
add_unsigned a b = ok (u64 (a + b))

unfoldable pub sub_unsigned : ℕ → ℕ → Outcome ℕ
sub_unsigned a b = ok (sub64 a b)

unfoldable pub mul_unsigned : ℕ → ℕ → Outcome ℕ
mul_unsigned a b = ok (u64 (a * b))

unfoldable pub div_unsigned : ℕ → ℕ → Outcome ℕ
div_unsigned a b = ok (a / b)

unfoldable pub mod_unsigned : ℕ → ℕ → Outcome ℕ
mod_unsigned a b = ok (a % b)

unfoldable pub add_integer : ℕ → ℕ → Outcome ℕ
unfolding ◌+ℤ◌
add_integer a b = defined (word_of (signed64 a +ℤ signed64 b))

unfoldable pub sub_integer : ℕ → ℕ → Outcome ℕ
unfolding ◌-ℤ◌
sub_integer a b = defined (word_of (signed64 a -ℤ signed64 b))

unfoldable pub mul_integer : ℕ → ℕ → Outcome ℕ
unfolding ◌*ℤ◌
mul_integer a b = defined (word_of (signed64 a *ℤ signed64 b))

unfoldable pub div_integer : ℕ → ℕ → Outcome ℕ
unfolding quot
div_integer a b = defined (word_of (quot (signed64 a) (signed64 b)))

-- The remainder has a meaning only where the quotient has one.
unfoldable pub mod_integer : ℕ → ℕ → Outcome ℕ
unfolding quot rem
mod_integer a b = defined (word_of (quot (signed64 a) (signed64 b))) >>= λ _.
    defined (word_of (rem (signed64 a) (signed64 b)))

unfoldable pub neg_integer : ℕ → Outcome ℕ
unfolding ◌-ℤ◌
neg_integer a = defined (word_of (pos 0 -ℤ signed64 a))

module _ (reals : Reals) where
  open reals use {add, sub, mul, div, neg}

  unfoldable pub add_real : ℕ → ℕ → Outcome ℕ
  add_real a b = ok (add a b)

  unfoldable pub sub_real : ℕ → ℕ → Outcome ℕ
  sub_real a b = ok (sub a b)

  unfoldable pub mul_real : ℕ → ℕ → Outcome ℕ
  mul_real a b = ok (mul a b)

  unfoldable pub div_real : ℕ → ℕ → Outcome ℕ
  div_real a b = ok (div a b)

  unfoldable pub neg_real : ℕ → Outcome ℕ
  neg_real a = ok (neg a)

abbrev pub is_zero_word : ℕ → Bool
is_zero_word b = b == 0

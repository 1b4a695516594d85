-- ===== src/Vm/Instruction/Compare.antt =====
-- The comparisons of `execute_code_switch`, and GET_FLAG.
pub mod Ladder
use malachite_scripting_lang.Prelude.{
  ℕ, ◌/◌, ◌^◌, bit_and, bit_or, Bool, not, ◌&&◌, ◌||◌, ltb, ◌==◌, if◌then◌else◌,
}
use malachite_scripting_lang.Prelude.Int.{signed64, ltb_ℤ}
use malachite_scripting_lang.Outcome.{Outcome, ok, ◌>>=◌}
use malachite_scripting_lang.Vm.Definitions.{VmOperation}
use malachite_scripting_lang.Vm.SpecialRegister
use malachite_scripting_lang.Vm.Flag
use malachite_scripting_lang.Vm.Errors.{nan_value, inf_value}
use malachite_scripting_lang.Vm.Reals.{Reals}
use malachite_scripting_lang.Vm.State.{
  VmState, register, set_register, set_flags, clear_flags, raise,
}
use malachite_scripting_lang.Vm.Instruction.Logic.{truth}

-- `FL &= ~(ZERO | LESS | GREATER)`
abbrev pub reset_comparison : VmState → VmState
reset_comparison s = clear_flags (bit_or (bit_or Flag.zero Flag.less) Flag.greater) s

-- The ladder: equal, greater, else less.
abbrev pub set_comparison : Bool → Bool → VmState → VmState
set_comparison equal greater s =
    if equal
    then set_flags Flag.zero s
    else if greater
    then set_flags Flag.greater s
    else set_flags Flag.less s

-- The flags are reset before the registers are read, which may be FL itself.
unfoldable pub cmp_unsigned : VmOperation → VmState → Outcome VmState
cmp_unsigned o s = do
  let reset = reset_comparison s
  a ← register o.arg0 reset
  b ← register o.arg1 reset
  ok (set_comparison (a == b) (ltb b a) reset)

unfoldable pub cmp_integer : VmOperation → VmState → Outcome VmState
cmp_integer o s = do
  let reset = reset_comparison s
  a ← register o.arg0 reset
  b ← register o.arg1 reset
  ok (set_comparison (a == b) (ltb_ℤ (signed64 b) (signed64 a)) reset)

unfoldable pub exponent : ℕ → ℕ
exponent bits = bit_and (bits / 2 ^ 52) 0x7ff

unfoldable pub mantissa : ℕ → ℕ
mantissa bits = bit_and bits 0xf_ffff_ffff_ffff

unfoldable pub is_nan : ℕ → Bool
unfolding exponent mantissa
is_nan bits = (exponent bits == 0x7ff) && not (mantissa bits == 0)

unfoldable pub is_inf : ℕ → Bool
unfolding exponent mantissa
is_inf bits = (exponent bits == 0x7ff) && (mantissa bits == 0)

-- An infinite operand is an error that does not stop the comparison.
abbrev pub raise_if_infinite : Bool → VmState → Outcome VmState
raise_if_infinite infinite s = if infinite then raise inf_value s else ok s

module _ (reals : Reals) where
  open reals use {eq, gt}

  unfoldable pub cmp_real : VmOperation → VmState → Outcome VmState
  unfolding is_nan is_inf raise
  cmp_real o s = do
    let reset = reset_comparison s
    a ← register o.arg0 reset
    b ← register o.arg1 reset
    if is_nan a || is_nan b then raise nan_value reset else do
      warned ← raise_if_infinite (is_inf a || is_inf b) reset
      a' ← register o.arg0 warned
      b' ← register o.arg1 warned
      ok (set_comparison (eq a' b') (gt a' b') warned)

unfoldable pub get_flag : VmOperation → VmState → Outcome VmState
get_flag o s =
    let flags = s.registers SpecialRegister.fl in
    set_register o.arg0 (truth (not (bit_or (bit_and flags o.arg1) (bit_and flags o.arg2) == 0))) s

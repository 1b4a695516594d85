-- ===== src/Vm/Reals.antt =====
-- The arithmetic of `double` that the machine uses. It is the processor's, and a parameter of the
-- model: functions on the 64-bit patterns that the registers hold.
use malachite_scripting_lang.Prelude.{ℕ, Bool, Option}

pub record Reals : Type 0 where
  pub add : ℕ → ℕ → ℕ
  pub sub : ℕ → ℕ → ℕ
  pub mul : ℕ → ℕ → ℕ
  pub div : ℕ → ℕ → ℕ
  pub neg : ℕ → ℕ
  -- `==` and `>`, and the test against the literal 0
  pub eq : ℕ → ℕ → Bool
  pub gt : ℕ → ℕ → Bool
  pub is_zero : ℕ → Bool
  -- `static_cast`s; those to an integer have no meaning for a value out of range
  pub of_integer : ℕ → ℕ
  pub of_unsigned : ℕ → ℕ
  pub to_integer : ℕ → Option ℕ
  pub to_unsigned : ℕ → Option ℕ

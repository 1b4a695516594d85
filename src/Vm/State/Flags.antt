-- ===== src/Vm/State/Flags.antt =====
-- Single flags of the flags register: what a set, a reset and a test of a mask do to them.
use malachite_scripting_lang.Prelude.{
  ℕ, ◌*◌, ◌^◌, bit_and, bit_or, ◌≡◌, ap, arith, not, ◌||◌, ◌==◌, Bool-cases, inl, inr,
}
use malachite_scripting_lang.Prelude.Bits.{test_bit, bit_and-single, bit_or-eq-zero, zero-bit_or}
use malachite_scripting_lang.Vm.SpecialRegister
use malachite_scripting_lang.Vm.State.{VmState, has_flags}

-- The bit number `k` of the flags register.
abbrev pub flag_bit : ℕ → VmState → ℕ
flag_bit k s = test_bit k (s.registers SpecialRegister.fl)

pub has_flags-single : (k : ℕ) (s : VmState) → has_flags (2 ^ k) s ≡ not (2 ^ k * flag_bit k s == 0)
has_flags-single k s =
    ap (λ (t : ℕ). not (t == 0)) (bit_and-single k (s.registers SpecialRegister.fl))

pub has_either :
    (s : VmState) (one other : ℕ)
    → not (
        bit_or
          (bit_and (s.registers SpecialRegister.fl) one)
          (bit_and (s.registers SpecialRegister.fl) other)
        == 0)
      ≡ (has_flags one s || has_flags other s)
has_either s one other =
    either (bit_and (s.registers SpecialRegister.fl) one)
      (bit_and (s.registers SpecialRegister.fl) other)
  where
    either : (a b : ℕ) → not (bit_or a b == 0) ≡ (not (a == 0) || not (b == 0))
    either a b = elim (Bool-cases (bit_or a b == 0)) [
      | inl none_set ↦
          let parts = bit_or-eq-zero a b (ground arith) in
          ground (arith, parts.0, parts.1, none_set)
      | inr some_set ↦ ground (arith, some_set, zero-bit_or 0, both a b)
    ]
      where
        both : (x y : ℕ) → x ≡ 0 → y ≡ 0 → bit_or x y ≡ 0
        both x y p q = rw (p, q) (zero-bit_or 0)

-- ===== src/Vm/Instruction/Compare/Ladder.antt =====
-- What the comparisons leave in the flags register, and what GET_FLAG makes of it.
use malachite_scripting_lang.Prelude.{
  ℕ, ◌-◌, ◌^◌, ◌<◌, bit_and, bit_or, ◌≡◌, ◌≢◌, refl, ap, arith, Bool, true, false, not, ◌&&◌, ◌||◌,
  ltb, ◌==◌, lt→ltb, ne→==,
}
use malachite_scripting_lang.Prelude.Bits.{test_bit, test_bit-or, test_bit-and}
use malachite_scripting_lang.Prelude.Int.{signed64, ltb_ℤ}
use malachite_scripting_lang.Outcome.{Returns}
use malachite_scripting_lang.Vm.Definitions.{VmOperation, total_registers}
use malachite_scripting_lang.Vm.SpecialRegister
use malachite_scripting_lang.Vm.Flag
use malachite_scripting_lang.Vm.State.{VmState, set_register, set_flags, has_flags}
use malachite_scripting_lang.Vm.State.Flags.{has_flags-single, has_either}
use malachite_scripting_lang.Vm.Instruction.Logic.{truth}
use malachite_scripting_lang.Vm.Instruction.Compare.{
  reset_comparison, set_comparison, cmp_unsigned, cmp_integer, get_flag,
}

-- The three flags say how two values compare, and the others are those of `before`.
pub record Says (before : VmState) (equal greater less : Bool) (s : VmState) : Type 0 where
  pub zero_flag : has_flags Flag.zero s ≡ equal
  pub greater_flag : has_flags Flag.greater s ≡ greater
  pub less_flag : has_flags Flag.less s ≡ less
  pub jumped_flag : has_flags Flag.jumped s ≡ has_flags Flag.jumped before
  pub stopped_flag : has_flags Flag.stopped s ≡ has_flags Flag.stopped before

module _ (s : VmState) where
  abbrev fl : ℕ
  fl = s.registers SpecialRegister.fl

  abbrev kept : ℕ
  kept = bit_and fl (2 ^ 64 - 1 - 7)

  -- One flag of `kept | mask`.
  flag_after :
      (k mask : ℕ)
      → test_bit k (bit_or kept mask)
        ≡ Prim.Native.Nat.max
            (Prim.Native.Nat.min (test_bit k fl) (test_bit k (2 ^ 64 - 1 - 7)))
            (test_bit k mask)
  flag_after k mask = rw (test_bit-or k kept mask, test_bit-and k fl (2 ^ 64 - 1 - 7))

  after_mask :
      (mask : ℕ) (equal greater less : Bool)
      → (not (test_bit 0 mask == 0) ≡ equal)
      → (not (test_bit 1 mask == 0) ≡ greater)
      → (not (test_bit 2 mask == 0) ≡ less)
      → (test_bit 3 mask ≡ 0)
      → (test_bit 4 mask ≡ 0)
      → Says s equal greater less (set_flags mask (reset_comparison s))
  after_mask mask equal greater less e g l j t = record {
    zero_flag = ground (arith, has_flags-single 0 s', flag_after 0 mask, e);
    greater_flag = ground (arith, has_flags-single 1 s', flag_after 1 mask, g);
    less_flag = ground (arith, has_flags-single 2 s', flag_after 2 mask, l);
    jumped_flag = ground (arith, has_flags-single 3 s', has_flags-single 3 s, flag_after 3 mask, j);
    stopped_flag =
        ground (arith, has_flags-single 4 s', has_flags-single 4 s, flag_after 4 mask, t);
  }
    where
      s' : VmState
      s' = set_flags mask (reset_comparison s)

  ladder-Says :
      (equal greater : Bool)
      → Says s equal
          (not equal && greater)
          (not equal && not greater)
          (set_comparison equal greater (reset_comparison s))
  ladder-Says true true = after_mask 1 true false false refl refl refl refl refl
  ladder-Says true false = after_mask 1 true false false refl refl refl refl refl
  ladder-Says false true = after_mask 2 false true false refl refl refl refl refl
  ladder-Says false false = after_mask 4 false false true refl refl refl refl refl

  -- For an order: the three answers of a comparison.
  ladder_order :
      (equal greater less : Bool)
      → (not equal && greater) ≡ greater
      → (not equal && not greater) ≡ less
      → Says s equal greater less (set_comparison equal greater (reset_comparison s))
  ladder_order equal greater less g l = rw (g, l) at (ladder-Says equal greater)

  module _ (o : VmOperation) (in0 : o.arg0 < total_registers) (in1 : o.arg1 < total_registers)
      (ne0 : o.arg0 ≢ SpecialRegister.fl) (ne1 : o.arg1 ≢ SpecialRegister.fl) where
    -- CMP_RR_UNSIGNED of two registers other than FL always returns; ZERO, GREATER and LESS then say
    -- whether the first word is equal to, greater than or less than the second, and JUMPED and
    -- STOPPED are as before.
    pub cmp_unsigned-Says :
        Returns
          (Says s
            (s.registers o.arg0 == s.registers o.arg1)
            (ltb (s.registers o.arg1) (s.registers o.arg0))
            (ltb (s.registers o.arg0) (s.registers o.arg1)))
          (cmp_unsigned o s)
    unfolding cmp_unsigned
    cmp_unsigned-Says =
        rw (lt→ltb _ _ in0, lt→ltb _ _ in1, ne→== _ _ ne0, ne→== _ _ ne1)
          (ladder_order _ _ _ (ground arith) (ground arith))

    -- CMP_RR_INTEGER of two registers other than FL that hold words always returns; ZERO,
    -- GREATER and LESS then say how the signed integers compare that the words stand for, and
    -- JUMPED and STOPPED are as before.
    pub cmp_integer-Says :
        s.registers o.arg0 < 2 ^ 64
        → s.registers o.arg1 < 2 ^ 64
        → Returns
            (Says s
              (s.registers o.arg0 == s.registers o.arg1)
              (ltb_ℤ (signed64 (s.registers o.arg1)) (signed64 (s.registers o.arg0)))
              (ltb_ℤ (signed64 (s.registers o.arg0)) (signed64 (s.registers o.arg1))))
            (cmp_integer o s)
    unfolding cmp_integer
    cmp_integer-Says word0 word1 =
        rw (lt→ltb _ _ in0, lt→ltb _ _ in1, ne→== _ _ ne0, ne→== _ _ ne1)
          (ladder_order _ _ _ (ground arith) (ground arith))

-- GET_FLAG puts 1 into its register where one of the two masks meets the flags, and 0 elsewhere.
pub get_flag-either :
    (o : VmOperation) (s : VmState)
    → get_flag o s ≡ set_register o.arg0 (truth (has_flags o.arg1 s || has_flags o.arg2 s)) s
unfolding get_flag
get_flag-either o s =
    ap (λ (b : Bool). set_register o.arg0 (truth b) s) (has_either s o.arg1 o.arg2)

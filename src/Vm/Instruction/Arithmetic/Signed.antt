-- ===== src/Vm/Instruction/Arithmetic/Signed.antt =====
-- The signed operations: two's complement, and division that truncates towards zero.
use malachite_scripting_lang.Prelude.{
  ℕ, ◌+◌, ◌-◌, ◌^◌, ◌≤◌, ◌<◌, ◌≡◌, ◌≢◌, refl, ap, arith, ◌⊎◌, Option, none, some,
}
use malachite_scripting_lang.Prelude.Int.{
  ℤ, pos, negsuc, ◌+ℤ◌, ◌-ℤ◌, ◌*ℤ◌, quot, rem, signed64, word_of, pos_part, neg_part,
  signed64-word_of,
}
use malachite_scripting_lang.Outcome.{ok, defined, Returns, Returned}
use malachite_scripting_lang.Vm.Definitions.{u64, sub64}
use malachite_scripting_lang.Vm.Instruction.Arithmetic.{
  add_integer, sub_integer, div_integer, mod_integer, add_unsigned, sub_unsigned,
}

-- The word of what `int64_t` holds is the sum of the words, as a word.
pub defined-Returned :
    (P : ℕ → Type 0) (o : Option ℕ) → ((w : ℕ) → o ≡ some w → P w) → Returned P (defined o)
defined-Returned P none h = tt
defined-Returned P (some w) h = h w refl

module _ (a b : ℕ) (word_a : a < 2 ^ 64) (word_b : b < 2 ^ 64) where
  -- ADD of two integers, where `int64_t` holds the sum, leaves the word that the unsigned ADD leaves.
  pub add_integer-wraps : Returned (λ w. add_unsigned a b ≡ ok w) (add_integer a b)
  unfolding add_integer add_unsigned ◌+ℤ◌
  add_integer-wraps = defined-Returned _ _ λ w e. ap ok (word w e)
    where
      word : (w : ℕ) → word_of (signed64 a +ℤ signed64 b) ≡ some w → u64 (a + b) ≡ w
      word w e = ground (arith, word_a, word_b, e)

  -- SUB of two integers, where `int64_t` holds the difference, leaves the word that the unsigned SUB
  -- leaves.
  pub sub_integer-wraps : Returned (λ w. sub_unsigned a b ≡ ok w) (sub_integer a b)
  unfolding sub_integer sub_unsigned ◌-ℤ◌
  sub_integer-wraps = defined-Returned _ _ λ w e. ap ok (word w e)
    where
      word : (w : ℕ) → word_of (signed64 a -ℤ signed64 b) ≡ some w → sub64 a b ≡ w
      word w e = ground (arith, word_a, word_b, e)

-- Quotient and remainder: the quotient times the divisor plus the remainder is the dividend, for a
-- divisor other than 0.
pub quot-rem : (a b : ℤ) → b ≢ pos 0 → (quot a b *ℤ b) +ℤ rem a b ≡ a
unfolding quot rem ◌*ℤ◌ ◌+ℤ◌
quot-rem (pos a) (pos b) ne = ground arith
quot-rem (pos a) (negsuc b) ne = ground arith
quot-rem (negsuc a) (pos b) ne = ground arith
quot-rem (negsuc a) (negsuc b) ne = ground arith

module _ (a b : ℕ) (word_a : a < 2 ^ 64) (word_b : b < 2 ^ 64) (divides : b ≢ 0)
    (no_overflow : (a ≢ 2 ^ 63) ⊎ (b ≢ 2 ^ 64 - 1)) where
  abbrev quotient : ℤ
  quotient = quot (signed64 a) (signed64 b)

  abbrev remainder : ℤ
  remainder = rem (signed64 a) (signed64 b)

  held : (z : ℤ) → pos_part z < 2 ^ 63 → neg_part z ≤ 2 ^ 63 → (w : ℕ) × (word_of z ≡ some w)
  held (pos n) p q = (n, ground arith)
  held (negsuc n) p q = (2 ^ 64 - 1 - n, ground (arith, q))

  quotient-held : (w : ℕ) × (word_of quotient ≡ some w)
  unfolding quot
  quotient-held =
      held quotient (ground (arith, word_a, word_b, divides, no_overflow))
        (ground (arith, word_a, word_b, divides))

  remainder-held : (w : ℕ) × (word_of remainder ≡ some w)
  unfolding rem
  remainder-held =
      held remainder (ground (arith, word_a, word_b, divides))
        (ground (arith, word_a, word_b, divides))

  -- DIV and MOD of two integers, for a divisor other than 0 and except for -2^63 by -1, both leave
  -- a word: the quotient times the divisor plus the remainder is the dividend.
  pub div_integer-mod_integer :
      Returns
        (λ q.
          Returns (λ r. (signed64 q *ℤ signed64 b) +ℤ signed64 r ≡ signed64 a) (mod_integer a b))
        (div_integer a b)
  unfolding div_integer mod_integer
  div_integer-mod_integer =
      let (q, eq) = quotient-held in
      let (r, er) = remainder-held in
      rw (eq, er, signed64-word_of quotient eq, signed64-word_of remainder er)
        (quot-rem (signed64 a) (signed64 b) (ground (arith, word_b, divides)))

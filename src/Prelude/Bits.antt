-- ===== src/Prelude/Bits.antt =====
-- `|` and `&` of the native numbers, digit by digit: single bits, disjoint fields, bounds.
use Prim.Native.Nat.{
  ℕ, zero, suc, ◌+◌, ◌-◌, ◌*◌, ◌/◌, ◌%◌, ◌^◌, ◌≤◌, ◌<◌, min, max, bit_and, bit_or, digits, bitwise,
  bit_and-bitwise, bit_or-bitwise,
}
use mathlib.Core.Path.{◌≡◌, refl, ap, sym, ◌∙◌}
use mathlib.Core.WellFounded
use mathlib.Core.WellFounded.{Acc, WellFounded}
use native.Mathlib.Nat.{
  le_refl, pow-suc, pow-succ', one-le-pow, mod-lt, mod-eq_of_lt, add-mul-mod_self_left, div-add-mod,
}
use native.Mathlib.Omega.{arith}

Acc-below : (k n : ℕ) → n < k → Acc ◌<◌ n
Acc-below zero n h = elim h [ ]
Acc-below (suc k) n h = Acc.intro n (λ m lt. Acc-below k m (omega arith))

pub lt_wf : WellFounded ◌<◌
lt_wf = record { apply = λ n. Acc-below (suc n) n (le_refl _) }

-- The digit recursion does not depend on its fuel, once there is enough.
module _ (z : ℕ → ℕ) (f : ℕ → ℕ → ℕ) where
  digits-enough : (n m a b : ℕ) → a ≤ n → a ≤ m → digits z f n a b ≡ digits z f m a b
  digits-enough zero zero a b p q = refl
  digits-enough zero (suc m) zero b p q = refl
  digits-enough zero (suc m) (suc a) b p q = absurd (omega arith)
  digits-enough (suc n) m zero b p q = elim m as (λ k. digits z f (suc n) 0 b ≡ digits z f k 0 b) [
    | zero ↦ refl
    | suc k ↦ refl
  ]
  digits-enough (suc n) zero (suc a) b p q = absurd (omega arith)
  digits-enough (suc n) (suc m) (suc a) b p q =
      rw (digits-enough n m (suc a / 2) (b / 2) (omega arith) (omega arith))

  bitwise-digit :
      (a b : ℕ)
      → bitwise z f (suc a) b ≡ bitwise z f (suc a / 2) (b / 2) * 2 + f (suc a % 2) (b % 2)
  bitwise-digit a b =
      omega (arith, digits-enough a (suc a / 2) (suc a / 2) (b / 2) (omega arith) (le_refl _))

pub bit_and-digit : (a b : ℕ) → bit_and a b ≡ bit_and (a / 2) (b / 2) * 2 + min (a % 2) (b % 2)
bit_and-digit zero b = simp bit_and-bitwise (omega arith)
bit_and-digit (suc a) b = simp bit_and-bitwise (bitwise-digit (λ y. 0) min a b)

pub bit_or-digit : (a b : ℕ) → bit_or a b ≡ bit_or (a / 2) (b / 2) * 2 + max (a % 2) (b % 2)
bit_or-digit zero b = simp bit_or-bitwise (omega arith)
bit_or-digit (suc a) b = simp bit_or-bitwise (bitwise-digit (λ y. y) max a b)

pub bit_or-zero : (a : ℕ) → bit_or a 0 ≡ a
bit_or-zero a = WellFounded.induction lt_wf {C = λ k. bit_or k 0 ≡ k} a λ k ih. halve k ih
  where
    halve : (k : ℕ) → ((m : ℕ) → m < k → bit_or m 0 ≡ m) → bit_or k 0 ≡ k
    halve zero ih = refl
    halve (suc k) ih = omega (arith, bit_or-digit (suc k) 0, ih (suc k / 2) (omega arith))

-- The bit number `k`.
abbrev pub test_bit : ℕ → ℕ → ℕ
test_bit zero a = a % 2
test_bit (suc k) a = test_bit k (a / 2)

pub test_bit-or : (k a b : ℕ) → test_bit k (bit_or a b) ≡ max (test_bit k a) (test_bit k b)
test_bit-or zero a b = omega (arith, bit_or-digit a b)
test_bit-or (suc k) a b =
    let half : bit_or a b / 2 ≡ bit_or (a / 2) (b / 2) = omega (arith, bit_or-digit a b) in
    rw half (test_bit-or k (a / 2) (b / 2))

pub test_bit-and : (k a b : ℕ) → test_bit k (bit_and a b) ≡ min (test_bit k a) (test_bit k b)
test_bit-and zero a b = omega (arith, bit_and-digit a b)
test_bit-and (suc k) a b =
    let half : bit_and a b / 2 ≡ bit_and (a / 2) (b / 2) = omega (arith, bit_and-digit a b) in
    rw half (test_bit-and k (a / 2) (b / 2))

-- `a | (b << k)` is a sum where `a` has no more than `k` bits.
pub bit_or-shifted : (k a b : ℕ) → a < 2 ^ k → bit_or a (b * 2 ^ k) ≡ a + b * 2 ^ k
bit_or-shifted zero a b h =
    let e : a ≡ 0 = omega arith in rw e (omega (arith, bit_or-bitwise 0 (b * 2 ^ 0)))
bit_or-shifted (suc k) a b h = omega (
  arith,
  bit_or-digit a (b * 2 ^ suc k),
  doubled,
  bit_or-shifted k (a / 2) b (omega (arith, pow-suc 2 k)),
  ap (λ (t : ℕ). bit_or (a / 2) t) halved,
)
  where
    doubled : b * 2 ^ suc k ≡ 2 * (b * 2 ^ k)
    doubled = omega (arith, ap (λ (t : ℕ). b * t) (pow-suc 2 k))

    halved : b * 2 ^ suc k / 2 ≡ b * 2 ^ k
    halved = omega (arith, doubled)

pub bit_or-lt : (k a b : ℕ) → a < 2 ^ k → b < 2 ^ k → bit_or a b < 2 ^ k
bit_or-lt zero a b p q =
    let e : a ≡ 0 = omega arith in let e' : b ≡ 0 = omega arith in rw (e, e') (omega arith)
bit_or-lt (suc k) a b p q = omega (
  arith,
  bit_or-digit a b,
  pow-suc 2 k,
  bit_or-lt k (a / 2) (b / 2) (omega (arith, pow-suc 2 k)) (omega (arith, pow-suc 2 k)),
)

pub bit_and-le : (a b : ℕ) → bit_and a b ≤ a
bit_and-le a b = WellFounded.induction lt_wf {C = λ k. (c : ℕ) → bit_and k c ≤ k} a halve b
  where
    halve : (k : ℕ) → ((m : ℕ) → m < k → (c : ℕ) → bit_and m c ≤ m) → (c : ℕ) → bit_and k c ≤ k
    halve zero ih c = omega (arith, bit_and-bitwise 0 c)
    halve (suc k) ih c =
        omega (arith, bit_and-digit (suc k) c, ih (suc k / 2) (omega arith) (c / 2))

-- A mask of `k` ones is the remainder by `2 ^ k`.
pub bit_and-mask : (k a : ℕ) → bit_and a (2 ^ k - 1) ≡ a % 2 ^ k
bit_and-mask zero a = omega (arith, bit_and-none a)
  where
    bit_and-none : (b : ℕ) → bit_and b (2 ^ 0 - 1) ≡ 0
    bit_and-none b = WellFounded.induction lt_wf {C = λ k. bit_and k 0 ≡ 0} b halve
      where
        halve : (k : ℕ) → ((m : ℕ) → m < k → bit_and m 0 ≡ 0) → bit_and k 0 ≡ 0
        halve zero ih = refl
        halve (suc k) ih = omega (arith, bit_and-digit (suc k) 0, ih (suc k / 2) (omega arith))
bit_and-mask (suc k) a = omega (
  arith,
  bit_and-digit a (2 ^ suc k - 1),
  pow-suc 2 k,
  one-le-pow k 2 (omega arith),
  bit_and-mask k (a / 2),
  ap (λ (t : ℕ). bit_and (a / 2) t) halved,
  remainder,
)
  where
    halved : (2 ^ suc k - 1) / 2 ≡ 2 ^ k - 1
    halved = omega (arith, pow-suc 2 k, one-le-pow k 2 (omega arith))

    -- the remainder by 2 m, from the low bit up
    remainder : a % 2 ^ suc k ≡ a % 2 + 2 * (a / 2 % 2 ^ k)
    remainder = rw (pow-succ' 2 k) (mod-bit a (2 ^ k) (one-le-pow k 2 (omega arith)))
      where
        mod-bit : (w m : ℕ) → 0 < m → w % (2 * m) ≡ w % 2 + 2 * (w / 2 % m)
        mod-bit w m pos =
            ap (λ (t : ℕ). t % (2 * m)) whole
            ∙ add-mul-mod_self_left _ (2 * m) (w / 2 / m)
            ∙ mod-eq_of_lt small
          where
            small : w % 2 + 2 * (w / 2 % m) < 2 * m
            small = omega (arith, mod-lt (w / 2) pos)

            whole : w ≡ w % 2 + 2 * (w / 2 % m) + 2 * m * (w / 2 / m)
            whole = omega (arith, ap (λ (t : ℕ). 2 * t) (div-add-mod (w / 2) m))

-- A mask of one bit.
pub bit_and-single : (k a : ℕ) → bit_and a (2 ^ k) ≡ 2 ^ k * test_bit k a
bit_and-single zero a = omega (arith, bit_and-mask 1 a)
bit_and-single (suc k) a = omega (
  arith,
  bit_and-digit a (2 ^ suc k),
  pow-succ' 2 k,
  bit_and-single k (a / 2),
  ap (λ (t : ℕ). bit_and (a / 2) t) halved,
  ap (λ (t : ℕ). t * test_bit k (a / 2)) (pow-succ' 2 k),
)
  where
    halved : 2 ^ suc k / 2 ≡ 2 ^ k
    halved = omega (arith, pow-succ' 2 k)

pub le-bit_or : (a b : ℕ) → a ≤ bit_or a b
le-bit_or a b = WellFounded.induction lt_wf {C = λ k. (c : ℕ) → k ≤ bit_or k c} a halve b
  where
    halve : (k : ℕ) → ((m : ℕ) → m < k → (c : ℕ) → m ≤ bit_or m c) → (c : ℕ) → k ≤ bit_or k c
    halve zero ih c = omega arith
    halve (suc k) ih c = omega (arith, bit_or-digit (suc k) c, ih (suc k / 2) (omega arith) (c / 2))

pub zero-bit_or : (b : ℕ) → bit_or 0 b ≡ b
zero-bit_or b = omega (arith, bit_or-bitwise 0 b)

-- The union of two masks is empty where both are.
pub bit_or-eq-zero : (a b : ℕ) → bit_or a b ≡ 0 → (a ≡ 0) × (b ≡ 0)
bit_or-eq-zero a b h =
    let left : a ≡ 0 = omega (arith, le-bit_or a b) in
    (left, sym (zero-bit_or b) ∙ ap (λ (t : ℕ). bit_or t b) (sym left) ∙ h)

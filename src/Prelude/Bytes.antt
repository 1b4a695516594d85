-- ===== src/Prelude/Bytes.antt =====
-- A number as bytes, the lowest first.
use Prim.Native.Nat.{ℕ, zero, suc, ◌+◌, ◌*◌, ◌/◌, ◌%◌, ◌^◌, ◌≤◌, ◌<◌}
use mathlib.Core.Path.{◌≡◌, refl, ap, sym, ◌∙◌}
use native.Mathlib.Nat.{
  pow-suc, mod-eq_of_lt, add-mul-mod_self_left, mod-lt, one-le-pow, div-div-eq-div-mul,
}
use native.Mathlib.Omega.{arith}

pub pow-byte : (k : ℕ) → 2 ^ (k + 8) ≡ 256 * 2 ^ k
pow-byte k = rw suck (
    omega (
      arith,
      pow-suc 2 k,
      pow-suc 2 (suc k),
      pow-suc 2 (suc (suc k)),
      pow-suc 2 (suc (suc (suc k))),
      pow-suc 2 (suc (suc (suc (suc k)))),
      pow-suc 2 (suc (suc (suc (suc (suc k))))),
      pow-suc 2 (suc (suc (suc (suc (suc (suc k)))))),
      pow-suc 2 (suc (suc (suc (suc (suc (suc (suc k))))))),
    ))
  where
    suck : k + 8 ≡ suc (suc (suc (suc (suc (suc (suc (suc k)))))))
    suck = omega arith

-- The weight of byte `i`.
pub pow-next : (i : ℕ) → 2 ^ ((i + 1) * 8) ≡ 256 * 2 ^ (i * 8)
pow-next i = let e : (i + 1) * 8 ≡ i * 8 + 8 = omega arith in rw e (pow-byte (i * 8))

-- The number whose bytes are those of `cell` from `at` on.
abbrev pub bytes_value : (ℕ → ℕ) → ℕ → ℕ → ℕ
bytes_value cell at zero = 0
bytes_value cell at (suc n) = cell at + 256 * bytes_value cell (at + 1) n

pub bytes_value_ext :
    (f g : ℕ → ℕ) (at n : ℕ)
    → ((a : ℕ) → at ≤ a → a < at + n → f a ≡ g a)
    → bytes_value f at n ≡ bytes_value g at n
bytes_value_ext f g at zero h = refl
bytes_value_ext f g at (suc n) h = omega (
  arith,
  h at (omega arith) (omega arith),
  bytes_value_ext f g (at + 1) n (λ a lo hi. h a (omega arith) (omega arith)),
)

pub bytes_value-lt :
    (f : ℕ → ℕ) (at n : ℕ) → ((a : ℕ) → f a < 256) → bytes_value f at n < 2 ^ (n * 8)
bytes_value-lt f at zero h = omega arith
bytes_value-lt f at (suc n) h =
    let e : suc n * 8 ≡ n * 8 + 8 = omega arith in
    rw (e, pow-byte (n * 8)) (omega (arith, h at, bytes_value-lt f (at + 1) n h))

-- The remainder by 256 * m, from the low byte up.
mod-byte : (w m : ℕ) → 0 < m → w % (256 * m) ≡ w % 256 + 256 * (w / 256 % m)
mod-byte w m pos = split ∙ fits
  where
    q : ℕ
    q = w / 256

    small : w % 256 + 256 * (q % m) < 256 * m
    small = omega (arith, mod-lt q pos)

    whole : w ≡ w % 256 + 256 * (q % m) + 256 * m * (q / m)
    whole = omega (arith, ap (λ (t : ℕ). 256 * t) (div-add m))
      where
        div-add : (k : ℕ) → k * (q / k) + q % k ≡ q
        div-add k = omega arith

    split : w % (256 * m) ≡ (w % 256 + 256 * (q % m)) % (256 * m)
    split = ap (λ (t : ℕ). t % (256 * m)) whole ∙ add-mul-mod_self_left _ (256 * m) (q / m)

    fits : (w % 256 + 256 * (q % m)) % (256 * m) ≡ w % 256 + 256 * (q % m)
    fits = mod-eq_of_lt small

-- A cell that holds the bytes of `w` from `at` on has the value of its low bytes.
pub bytes_value-digits :
    (cell : ℕ → ℕ) (w at n : ℕ)
    → ((i : ℕ) → i < n → cell (at + i) ≡ w / 2 ^ (i * 8) % 256)
    → bytes_value cell at n ≡ w % 2 ^ (n * 8)
bytes_value-digits cell w at zero h = omega arith
bytes_value-digits cell w at (suc n) h =
    let e : suc n * 8 ≡ n * 8 + 8 = omega arith in
    rw (e, pow-byte (n * 8))
      (omega (
        arith,
        mod-byte w (2 ^ (n * 8)) (one-le-pow (n * 8) 2 (omega arith)),
        first,
        bytes_value-digits cell (w / 256) (at + 1) n rest,
      ))
  where
    first : cell at ≡ w % 256
    first = (rw zero_offset at (h 0 (omega arith))) ∙ omega arith
      where
        zero_offset : at + 0 ≡ at
        zero_offset = omega arith

    rest : (i : ℕ) → i < n → cell (at + 1 + i) ≡ w / 256 / 2 ^ (i * 8) % 256
    rest i lt =
        let e : at + 1 + i ≡ at + (i + 1) = omega arith in
        rw e (h (i + 1) (omega arith) ∙ ap (λ (t : ℕ). t % 256) shifted)
      where
        shifted : w / 2 ^ ((i + 1) * 8) ≡ w / 256 / 2 ^ (i * 8)
        shifted = rw (pow-next i) (sym (div-div-eq-div-mul w 256 (2 ^ (i * 8))))

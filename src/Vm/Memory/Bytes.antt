-- ===== src/Vm/Memory/Bytes.antt =====
-- What Read and Write do to the bytes of a laid-out block, and that they stay inside it.
use mathlib.Core.Path.{fun_ext}
use malachite_scripting_lang.Prelude.{
  ℕ, zero, suc, ◌+◌, ◌-◌, ◌*◌, ◌/◌, ◌%◌, ◌^◌, ◌≤◌, ◌<◌, bit_and, bit_or, ◌≡◌, ap, ◌∙◌, arith, leb,
  ltb, ◌&&◌, ◌==◌, if◌then◌else◌, lt→ltb, le→ltb, Bool-cases, inl, inr,
}
use malachite_scripting_lang.Prelude.Bits.{bit_or-shifted, bit_and-mask}
use malachite_scripting_lang.Prelude.Bytes.{bytes_value, pow-next}
use malachite_scripting_lang.Outcome.{ok}
use malachite_scripting_lang.Vm.Definitions.{u64}
use malachite_scripting_lang.Vm.Memory.{
  DynamicMemory, extent, update, load, store, to_native, access_size, read_loop, read, write_loop,
  write,
}
use malachite_scripting_lang.Vm.Memory.Layout.{
  IsLaidOut, HoldsBytes, extent-IsLaidOut, to_native-IsLaidOut,
}

pub load-inside :
    (m : DynamicMemory) (native : ℕ)
    → native < extent m.m_pointer
    → load m native ≡ ok (m.cell native)
unfolding load
load-inside m native h = rw (lt→ltb _ _ h)

store-inside :
    (m : DynamicMemory) (native byte : ℕ)
    → native < extent m.m_pointer
    → store m native byte ≡ ok (record m { cell = update m.cell native byte })
unfolding store
store-inside m native byte h = rw (lt→ltb _ _ h)

-- From byte `i` on the loop of Read adds the remaining bytes at their weights.
pub read_loop-value :
    (m : DynamicMemory) (native n i value : ℕ)
    → HoldsBytes m
    → native + i + n ≤ extent m.m_pointer
    → native + i + n < 2 ^ 64
    → value < 2 ^ (i * 8)
    → read_loop m native n i value ≡ ok (value + 2 ^ (i * 8) * bytes_value m.cell (native + i) n)
unfolding read_loop
read_loop-value m native zero i value hb fits small v = ap ok (omega arith)
read_loop-value m native (suc n) i value hb fits small v =
    let at : u64 (native + i) ≡ native + i = omega arith in
    let joined : bit_or value (m.cell (native + i) * 2 ^ (i * 8))
        ≡ value + m.cell (native + i) * 2 ^ (i * 8) =
      bit_or-shifted (i * 8) value (m.cell (native + i)) v in
    rw (at, load-inside m (native + i) (omega arith), joined)
      (read_loop-value m native n (i + 1) (value + m.cell (native + i) * 2 ^ (i * 8)) hb
          (omega arith) (omega arith) fits_weight
        ∙ ap ok sum)
  where
    byte : ℕ
    byte = m.cell (native + i)

    fits_weight : value + byte * 2 ^ (i * 8) < 2 ^ ((i + 1) * 8)
    fits_weight = rw (pow-next i) (grind (arith, hb (native + i)))

    rest : ℕ
    rest = bytes_value m.cell (native + (i + 1)) n

    sum :
        value + byte * 2 ^ (i * 8) + 2 ^ ((i + 1) * 8) * rest
        ≡ value + 2 ^ (i * 8) * (byte + 256 * bytes_value m.cell (native + i + 1) n)
    sum =
        let e : native + (i + 1) ≡ native + i + 1 = omega arith in rw (pow-next i, e) (omega arith)

-- What the loop of Write leaves in a cell: byte `k` of the value at `native + k`, for the bytes
-- from `i` to `i + n`.
abbrev pub written : (ℕ → ℕ) → ℕ → ℕ → ℕ → ℕ → ℕ → ℕ
written cell native value n i a =
    if leb (native + i) a && ltb a (native + i + n)
    then value / 2 ^ ((a - native) * 8) % 256
    else cell a

pub write_loop-cells :
    (m : DynamicMemory) (native value n i : ℕ)
    → native + i + n ≤ extent m.m_pointer
    → native + i + n < 2 ^ 64
    → write_loop m native value n i ≡ ok (record m { cell = written m.cell native value n i })
unfolding write_loop
write_loop-cells m native value zero i fits small =
    ap (λ (c : ℕ → ℕ). ok (record m { cell = c })) (fun_ext λ a. ground arith)
write_loop-cells m native value (suc n) i fits small =
    let at : u64 (native + i) ≡ native + i = omega arith in
    let byte : bit_and (value / 2 ^ (i * 8)) 0xff ≡ value / 2 ^ (i * 8) % 256 =
      bit_and-mask 8 (value / 2 ^ (i * 8)) in
    rw (at, store-inside m (native + i) (bit_and (value / 2 ^ (i * 8)) 0xff) (omega arith), byte)
      (write_loop-cells (record m { cell = update m.cell (native + i) (value / 2 ^ (i * 8) % 256) })
          native value n (i + 1) (omega arith) (omega arith)
        ∙ ap (λ (c : ℕ → ℕ). ok (record m { cell = c })) (fun_ext λ a. one_more a))
  where
    one_more :
        (a : ℕ)
        → written (update m.cell (native + i) (value / 2 ^ (i * 8) % 256)) native value n (i + 1) a
          ≡ written m.cell native value (suc n) i a
    one_more a = elim (Bool-cases (a == native + i)) [
      | inl here ↦
          let e : a ≡ native + i = ground arith in
          let k : native + i - native ≡ i = omega arith in rw (e, k) (ground arith)
      | inr elsewhere ↦ ground arith
    ]

module _ {m : DynamicMemory} (l : IsLaidOut m) where
  -- A read of up to 8 bytes inside the memory gives the number that they hold, lowest byte first.
  pub read-value :
      (address n : ℕ)
      → HoldsBytes m
      → n ≤ 8
      → address + n ≤ m.end
      → read m address n ≡ ok (bytes_value m.cell (m.code_size + address) n)
  unfolding read
  read-value address n hb short inside =
      let at : to_native m address ≡ m.code_size + address =
        to_native-IsLaidOut l address (omega (arith, l.whole, l.small, l.ends)) in
      let n' : access_size n ≡ n = ground arith in
      rw (at, n')
        (read_loop-value m (m.code_size + address) n 0 0 hb
            (omega (arith, extent-IsLaidOut l, l.whole, l.ends))
            (omega (arith, l.whole, l.small, l.ends)) (omega arith)
          ∙ ap ok same)
    where
      same :
          0 + 2 ^ (0 * 8) * bytes_value m.cell (m.code_size + address + 0) n
          ≡ bytes_value m.cell (m.code_size + address) n
      same =
          let e : m.code_size + address + 0 ≡ m.code_size + address = omega arith in
          rw e (omega arith)

  -- A write of up to 8 bytes above the ROD changes just those bytes.
  pub write-cells :
      (address value n : ℕ)
      → n ≤ 8
      → m.stack_sa ≤ address
      → address + n ≤ m.end
      → write m address value n
        ≡ ok (record m { cell = written m.cell (m.code_size + address) value n 0 })
  unfolding write
  write-cells address value n short above inside =
      let at : to_native m address ≡ m.code_size + address =
        to_native-IsLaidOut l address (omega (arith, l.whole, l.small, l.ends)) in
      let n' : access_size n ≡ n = ground arith in
      rw (le→ltb _ _ above, at, n')
        (write_loop-cells m (m.code_size + address) value n 0
          (omega (arith, extent-IsLaidOut l, l.whole, l.ends))
          (omega (arith, l.whole, l.small, l.ends)))

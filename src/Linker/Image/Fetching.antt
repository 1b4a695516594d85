-- ===== src/Linker/Image/Fetching.antt =====
-- The machine fetches from its memory the operations that the linker wrote as bytes.
use malachite_scripting_lang.Prelude.{
  ℕ, zero, suc, ◌+◌, ◌-◌, ◌*◌, ◌/◌, ◌%◌, ◌^◌, ◌<◌, ◌≤◌, ◌≡◌, refl, ap, ◌∙◌, arith, true, false,
  some, List, [], ◌∷◌, length, get_elem?, ltb,
}
use native.Mathlib.Nat.{mod-eq_of_lt}
use malachite_scripting_lang.Prelude.Bytes.{bytes_value, bytes_value-digits}
use malachite_scripting_lang.Outcome.{Outcome, ok, ◌>>=◌}
use malachite_scripting_lang.Vm.Definitions.{VmOperationCode, VmOperation, operation_code}
use malachite_scripting_lang.Vm.Memory.{DynamicMemory, read_loop, load, get_operation}
use malachite_scripting_lang.Vm.Memory.Layout.{IsLaidOut, HoldsBytes, extent-IsLaidOut}
use malachite_scripting_lang.Vm.Memory.Bytes.{load-inside, read_loop-value}
use malachite_scripting_lang.Buffer.{bytes_of}
use malachite_scripting_lang.Linker.Image.Code.{operation_value, operation_byte, code_byte}

abbrev pub IsListedCode : VmOperationCode → Type 0
IsListedCode VmOperationCode.unlisted = ⊥
IsListedCode _ = Unit

-- What the C++ types of the fields allow.
pub record IsOperation (o : VmOperation) : Type 0 where
  pub word0 : o.arg0 < 2 ^ 64
  pub word1 : o.arg1 < 2 ^ 64
  pub word2 : o.arg2 < 2 ^ 64
  pub dsi_fits : o.dsi < 2 ^ 32
  pub listed : IsListedCode o.code

operation_code-value :
    (c : VmOperationCode) → IsListedCode c → operation_code (operation_value c) ≡ c
unfolding operation_code operation_value
operation_code-value VmOperationCode.unlisted h = elim h [ ]
operation_code-value _ h = refl

get_elem?-lt :
    (os : List VmOperation) (k : ℕ) {o : VmOperation} → get_elem? os k ≡ some o → k < length os
get_elem?-lt [] k e = cc e
get_elem?-lt (x ∷ xs) zero e = omega arith
get_elem?-lt (x ∷ xs) (suc k) e = omega (arith, get_elem?-lt xs k e)

operation_byte-code : (pad : ℕ) (o : VmOperation) → operation_byte pad o 28 ≡ operation_value o.code
unfolding operation_byte
operation_byte-code pad o = refl

module _ (pad : ℕ) (o : VmOperation) (i : ℕ) where
  operation_byte-arg0 : i < 8 → operation_byte pad o (0 + i) ≡ bytes_of o.arg0 i
  unfolding operation_byte
  operation_byte-arg0 lt =
      let first : ltb (0 + i) 8 ≡ true = ground arith in
      let back : 0 + i ≡ i = omega arith in rw (first, back) refl

  operation_byte-arg1 : i < 8 → operation_byte pad o (8 + i) ≡ bytes_of o.arg1 i
  unfolding operation_byte
  operation_byte-arg1 lt =
      let first : ltb (8 + i) 8 ≡ false = ground arith in
      let second : ltb (8 + i) 16 ≡ true = ground arith in
      let back : 8 + i - 8 ≡ i = omega arith in rw (first, second, back) refl

  operation_byte-arg2 : i < 8 → operation_byte pad o (16 + i) ≡ bytes_of o.arg2 i
  unfolding operation_byte
  operation_byte-arg2 lt =
      let first : ltb (16 + i) 8 ≡ false = ground arith in
      let second : ltb (16 + i) 16 ≡ false = ground arith in
      let third : ltb (16 + i) 24 ≡ true = ground arith in
      let back : 16 + i - 16 ≡ i = omega arith in rw (first, second, third, back) refl

  operation_byte-dsi : i < 4 → operation_byte pad o (24 + i) ≡ bytes_of o.dsi i
  unfolding operation_byte
  operation_byte-dsi lt =
      let first : ltb (24 + i) 8 ≡ false = ground arith in
      let second : ltb (24 + i) 16 ≡ false = ground arith in
      let third : ltb (24 + i) 24 ≡ false = ground arith in
      let fourth : ltb (24 + i) 28 ≡ true = ground arith in
      let back : 24 + i - 24 ≡ i = omega arith in rw (first, second, third, fourth, back) refl

-- GetOperation as its five reads.
abbrev five_reads : DynamicMemory → ℕ → Outcome VmOperation
five_reads m at = read_loop m at 8 0 0 >>= λ arg0. read_loop m (at + 8) 8 0 0 >>= λ arg1.
    read_loop m (at + 16) 8 0 0 >>= λ arg2. read_loop m (at + 24) 4 0 0 >>= λ dsi.
    load m (at + 28) >>= λ code.
    ok (record { arg0 = arg0; arg1 = arg1; arg2 = arg2; dsi = dsi; code = operation_code code })

get_operation-reads : (m : DynamicMemory) (k : ℕ) → get_operation m k ≡ five_reads m (k * 32)
unfolding get_operation
get_operation-reads m k = refl

module _ (padding : ℕ → ℕ) (os : List VmOperation) (k : ℕ) (o : VmOperation)
    (there : get_elem? os k ≡ some o) where
  code_byte-operation :
      (j : ℕ)
      → j < 32
      → code_byte padding os (k * 32 + j) ≡ operation_byte (padding (k * 32 + j)) o j
  unfolding code_byte
  code_byte-operation j lt =
      let row : (k * 32 + j) / 32 ≡ k = omega arith in
      let column : (k * 32 + j) % 32 ≡ j = omega arith in rw (row, code_byte, there, column) refl

  module _ (m : DynamicMemory) (l : IsLaidOut m) (bytes : HoldsBytes m)
      (room : length os * 32 ≤ m.code_size)
      (same : (a : ℕ) → a < length os * 32 → m.cell a ≡ code_byte padding os a) where
    inside : k * 32 + 32 ≤ m.code_size
    inside = omega (arith, get_elem?-lt os k there)

    cell-operation :
        (j : ℕ) → j < 32 → m.cell (k * 32 + j) ≡ operation_byte (padding (k * 32 + j)) o j
    cell-operation j lt =
        same (k * 32 + j) (omega (arith, get_elem?-lt os k there)) ∙ code_byte-operation j lt

    field_at :
        (j n word : ℕ)
        → j + n ≤ 32
        → ((i : ℕ)
            → i < n
            → operation_byte (padding (k * 32 + (j + i))) o (j + i) ≡ bytes_of word i)
        → word < 2 ^ (n * 8)
        → read_loop m (k * 32 + j) n 0 0 ≡ ok word
    field_at j n word short holds fits =
        read_loop-value m (k * 32 + j) n 0 0 bytes
          (omega (arith, inside, extent-IsLaidOut l, l.whole))
          (omega (arith, inside, l.whole, l.small)) (omega arith)
        ∙ ap ok (start ∙ bytes_value-digits m.cell word (k * 32 + j) n digit ∙ mod-eq_of_lt fits)
      where
        start :
            0 + 2 ^ (0 * 8) * bytes_value m.cell (k * 32 + j + 0) n
            ≡ bytes_value m.cell (k * 32 + j) n
        start = let e : k * 32 + j + 0 ≡ k * 32 + j = omega arith in rw e (omega arith)

        digit : (i : ℕ) → i < n → m.cell (k * 32 + j + i) ≡ word / 2 ^ (i * 8) % 256
        digit i lt =
            let e : k * 32 + j + i ≡ k * 32 + (j + i) = omega arith in
            rw e (cell-operation (j + i) (omega arith) ∙ holds i lt)

    -- In a laid-out memory of bytes whose code holds the operations as the linker wrote them, GetOperation
    -- gives at index k the operation number k, field by field, when its fields are within their C++ types.
    pub get_operation-code_byte : IsOperation o → get_operation m k ≡ ok o
    get_operation-code_byte h =
        rw
          (
            get_operation-reads m k,
            first,
            field_at 8 8 o.arg1 (omega arith) (λ i lt. operation_byte-arg1 _ o i lt) h.word1,
            field_at 16 8 o.arg2 (omega arith) (λ i lt. operation_byte-arg2 _ o i lt) h.word2,
            field_at 24 4 o.dsi (omega arith) (λ i lt. operation_byte-dsi _ o i lt) h.dsi_fits,
            load-inside m (k * 32 + 28) (omega (arith, inside, extent-IsLaidOut l, l.whole)),
            cell-operation 28 (omega arith),
            last,
            operation_code-value o.code h.listed,
          )
          refl
      where
        first : read_loop m (k * 32) 8 0 0 ≡ ok o.arg0
        first =
            let e : k * 32 + 0 ≡ k * 32 = omega arith in
            rw e at
              (field_at 0 8 o.arg0 (omega arith) (λ i lt. operation_byte-arg0 _ o i lt) h.word0)

        last : operation_byte (padding (k * 32 + 28)) o 28 ≡ operation_value o.code
        last = operation_byte-code _ o

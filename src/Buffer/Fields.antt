-- ===== src/Buffer/Fields.antt =====
-- What is written as fields is read back.
use malachite_scripting_lang.Prelude.{
  ℕ, zero, suc, ◌++◌, ◌+◌, ◌-◌, ◌*◌, ◌/◌, ◌^◌, ◌<◌, ◌≤◌, ◌≡◌, refl, ap, ◌∙◌, arith, Bool, true,
  false, List, [], ◌∷◌, leb, ltb, ◌&&◌, All, if◌then◌else◌,
}
use native.Mathlib.Nat.{mod-eq_of_lt, mod-lt}
use malachite_scripting_lang.Prelude.Bytes.{bytes_value, bytes_value_ext, bytes_value-digits}
use malachite_scripting_lang.Outcome.{ok}
use malachite_scripting_lang.Buffer.{
  StaticBpointer, copy_to, bytes_of, Cursor, Field, write_bytes, write_fields, read_fields,
}

-- Where a copy leaves the memory as it was, and what it puts there.
module _ (offset size : ℕ) (source memory : ℕ → ℕ) where
  pub copy_to-below : (a : ℕ) → a < offset → copy_to offset size source memory a ≡ memory a
  copy_to-below a lt = ground arith

  pub copy_to-above : (a : ℕ) → offset + size ≤ a → copy_to offset size source memory a ≡ memory a
  copy_to-above a le = ground arith

  pub copy_to-inside :
      (i : ℕ) → i < size → copy_to offset size source memory (offset + i) ≡ source i
  copy_to-inside i lt =
      let back : offset + i - offset ≡ i = omega arith in
      let low : leb offset (offset + i) ≡ true = ground arith in
      let high : ltb (offset + i) (offset + size) ≡ true = ground arith in rw (low, high, back) refl

pub copy_to-lt :
    (offset size : ℕ) (source memory : ℕ → ℕ)
    → ((a : ℕ) → source a < 256)
    → ((a : ℕ) → memory a < 256)
    → (a : ℕ) → copy_to offset size source memory a < 256
copy_to-lt offset size source memory hs hm a = by (leb offset a && ltb a (offset + size))
  where
    by : (b : Bool) → (if b then source (a - offset) else memory a) < 256
    by true = hs (a - offset)
    by false = hm a

abbrev pub total : List Field → ℕ
total [] = 0
total (f ∷ fs) = f.width + total fs

abbrev pub widths : List Field → List ℕ
widths [] = []
widths (f ∷ fs) = f.width ∷ widths fs

abbrev pub words : List Field → List ℕ
words [] = []
words (f ∷ fs) = f.word ∷ words fs

-- Each number fits into its bytes.
abbrev pub Fit : List Field → Type 0
Fit fs = All (λ (f : Field). f.word < 2 ^ (f.width * 8)) fs

-- The memory behind the writes.
abbrev pub written : List Field → ℕ → (ℕ → ℕ) → ℕ → ℕ
written [] offset memory = memory
written (f ∷ fs) offset memory =
    written fs (offset + f.width) (copy_to offset f.width (bytes_of f.word) memory)

pub write_fields-written :
    (fs : List Field) (c : Cursor)
    → c.offset + total fs ≤ c.size
    → write_fields fs c
      ≡ ok (record c { offset = c.offset + total fs; memory = written fs c.offset c.memory })
unfolding write_fields write_bytes
write_fields-written [] c room = let same : c.offset + 0 ≡ c.offset = omega arith in rw same refl
write_fields-written (f ∷ fs) c room =
    let inside : leb (c.offset + f.width) c.size ≡ true = ground arith in
    let sum : c.offset + f.width + total fs ≡ c.offset + (f.width + total fs) = omega arith in
    rw
      (
        inside,
        write_fields-written fs
            (record c {
              offset = c.offset + f.width;
              memory = copy_to c.offset f.width (bytes_of f.word) c.memory;
            })
            (omega arith),
        sum,
      )
      refl

pub written-below :
    (fs : List Field) (offset : ℕ) (memory : ℕ → ℕ) (a : ℕ)
    → a < offset
    → written fs offset memory a ≡ memory a
written-below [] offset memory a lt = refl
written-below (f ∷ fs) offset memory a lt =
    written-below fs (offset + f.width) _ a (omega arith) ∙ ground arith

pub written-above :
    (fs : List Field) (offset : ℕ) (memory : ℕ → ℕ) (a : ℕ)
    → offset + total fs ≤ a
    → written fs offset memory a ≡ memory a
written-above [] offset memory a le = refl
written-above (f ∷ fs) offset memory a le =
    written-above fs (offset + f.width) _ a (omega arith) ∙ ground arith

pub copy_to-value :
    (offset width word : ℕ) (memory : ℕ → ℕ)
    → word < 2 ^ (width * 8)
    → bytes_value (copy_to offset width (bytes_of word) memory) offset width ≡ word
copy_to-value offset width word memory fits =
    bytes_value-digits _ word offset width (copy_to-inside offset width (bytes_of word) memory)
    ∙ mod-eq_of_lt fits

-- From `offset` on there are the numbers of the fields.
abbrev pub Holds : (ℕ → ℕ) → ℕ → List Field → Type 0
Holds byte offset [] = Unit
Holds byte offset (f ∷ fs) =
    (bytes_value byte offset f.width ≡ f.word) × Holds byte (offset + f.width) fs

-- Where the bytes are as they were written, the fields are there.
pub Holds-written :
    (fs : List Field) (byte : ℕ → ℕ) (offset : ℕ) (memory : ℕ → ℕ)
    → Fit fs
    → ((a : ℕ) → offset ≤ a → a < offset + total fs → byte a ≡ written fs offset memory a)
    → Holds byte offset fs
Holds-written [] byte offset memory fit same = tt
Holds-written (f ∷ fs) byte offset memory (fits, fit) same = (
  bytes_value_ext byte memory' offset f.width
        (λ a lo hi. same a lo (omega arith) ∙ written-below fs (offset + f.width) memory' a hi)
      ∙ copy_to-value offset f.width f.word memory fits,
  Holds-written fs byte (offset + f.width) memory' fit
      (λ a lo hi. same a (omega arith) (omega arith)),
)
  where
    memory' : ℕ → ℕ
    memory' = copy_to offset f.width (bytes_of f.word) memory

pub read_fields-Holds :
    (fs : List Field) (b : StaticBpointer) (offset : ℕ)
    → offset + total fs ≤ b.bytes_size
    → Holds b.byte offset fs
    → read_fields b offset (widths fs) ≡ ok (words fs)
unfolding read_fields
read_fields-Holds [] b offset room h = refl
read_fields-Holds (f ∷ fs) b offset room (first, rest) =
    let inside : leb (offset + f.width) b.bytes_size ≡ true = ground arith in
    rw (inside, read_fields-Holds fs b (offset + f.width) (omega arith) rest, first) refl

-- A buffer that holds what was written gives it back.
pub read_fields-written :
    (fs : List Field) (b : StaticBpointer) (offset : ℕ) (memory : ℕ → ℕ)
    → Fit fs
    → offset + total fs ≤ b.bytes_size
    → ((a : ℕ) → offset ≤ a → a < offset + total fs → b.byte a ≡ written fs offset memory a)
    → read_fields b offset (widths fs) ≡ ok (words fs)
read_fields-written fs b offset memory fit room same =
    read_fields-Holds fs b offset room (Holds-written fs b.byte offset memory fit same)

pub written-lt :
    (fs : List Field) (offset : ℕ) (memory : ℕ → ℕ)
    → ((a : ℕ) → memory a < 256)
    → (a : ℕ) → written fs offset memory a < 256
written-lt [] offset memory h = h
written-lt (f ∷ fs) offset memory h = written-lt fs (offset + f.width) _ (
    copy_to-lt offset f.width (bytes_of f.word) memory
      (λ a. mod-lt (f.word / 2 ^ (a * 8)) (omega arith)) h)

pub total-append : (fs gs : List Field) → total (fs ++ gs) ≡ total fs + total gs
total-append [] gs = omega arith
total-append (f ∷ fs) gs = omega (arith, total-append fs gs)

-- Bytes taken from a place on.
pub bytes_value-shift :
    (byte : ℕ → ℕ) (offset at n : ℕ)
    → bytes_value (λ i. byte (offset + i)) at n ≡ bytes_value byte (offset + at) n
bytes_value-shift byte offset at zero = refl
bytes_value-shift byte offset at (suc n) =
    let e : offset + (at + 1) ≡ offset + at + 1 = omega arith in
    omega (arith, bytes_value-shift byte offset (at + 1) n, ap (λ (a : ℕ). bytes_value byte a n) e)

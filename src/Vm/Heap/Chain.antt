-- ===== src/Vm/Heap/Chain.antt =====
-- The list of free blocks by address: sorted, apart from one another, and inside the heap. Which
-- addresses it covers, and what an insertion and a removal do to that.
use malachite_scripting_lang.Prelude.{
  ℕ, ◌+◌, ◌-◌, ◌≤◌, ◌<◌, ◌≡◌, refl, ap, sym, ◌∙◌, Bool, true, false, ◌&&◌, ◌||◌, List, [], ◌∷◌,
  arith, ◌==◌, if◌then◌else◌, Bool-cases, inl, inr,
}
use malachite_scripting_lang.Vm.Interval.{HeapFreeInterval, contains}
use malachite_scripting_lang.Vm.Heap.{remove_if}

-- Whether a list of blocks covers an address.
abbrev pub covered : List HeapFreeInterval → ℕ → Bool
covered [] a = false
covered (b ∷ bs) a = contains b a || covered bs a

abbrev pub same_block : HeapFreeInterval → HeapFreeInterval → Bool
same_block b c = (b.start == c.start) && (b.end == c.end) && (b.size == c.size)

-- How often a block is in a list.
abbrev pub count : HeapFreeInterval → List HeapFreeInterval → ℕ
count b [] = 0
count b (c ∷ cs) = (if same_block b c then 1 else 0) + count b cs

-- The block lies in `lo`, ..., `hi` - 1 and knows its size.
pub record IsBlock (lo hi : ℕ) (b : HeapFreeInterval) : Type 0 where
  pub above : lo ≤ b.start
  pub ordered : b.start ≤ b.end
  pub below : b.end < hi
  pub sized : b.size ≡ b.end + 1 - b.start

-- Blocks of `lo`, ..., `hi` - 1 in the order of their addresses, with no address in two of them.
abbrev pub Chain : ℕ → ℕ → List HeapFreeInterval → Type 0
Chain lo hi [] = Unit
Chain lo hi (b ∷ bs) = IsBlock lo hi b × Chain (b.end + 1) hi bs

pub Chain-weaken :
    (lo lo' hi : ℕ) (bs : List HeapFreeInterval) → lo' ≤ lo → Chain lo hi bs → Chain lo' hi bs
Chain-weaken lo lo' hi [] h c = tt
Chain-weaken lo lo' hi (b ∷ bs) h (v, c) = (
  record { above = omega (arith, v.above); ordered = v.ordered; below = v.below; sized = v.sized },
  c,
)

pub same_block-eq : (b c : HeapFreeInterval) → same_block b c ≡ true → b ≡ c
same_block-eq b c h = ground arith

pub count-behind :
    (b x : HeapFreeInterval) (xs : List HeapFreeInterval)
    → same_block b x ≡ false
    → 0 < count b (x ∷ xs)
    → 0 < count b xs
count-behind b x xs e h = ground arith

pub Chain-count :
    (lo hi : ℕ) (bs : List HeapFreeInterval) (b : HeapFreeInterval)
    → Chain lo hi bs
    → 0 < count b bs
    → IsBlock lo hi b
Chain-count lo hi [] b c h = absurd (omega arith)
Chain-count lo hi (x ∷ xs) b (v, c) h = elim (Bool-cases (same_block b x)) [
  | inl here ↦ rw (same_block-eq b x here) v
  | inr behind ↦
      let rest = Chain-count (x.end + 1) hi xs b c (count-behind b x xs behind h) in
      record {
        above = omega (arith, v.above, v.ordered, rest.above);
        ordered = rest.ordered;
        below = rest.below;
        sized = rest.sized;
      }
]

-- A start belongs to one block.
pub Chain-unique :
    (lo hi : ℕ) (bs : List HeapFreeInterval) (b c : HeapFreeInterval)
    → Chain lo hi bs
    → 0 < count b bs
    → 0 < count c bs
    → b.start ≡ c.start
    → b ≡ c
Chain-unique lo hi [] b c ch hb hc e = absurd (omega arith)
Chain-unique lo hi (x ∷ xs) b c (v, ch) hb hc e = elim (Bool-cases (same_block b x)) [
  | inl b_here ↦ elim (Bool-cases (same_block c x)) [
    | inl c_here ↦ same_block-eq b x b_here ∙ sym (same_block-eq c x c_here)
    | inr c_behind ↦
        let in_rest = Chain-count (x.end + 1) hi xs c ch (count-behind c x xs c_behind hc) in
        absurd (
          omega (
            arith,
            ap (λ (t : HeapFreeInterval). t.start) (same_block-eq b x b_here),
            in_rest.above,
            v.ordered,
            e,
          ))
  ]
  | inr b_behind ↦ elim (Bool-cases (same_block c x)) [
    | inl c_here ↦
        let in_rest = Chain-count (x.end + 1) hi xs b ch (count-behind b x xs b_behind hb) in
        absurd (
          omega (
            arith,
            ap (λ (t : HeapFreeInterval). t.start) (same_block-eq c x c_here),
            in_rest.above,
            v.ordered,
            e,
          ))
    | inr c_behind ↦
        Chain-unique (x.end + 1) hi xs b c ch (count-behind b x xs b_behind hb)
          (count-behind c x xs c_behind hc) e
  ]
]

pub covered-below :
    (lo hi : ℕ) (bs : List HeapFreeInterval) (a : ℕ)
    → Chain lo hi bs
    → a < lo
    → covered bs a ≡ false
covered-below lo hi [] a c h = refl
covered-below lo hi (b ∷ bs) a (v, c) h =
    let rest : covered bs a ≡ false =
      covered-below (b.end + 1) hi bs a c (omega (arith, v.above, v.ordered)) in
    ground (arith, rest, v.above)

-- A block of the list covers its addresses.
pub covered-count :
    (bs : List HeapFreeInterval) (b : HeapFreeInterval) (a : ℕ)
    → 0 < count b bs
    → contains b a ≡ true
    → covered bs a ≡ true
covered-count [] b a h i = absurd (omega arith)
covered-count (x ∷ xs) b a h i = elim (Bool-cases (same_block b x)) [
  | inl here ↦ rw ((rw (same_block-eq b x here) at i)) refl
  | inr behind ↦ ground (arith, covered-count xs b a (count-behind b x xs behind h) i)
]

-- `find_if` and `remove` take out the first block that passes the test.
pub remove_if-cons :
    (test : HeapFreeInterval → Bool) (b : HeapFreeInterval) (bs : List HeapFreeInterval)
    → remove_if test (b ∷ bs) ≡ (if test b then bs else b ∷ remove_if test bs)
unfolding remove_if
remove_if-cons test b bs = ground arith

-- ===== src/Vm/Heap/Change.antt =====
-- Removal and insertion in the list by address: the chain stays one, and covers what it should.
use malachite_scripting_lang.Prelude.{
  ℕ, ◌+◌, ◌≤◌, ◌<◌, ◌≡◌, refl, Bool, true, false, not, ◌&&◌, ◌||◌, List, [], ◌∷◌, arith, ltb,
  if◌then◌else◌, Bool-cases, inl, inr,
}
use malachite_scripting_lang.Vm.LinkedList.{insert_sorted, insert_behind}
use malachite_scripting_lang.Vm.Interval.{HeapFreeInterval, contains}
use malachite_scripting_lang.Vm.Heap.{starts_before, same_ends, remove_if}
use malachite_scripting_lang.Vm.Heap.Chain.{
  covered, same_block, count, IsBlock, Chain, Chain-weaken, same_block-eq, count-behind,
  Chain-count, covered-below, remove_if-cons,
}

-- The count after the removal of the only item that passes the test.
pub count-remove_if :
    (test : HeapFreeInterval → Bool) (b c : HeapFreeInterval) (bs : List HeapFreeInterval)
    → 0 < count b bs
    → test b ≡ true
    → ((x : HeapFreeInterval) → 0 < count x bs → test x ≡ true → x ≡ b)
    → count c (remove_if test bs) + (if same_block c b then 1 else 0) ≡ count c bs
count-remove_if test b c [] h t only = absurd (omega arith)
count-remove_if test b c (x ∷ xs) h t only =
    rw (remove_if-cons test x xs) (elim (Bool-cases (test x)) [
      | inl passes ↦ rw (passes, only x (ground arith) passes) (ground arith)
      | inr fails ↦ rw fails (
          ground (
            arith,
            count-remove_if test b c xs (count-behind b x xs (other fails) h) t
                (λ y hy. only y (ground arith)),
          ))
    ])
  where
    other : test x ≡ false → same_block b x ≡ false
    other fails = elim (Bool-cases (same_block b x)) [
      | inl same ↦ absurd_test (rw (same_block-eq b x same) at t) fails
      | inr different ↦ different
    ]
      where
        absurd_test : test x ≡ true → test x ≡ false → same_block b x ≡ false
        absurd_test p q = cc

pub remove_if-Chain :
    (test : HeapFreeInterval → Bool) (lo hi : ℕ) (bs : List HeapFreeInterval)
    → Chain lo hi bs
    → Chain lo hi (remove_if test bs)
unfolding remove_if
remove_if-Chain test lo hi [] c = tt
remove_if-Chain test lo hi (x ∷ xs) (v, c) =
    rw (remove_if-cons test x xs) (either (remove_if-Chain test (x.end + 1) hi xs c) (test x))
  where
    either :
        Chain (x.end + 1) hi (remove_if test xs)
        → (b : Bool) → Chain lo hi (if b then xs else x ∷ remove_if test xs)
    either tail true = Chain-weaken (x.end + 1) lo hi xs (omega (arith, v.above, v.ordered)) c
    either tail false = (v, tail)

-- Without the block `b` the list covers what it covered, less the addresses of `b`.
pub covered-remove :
    (lo hi : ℕ) (b : HeapFreeInterval) (bs : List HeapFreeInterval) (a : ℕ)
    → Chain lo hi bs
    → 0 < count b bs
    → covered (remove_if (same_ends b) bs) a ≡ (covered bs a && not (contains b a))
covered-remove lo hi b [] a c h = absurd (omega arith)
covered-remove lo hi b (x ∷ xs) a (v, c) h =
    rw (remove_if-cons (same_ends b) x xs) (elim (Bool-cases (same_ends b x)) [
      | inl same ↦ rw same (ground (arith, behind, v.ordered))
      | inr other ↦ rw other (
          ground (
            arith,
            in_tail other,
            covered-remove lo' hi b xs a c (left other),
            (block other).above,
            v.ordered,
          ))
    ])
  where
    lo' : ℕ
    lo' = x.end + 1

    behind : a < x.end + 1 → covered xs a ≡ false
    behind = covered-below (x.end + 1) hi xs a c

    left : same_ends b x ≡ false → 0 < count b xs
    left other = count-behind b x xs (ground arith) h

    block : same_ends b x ≡ false → IsBlock (x.end + 1) hi b
    block other = Chain-count (x.end + 1) hi xs b c (left other)

    in_tail : same_ends b x ≡ false → x.end + 1 ≤ b.start
    in_tail other = (block other).above

pub covered-insert_behind :
    (b : HeapFreeInterval) (bs : List HeapFreeInterval) (a : ℕ)
    → covered (insert_behind starts_before b bs) a ≡ (contains b a || covered bs a)
unfolding insert_behind
covered-insert_behind b [] a = refl
covered-insert_behind b (x ∷ xs) a = ground (arith, covered-insert_behind b xs a)

-- With `b` the list covers the addresses of `b` too.
pub covered-insert :
    (b : HeapFreeInterval) (bs : List HeapFreeInterval) (a : ℕ)
    → covered (insert_sorted starts_before b bs) a ≡ (contains b a || covered bs a)
unfolding insert_sorted
covered-insert b [] a = refl
covered-insert b (x ∷ xs) a = ground (arith, covered-insert_behind b xs a)

pub count-insert_behind :
    (b c : HeapFreeInterval) (bs : List HeapFreeInterval)
    → count c (insert_behind starts_before b bs) ≡ (if same_block c b then 1 else 0) + count c bs
unfolding insert_behind
count-insert_behind b c [] = refl
count-insert_behind b c (x ∷ xs) = ground (arith, count-insert_behind b c xs)

pub count-insert :
    (b c : HeapFreeInterval) (bs : List HeapFreeInterval)
    → count c (insert_sorted starts_before b bs) ≡ (if same_block c b then 1 else 0) + count c bs
unfolding insert_sorted
count-insert b c [] = refl
count-insert b c (x ∷ xs) = ground (arith, count-insert_behind b c xs)

-- No address of `b` is covered.
pub record IsApart (b : HeapFreeInterval) (bs : List HeapFreeInterval) : Type 0 where
  pub apart : (a : ℕ) → contains b a ≡ true → covered bs a ≡ false

module _ (hi : ℕ) (b : HeapFreeInterval) where
  -- Two blocks of which neither covers the start of the other are in one of two orders.
  before-or-behind :
      (lo lo' : ℕ) (x : HeapFreeInterval) (xs : List HeapFreeInterval)
      → IsBlock lo hi x
      → IsBlock lo' hi b
      → IsApart b (x ∷ xs)
      → (ltb x.start b.start ≡ true → x.end + 1 ≤ b.start)
        × (ltb x.start b.start ≡ false → b.end + 1 ≤ x.start)
  before-or-behind lo lo' x xs v w p = (
    λ h. ground (arith, p.apart b.start, v.ordered, w.ordered),
    λ h. ground (arith, p.apart x.start, v.ordered, w.ordered),
  )

  IsApart-tail :
      (x : HeapFreeInterval) (xs : List HeapFreeInterval) → IsApart b (x ∷ xs) → IsApart b xs
  IsApart-tail x xs p = record { apart = λ a i. ground (arith, p.apart a i) }

  raised : (lo lo' : ℕ) → IsBlock lo hi b → lo' ≤ b.start → IsBlock lo' hi b
  raised lo lo' w h = record { above = h; ordered = w.ordered; below = w.below; sized = w.sized }

  insert_behind-Chain :
      (lo : ℕ) (bs : List HeapFreeInterval)
      → Chain lo hi bs
      → IsBlock lo hi b
      → IsApart b bs
      → Chain lo hi (insert_behind starts_before b bs)
  unfolding insert_behind
  insert_behind-Chain lo [] c w p = (w, tt)
  insert_behind-Chain lo (x ∷ xs) (v, c) w p = elim (Bool-cases (ltb x.start b.start)) [
    | inl before ↦ rw before (
      v,
      insert_behind-Chain (x.end + 1) xs c
          (raised lo (x.end + 1) w ((before-or-behind lo lo x xs v w p).0 before))
          (IsApart-tail x xs p),
    )
    | inr behind ↦ rw behind (w, (front behind, c))
  ]
    where
      front : ltb x.start b.start ≡ false → IsBlock (b.end + 1) hi x
      front behind = record {
        above = (before-or-behind lo lo x xs v w p).1 behind;
        ordered = v.ordered;
        below = v.below;
        sized = v.sized;
      }

  -- The insertion of a block whose addresses are not covered keeps the chain.
  pub insert-Chain :
      (lo : ℕ) (bs : List HeapFreeInterval)
      → Chain lo hi bs
      → IsBlock lo hi b
      → IsApart b bs
      → Chain lo hi (insert_sorted starts_before b bs)
  unfolding insert_sorted
  insert-Chain lo [] c w p = (w, tt)
  insert-Chain lo (x ∷ xs) (v, c) w p = elim (Bool-cases (ltb b.start x.start)) [
    | inl first ↦ rw first (
      w,
      (
        record {
          above = (before-or-behind lo lo x xs v w p).1 (ground arith);
          ordered = v.ordered;
          below = v.below;
          sized = v.sized;
        },
        c,
      ),
    )
    | inr later ↦ rw later (
      v,
      insert_behind-Chain (x.end + 1) xs c
          (raised lo (x.end + 1) w (ground (arith, p.apart b.start, v.ordered, w.ordered)))
          (IsApart-tail x xs p),
    )
  ]

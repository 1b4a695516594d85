-- ===== src/Vm/Heap/Merge.antt =====
-- Coalesce joins neighbours in the list by address: it stays a chain and covers the same addresses.
use malachite_scripting_lang.Prelude.{
  ℕ, ◌+◌, ◌-◌, ◌^◌, ◌≤◌, ◌≡◌, refl, ap, ◌∙◌, Bool, true, ◌||◌, List, [], ◌∷◌, arith, Bool-cases,
  inl, inr,
}
use malachite_scripting_lang.Vm.LinkedList.{coalesce, coalesce_from}
use malachite_scripting_lang.Vm.Interval.{HeapFreeInterval, contains, can_merge_with, merge_with}
use malachite_scripting_lang.Vm.Heap.Chain.{covered, IsBlock, Chain}

module _ (hi : ℕ) (small : hi ≤ 2 ^ 63) where
  -- Two blocks in their order that can merge touch, and what they merge to goes from the start of
  -- the one to the end of the other.
  module _ (lo : ℕ) (x y : HeapFreeInterval) (v : IsBlock lo hi x)
      (w : IsBlock (x.end + 1) hi y) where
    touch : can_merge_with x y ≡ true → y.start ≡ x.end + 1
    unfolding can_merge_with
    touch h = ground (arith, v.above, v.ordered, v.below, w.above, w.ordered, w.below)

    merged-start : (merge_with x y).start ≡ x.start
    unfolding merge_with
    merged-start = ground (arith, v.ordered, w.above)

    merged-end : (merge_with x y).end ≡ y.end
    unfolding merge_with
    merged-end = ground (arith, w.above, w.ordered)

    merged-size : (merge_with x y).size ≡ y.end + 1 - x.start
    unfolding merge_with
    merged-size = ground (arith, v.ordered, v.below, w.above, w.ordered, w.below)

    merged-IsBlock : IsBlock lo hi (merge_with x y)
    merged-IsBlock = record {
      above = omega (arith, merged-start, v.above);
      ordered = omega (arith, merged-start, merged-end, v.ordered, w.above, w.ordered);
      below = omega (arith, merged-end, w.below);
      sized = omega (arith, merged-start, merged-end, merged-size);
    }

    merged-contains :
        (a : ℕ)
        → can_merge_with x y ≡ true
        → contains (merge_with x y) a ≡ (contains x a || contains y a)
    merged-contains a h =
        rw (merged-start, merged-end) (ground (arith, touch h, v.ordered, w.ordered))

  coalesce_from-Chain :
      (lo : ℕ) (x : HeapFreeInterval) (ys : List HeapFreeInterval)
      → IsBlock lo hi x
      → Chain (x.end + 1) hi ys
      → Chain lo hi (coalesce_from can_merge_with merge_with x ys)
  unfolding coalesce_from
  coalesce_from-Chain lo x [] v c = (v, tt)
  coalesce_from-Chain lo x (y ∷ ys) v (w, c) = elim (Bool-cases (can_merge_with x y)) [
    | inl merges ↦
        rw (merges, coalesce_from)
          (coalesce_from-Chain lo (merge_with x y) ys (merged-IsBlock lo x y v w)
            (rw (merged-end lo x y v w) c))
    | inr apart ↦ rw (apart, coalesce_from) (v, coalesce_from-Chain (x.end + 1) y ys w c)
  ]

  covered-coalesce_from :
      (lo : ℕ) (x : HeapFreeInterval) (ys : List HeapFreeInterval) (a : ℕ)
      → IsBlock lo hi x
      → Chain (x.end + 1) hi ys
      → covered (coalesce_from can_merge_with merge_with x ys) a ≡ covered (x ∷ ys) a
  unfolding coalesce_from
  covered-coalesce_from lo x [] a v c = refl
  covered-coalesce_from lo x (y ∷ ys) a v (w, c) = elim (Bool-cases (can_merge_with x y)) [
    | inl merges ↦
        rw (merges, coalesce_from)
          (covered-coalesce_from lo (merge_with x y) ys a (merged-IsBlock lo x y v w)
              (rw (merged-end lo x y v w) c)
            ∙ ground (arith, merged-contains lo x y v w a merges))
    | inr apart ↦
        rw (apart, coalesce_from)
          (ap (λ (t : Bool). contains x a || t) (covered-coalesce_from (x.end + 1) y ys a w c))
  ]

  -- Coalesce keeps the chain,
  pub coalesce-Chain :
      (lo : ℕ) (bs : List HeapFreeInterval)
      → Chain lo hi bs
      → Chain lo hi (coalesce can_merge_with merge_with bs)
  unfolding coalesce
  coalesce-Chain lo [] c = tt
  coalesce-Chain lo (x ∷ xs) (v, c) = coalesce_from-Chain lo x xs v c

  -- The coalesced list of a chain of blocks below 2 ^ 63 covers the addresses that the chain covers.
  pub covered-coalesce :
      (lo : ℕ) (bs : List HeapFreeInterval) (a : ℕ)
      → Chain lo hi bs
      → covered (coalesce can_merge_with merge_with bs) a ≡ covered bs a
  unfolding coalesce
  covered-coalesce lo [] a c = refl
  covered-coalesce lo (x ∷ xs) a (v, c) = covered-coalesce_from lo x xs a v c

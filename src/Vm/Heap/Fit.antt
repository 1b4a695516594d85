-- ===== src/Vm/Heap/Fit.antt =====
-- FindFitBlock finds a block that is large enough, and of the least such size, wherever there is one.
use malachite_scripting_lang.Prelude.{
  ℕ, zero, suc, ◌+◌, ◌≤◌, ◌<◌, ◌≡◌, refl, ◌∙◌, List, [], ◌∷◌, none, some, arith, ◌==◌, Option-cases,
  Bool-cases, ==→eq, inl, inr,
}
use malachite_scripting_lang.Vm.Interval.{HeapFreeInterval}
use malachite_scripting_lang.Vm.Heap.{
  HeapFreeIntervals, SizeIndex, bucket, find_fit_from, find_fit_block, get_front,
}
use malachite_scripting_lang.Vm.Heap.Chain.{count}
use malachite_scripting_lang.Vm.Heap.Index.{Indexes}

front-count :
    (l : List HeapFreeInterval) (b : HeapFreeInterval) → get_front l ≡ some b → 0 < count b l
front-count [] b e = absurd (cc e)
front-count (x ∷ xs) b e = ground (arith, e)

get_front-none :
    (l : List HeapFreeInterval) (b : HeapFreeInterval) → get_front l ≡ none → count b l ≡ 0
get_front-none [] b e = refl
get_front-none (x ∷ xs) b e = absurd (cc e)

-- An empty bucket, and what holds from the next size on.
from_next :
    (index : SizeIndex) (size t : ℕ) (c : HeapFreeInterval)
    → get_front (bucket index size) ≡ none
    → size ≤ t
    → (size + 1 ≤ t → count c (bucket index t) ≡ 0)
    → count c (bucket index t) ≡ 0
from_next index size t c empty le rest = elim (Bool-cases (t == size)) [
  | inl here ↦ rw (==→eq t size here) (get_front-none (bucket index size) c empty)
  | inr above ↦ rest (ground arith)
]

-- The block that the search comes to is in the bucket of a size that was asked for, and the buckets
-- of the smaller sizes are empty.
find_fit_from-some :
    (index : SizeIndex) (rounds size : ℕ) (b : HeapFreeInterval)
    → find_fit_from index rounds size ≡ some b
    → (s : ℕ) × (size ≤ s)
      × (0 < count b (bucket index s))
      × ((t : ℕ) (c : HeapFreeInterval) → size ≤ t → t < s → count c (bucket index t) ≡ 0)
unfolding find_fit_from
find_fit_from-some index zero size b e = absurd (cc e)
find_fit_from-some index (suc rounds) size b e =
    elim (Option-cases (get_front (bucket index size))) [
      | inl empty ↦
          let (s, le, held, smaller) =
            find_fit_from-some index rounds (size + 1) b (rw (empty, find_fit_from) at e) in
          (s, omega arith, held, skip empty s smaller)
      | inr (c, front) ↦ (
        size,
        omega arith,
        front-count (bucket index size) b (front ∙ (rw (front, find_fit_from) at e)),
        λ t c' le lt. absurd (omega arith),
      )
    ]
  where
    skip :
        get_front (bucket index size) ≡ none
        → (s : ℕ)
        → ((t : ℕ) (c : HeapFreeInterval) → size + 1 ≤ t → t < s → count c (bucket index t) ≡ 0)
        → (t : ℕ) (c : HeapFreeInterval) → size ≤ t
        → t < s
        → count c (bucket index t) ≡ 0
    skip empty s smaller t c le lt =
        from_next index size t c empty le (λ above. smaller t c above lt)

find_fit_from-none :
    (index : SizeIndex) (rounds size : ℕ)
    → find_fit_from index rounds size ≡ none
    → (t : ℕ) (c : HeapFreeInterval) → size ≤ t
    → t < size + rounds
    → count c (bucket index t) ≡ 0
unfolding find_fit_from
find_fit_from-none index zero size e t c le lt = absurd (omega arith)
find_fit_from-none index (suc rounds) size e t c le lt =
    elim (Option-cases (get_front (bucket index size))) [
      | inl empty ↦ from_next index size t c empty le (λ above.
          find_fit_from-none index rounds (size + 1) (rw (empty, find_fit_from) at e) t c above
            (omega arith))
      | inr (b, front) ↦ absurd (some_none b (rw (front, find_fit_from) at e))
    ]
  where
    some_none : (b : HeapFreeInterval) → some b ≡ none → ⊥
    some_none b p = cc

module _ (n : ℕ) (h : HeapFreeIntervals) (i : Indexes h.free_intervals_by_addr h) where
  abbrev blocks : List HeapFreeInterval
  blocks = h.free_intervals_by_addr

  pub find_fit_block-held :
      (b : HeapFreeInterval)
      → find_fit_block n h ≡ some b
      → (0 < count b blocks)
        × (n ≤ b.size)
        × ((c : HeapFreeInterval) → 0 < count c blocks → n ≤ c.size → b.size ≤ c.size)
  unfolding find_fit_block
  find_fit_block-held b e =
      let (s, le, held, smaller) = find_fit_from-some h.free_intervals_by_size _ n b e in
      let size : b.size ≡ s = ground (arith, i.under_size s b, held) in
      (
        ground (arith, i.under_size s b, held),
        omega arith,
        λ c hc le'. ground (arith, smaller c.size c le', i.under_size c.size c, hc, size),
      )

  missed : (c : HeapFreeInterval) → 0 < count c blocks → n ≤ c.size → find_fit_block n h ≡ none → ⊥
  unfolding find_fit_block
  missed c held large nothing = ground (
    arith,
    i.under_size c.size c,
    i.bounded c held,
    held,
    large,
    find_fit_from-none h.free_intervals_by_size _ n nothing c.size c large,
  )

  -- Where the index agrees with the list and a free block is large enough, FindFitBlock finds a
  -- free block that is, and that is no larger than it.
  pub find_fit_block-best :
      (c : HeapFreeInterval)
      → 0 < count c blocks
      → n ≤ c.size
      → (b : HeapFreeInterval) × (find_fit_block n h ≡ some b)
        × (0 < count b blocks)
        × (n ≤ b.size)
        × (b.size ≤ c.size)
  find_fit_block-best c held large = elim (Option-cases (find_fit_block n h)) [
    | inl nothing ↦ absurd (missed c held large nothing)
    | inr (b, found) ↦
        let (hb, le, least) = find_fit_block-held b found in (b, found, hb, le, least c held large)
  ]

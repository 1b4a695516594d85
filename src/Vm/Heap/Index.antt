-- ===== src/Vm/Heap/Index.antt =====
-- The index by size holds the blocks of the list by address, each under its size.
use malachite_scripting_lang.Prelude.{
  ℕ, ◌+◌, ◌≤◌, ◌<◌, ◌≡◌, refl, ap, ◌∙◌, Bool, true, false, List, [], ◌∷◌, ◌++◌, some, arith, ◌==◌,
  if◌then◌else◌, Bool-cases, Option-cases, inl, inr, ==→eq,
}
use malachite_scripting_lang.Vm.LinkedList.{insert_sorted}
use malachite_scripting_lang.Vm.Interval.{HeapFreeInterval}
use malachite_scripting_lang.Vm.Heap.{
  HeapFreeIntervals, SizeIndex, entries, bucket, set_bucket, entry_of, index_block, add_interval,
  remove_from_index, remove_interval, remove_if, same_start, same_ends, starts_before, index_blocks,
  rebuild_size_index,
}
use malachite_scripting_lang.Vm.Heap.Chain.{same_block, count, Chain, Chain-unique}
use malachite_scripting_lang.Vm.Heap.Change.{count-remove_if, count-insert}

-- `blocks` are in the index, each under its size and as often as it should be, and no size is
-- above the bound.
pub record Indexes (blocks : List HeapFreeInterval) (h : HeapFreeIntervals) : Type 0 where
  pub under_size :
      (size : ℕ) (b : HeapFreeInterval)
      → count b (bucket h.free_intervals_by_size size)
        ≡ (if b.size == size then count b blocks else 0)
  pub bounded : (b : HeapFreeInterval) → 0 < count b blocks → b.size ≤ h.max_block_size

count-push_back :
    (b c : HeapFreeInterval) (bs : List HeapFreeInterval)
    → count c (bs ++ b ∷ []) ≡ (if same_block c b then 1 else 0) + count c bs
count-push_back b c [] = refl
count-push_back b c (x ∷ xs) = omega (arith, count-push_back b c xs)

bucket-set :
    (index : SizeIndex) (size : ℕ) (l : List HeapFreeInterval) (s : ℕ)
    → bucket (set_bucket index size (some l)) s ≡ (if s == size then l else bucket index s)
bucket-set index size l s = choose (s == size)
  where
    choose :
        (b : Bool) → entries (if b then some l else index s) ≡ (if b then l else entries (index s))
    choose true = refl
    choose false = refl

-- One more block is indexed.
pub index_block-Indexes :
    (b : HeapFreeInterval) (blocks blocks' : List HeapFreeInterval) (h : HeapFreeIntervals)
    → ((c : HeapFreeInterval)
        → count c blocks' ≡ (if same_block c b then 1 else 0) + count c blocks)
    → Indexes blocks h
    → Indexes blocks' (index_block b h)
unfolding index_block
index_block-Indexes b blocks blocks' h more i = record {
  under_size = λ size c. rw (bucket-set h.free_intervals_by_size b.size _ size) (
      ground (
        arith,
        count-push_back b c (bucket h.free_intervals_by_size b.size),
        i.under_size size c,
        i.under_size b.size c,
        more c,
      ));
  bounded = λ c held. ground (arith, more c, held, i.bounded c);
}

entries-entry_of : (l : List HeapFreeInterval) → entries (entry_of l) ≡ l
entries-entry_of [] = refl
entries-entry_of (x ∷ xs) = refl

bucket-remove :
    (b : HeapFreeInterval) (index : SizeIndex) (s : ℕ)
    → bucket (remove_from_index b index) s
      ≡ (if s == b.size then remove_if (same_start b) (bucket index b.size) else bucket index s)
unfolding remove_from_index
bucket-remove b index s = elim (Option-cases (index b.size)) [
  | inl missing ↦
      rw (missing, remove_from_index)
        (elim (Bool-cases (s == b.size)) [
          | inl same ↦
              rw same (ap (λ (t : ℕ). entries (index t)) (==→eq s b.size same) ∙ ap entries missing)
          | inr other ↦ rw other
        ])
  | inr (l, found) ↦ rw (found, remove_from_index) (choose l (s == b.size))
]
  where
    choose :
        (l : List HeapFreeInterval) (c : Bool)
        → entries (if c then entry_of (remove_if (same_start b) l) else index s)
          ≡ (if c then remove_if (same_start b) l else entries (index s))
    choose l true = entries-entry_of (remove_if (same_start b) l)
    choose l false = refl

module _ (lo hi : ℕ) (b : HeapFreeInterval) (h : HeapFreeIntervals)
    (chain : Chain lo hi h.free_intervals_by_addr) (i : Indexes h.free_intervals_by_addr h)
    (held : 0 < count b h.free_intervals_by_addr) where
  abbrev blocks : List HeapFreeInterval
  blocks = h.free_intervals_by_addr

  by_ends : (x : HeapFreeInterval) → 0 < count x blocks → same_ends b x ≡ true → x ≡ b
  by_ends x hx e = Chain-unique lo hi blocks x b chain hx held (ground arith)

  by_start :
      (x : HeapFreeInterval)
      → 0 < count x (bucket h.free_intervals_by_size b.size)
      → same_start b x ≡ true
      → x ≡ b
  by_start x hx e =
      Chain-unique lo hi blocks x b chain (ground (arith, i.under_size b.size x, hx)) held
        (ground arith)

  pub count-removed :
      (c : HeapFreeInterval)
      → count c (remove_if (same_ends b) blocks) + (if same_block c b then 1 else 0)
        ≡ count c blocks
  count-removed c = count-remove_if (same_ends b) b c blocks held (ground arith) by_ends

  count-unindexed :
      (c : HeapFreeInterval)
      → count c (remove_if (same_start b) (bucket h.free_intervals_by_size b.size))
          + (if same_block c b then 1 else 0)
        ≡ count c (bucket h.free_intervals_by_size b.size)
  count-unindexed c =
      count-remove_if (same_start b) b c (bucket h.free_intervals_by_size b.size)
        (ground (arith, i.under_size b.size b, held)) (ground arith) by_start

  -- RemoveInterval of a free block takes it out of the list and of the index.
  pub remove_interval-Indexes : Indexes (remove_if (same_ends b) blocks) (remove_interval b h)
  unfolding remove_interval
  remove_interval-Indexes = record {
    under_size = λ size c. rw (bucket-remove b h.free_intervals_by_size size) (
        ground
          (arith, count-removed c, count-unindexed c, i.under_size size c, i.under_size b.size c));
    bounded = λ c still. i.bounded c (omega (arith, count-removed c));
  }

-- AddInterval puts the block into the list and into the index.
pub add_interval-Indexes :
    (b : HeapFreeInterval) (h : HeapFreeIntervals)
    → Indexes h.free_intervals_by_addr h
    → Indexes (add_interval b h).free_intervals_by_addr (add_interval b h)
unfolding add_interval index_block
add_interval-Indexes b h i =
    index_block-Indexes b h.free_intervals_by_addr
      (insert_sorted starts_before b h.free_intervals_by_addr)
      (record h { free_intervals_by_addr = insert_sorted starts_before b h.free_intervals_by_addr })
      (λ c. count-insert b c h.free_intervals_by_addr)
      (record { under_size = i.under_size; bounded = i.bounded })

-- RebuildSizeIndex, from any index: the blocks that it meets are added to those indexed.
index_blocks-Indexes :
    (done rest all : List HeapFreeInterval) (h : HeapFreeIntervals)
    → ((c : HeapFreeInterval) → count c done + count c rest ≡ count c all)
    → Indexes done h
    → Indexes all (index_blocks rest h)
unfolding index_blocks
index_blocks-Indexes done [] all h e i = record {
  under_size = λ size c. ground (arith, i.under_size size c, e c);
  bounded = λ c held. i.bounded c (omega (arith, e c));
}
index_blocks-Indexes done (b ∷ bs) all h e i =
    index_blocks-Indexes (b ∷ done) bs all (index_block b h) (λ c. omega (arith, e c))
      (index_block-Indexes b done (b ∷ done) h (λ c. refl) i)

index_blocks-by_addr :
    (bs : List HeapFreeInterval) (h : HeapFreeIntervals)
    → (index_blocks bs h).free_intervals_by_addr ≡ h.free_intervals_by_addr
unfolding index_blocks index_block
index_blocks-by_addr [] h = refl
index_blocks-by_addr (b ∷ bs) h = index_blocks-by_addr bs (index_block b h)

pub rebuild-by_addr :
    (h : HeapFreeIntervals)
    → (rebuild_size_index h).free_intervals_by_addr ≡ h.free_intervals_by_addr
unfolding rebuild_size_index
rebuild-by_addr h = index_blocks-by_addr h.free_intervals_by_addr _

-- After RebuildSizeIndex the index holds the blocks of the list, whatever it held before.
pub rebuild_size_index-Indexes :
    (h : HeapFreeIntervals) → Indexes h.free_intervals_by_addr (rebuild_size_index h)
unfolding rebuild_size_index
rebuild_size_index-Indexes h =
    index_blocks-Indexes [] h.free_intervals_by_addr h.free_intervals_by_addr _ (λ c. omega arith)
      (record { under_size = λ size c. ground arith; bounded = λ c held. absurd (omega arith) })

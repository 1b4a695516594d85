-- ===== src/Compiler/ChunkArray/Laws.antt =====
-- A chunk array behaves as the list of its elements.
use malachite_scripting_lang.Prelude.{
  ℕ, zero, suc, ◌+◌, ◌-◌, ◌*◌, ◌/◌, ◌%◌, ◌<◌, ◌≤◌, ◌≡◌, refl, ap, ◌∙◌, ◌⊎◌, arith, Bool, true,
  false, not, ◌||◌, inl, inr, Option, none, some, List, [], ◌∷◌, ◌++◌, length, length-append,
  get_elem?, leb, ◌==◌, if◌then◌else◌,
}
use malachite_scripting_lang.Outcome.{ok, throws, undefined, ◌>>=◌, Returns, index_out_of_bounds}
use malachite_scripting_lang.Compiler.ChunkArray.{
  ChunkArray, cell, put_cell, get, popback, drop_last, pushback, destroy,
}
use malachite_scripting_lang.Compiler.ChunkArray.Cells.{
  rewritten, put_cell-rewritten, length-rewritten, cell-rewritten, cell-append, length-drop_last,
  cell-drop_last,
}

module _ {A : Type 0} where
  -- The array's elements are those of the list, and there are chunks for all.
  pub record Represents (xs : List A) (a : ChunkArray A) : Type 0 where
    pub size_is : a.size ≡ length xs
    pub room : a.size ≤ length a.chunks * 256
    pub holds : (k : ℕ) (x : A) → get_elem? xs k ≡ some x → cell a.chunks k ≡ ok x

  pub elem-lt : (xs : List A) (k : ℕ) {x : A} → get_elem? xs k ≡ some x → k < length xs
  elem-lt [] k e = cc e
  elem-lt (y ∷ ys) zero e = omega arith
  elem-lt (y ∷ ys) (suc k) e = omega (arith, elem-lt ys k e)

  none-le : (xs : List A) (k : ℕ) → get_elem? xs k ≡ none → length xs ≤ k
  none-le [] k e = omega arith
  none-le (y ∷ ys) zero e = cc e
  none-le (y ∷ ys) (suc k) e = omega (arith, none-le ys k e)

  -- An element of a list with one more at its end.
  elem-snoc :
      (xs : List A) (y : A) (k : ℕ) (x : A)
      → get_elem? (xs ++ y ∷ []) k ≡ some x
      → ((k ≡ length xs) × (y ≡ x)) ⊎ (get_elem? xs k ≡ some x)
  elem-snoc [] y zero x e = inl (refl, cc e)
  elem-snoc [] y (suc k) x e = cc e
  elem-snoc (z ∷ zs) y zero x e = inr e
  elem-snoc (z ∷ zs) y (suc k) x e = elim (elem-snoc zs y k x e) [
    | inl (at_end, same) ↦ inl (omega (arith, at_end), same)
    | inr inner ↦ inr inner
  ]

  elem-snoc_old :
      (xs : List A) (y : A) (k : ℕ) {x : A}
      → get_elem? xs k ≡ some x
      → get_elem? (xs ++ y ∷ []) k ≡ some x
  elem-snoc_old [] y k e = cc e
  elem-snoc_old (z ∷ zs) y zero e = e
  elem-snoc_old (z ∷ zs) y (suc k) e = elem-snoc_old zs y k e

  -- A cell of its own is written, and the others are as before.
  written-Represents :
      (fresh : List (ℕ → A)) (xs : List A) (x : A)
      → length xs < length fresh * 256
      → ((k : ℕ) (y : A) → get_elem? xs k ≡ some y → cell fresh k ≡ ok y)
      → Represents
          (xs ++ x ∷ [])
          (record { chunks = rewritten fresh (length xs) x; size = length xs + 1 })
  written-Represents fresh xs x lt before = record {
    size_is = omega (arith, length-append xs (x ∷ []));
    room = omega (arith, length-rewritten fresh (length xs) x lt);
    holds = λ k y e. cell-rewritten fresh (length xs) x lt k ∙ elim (elem-snoc xs x k y e) [
      | inl (at_end, same) ↦
          let here : (k == length xs) ≡ true = ground arith in rw here (ap ok same)
      | inr inner ↦
          let elsewhere : (k == length xs) ≡ false = ground (arith, elem-lt xs k inner) in
          rw elsewhere (before k y inner)
    ];
  }

  -- Pushback of an element always returns, and appends it to the array's elements, adding a chunk when
  -- the array is full.
  pub pushback-Represents :
      (fresh : ℕ → A) (x : A) (xs : List A) (a : ChunkArray A)
      → Represents xs a
      → Returns (Represents (xs ++ x ∷ [])) (pushback fresh x a)
  unfolding pushback
  pushback-Represents fresh x xs a r = by (leb (length a.chunks) (a.size / 256)) refl
    where
      by :
          (full : Bool)
          → leb (length a.chunks) (a.size / 256) ≡ full
          → Returns (Represents (xs ++ x ∷ [])) (
              put_cell (if full then a.chunks ++ fresh ∷ [] else a.chunks) a.size x >>= λ chunks.
              ok (record { chunks = chunks; size = a.size + 1 }))
      by true full =
          let room : length xs < length (a.chunks ++ fresh ∷ []) * 256 =
            omega (arith, length-append a.chunks (fresh ∷ []), r.room, r.size_is) in
          rw (r.size_is, put_cell-rewritten (a.chunks ++ fresh ∷ []) (length xs) x room)
            (written-Represents (a.chunks ++ fresh ∷ []) xs x room λ k y e.
              cell-append a.chunks (fresh ∷ []) k (omega (arith, elem-lt xs k e, r.room, r.size_is))
              ∙ r.holds k y e)
      by false full =
          let room : length xs < length a.chunks * 256 = ground (arith, full, r.size_is) in
          rw (r.size_is, put_cell-rewritten a.chunks (length xs) x room)
            (written-Represents a.chunks xs x room r.holds)

  -- The last element dropped together with its chunk, where it is alone in it.
  dropped-Represents :
      (x : A) (xs : List A) (a : ChunkArray A)
      → Represents (xs ++ x ∷ []) a
      → (length xs % 256 == 0) ≡ true
      → Represents xs (record { chunks = drop_last a.chunks; size = length xs })
  dropped-Represents x xs a r alone = record {
    size_is = refl;
    room =
        ground
          (arith, alone, length-drop_last a.chunks, r.room, r.size_is, length-append xs (x ∷ []));
    holds = λ k y e.
        cell-drop_last a.chunks k
          (ground (arith, alone, elem-lt xs k e, r.room, r.size_is, length-append xs (x ∷ [])))
        ∙ r.holds k y (elem-snoc_old xs x k e);
  }

  -- The last element dropped, and something left in its cell.
  ended-Represents :
      (x ended : A) (xs : List A) (a : ChunkArray A)
      → Represents (xs ++ x ∷ []) a
      → Represents xs (record { chunks = rewritten a.chunks (length xs) ended; size = length xs })
  ended-Represents x ended xs a r =
      let room : length xs < length a.chunks * 256 =
        omega (arith, r.room, r.size_is, length-append xs (x ∷ [])) in
      record {
        size_is = refl;
        room = omega (arith, length-rewritten a.chunks (length xs) ended room, room);
        holds = λ k y e.
            let apart : (k == length xs) ≡ false = ground (arith, elem-lt xs k e) in
            cell-rewritten a.chunks (length xs) ended room k
            ∙ rw apart (r.holds k y (elem-snoc_old xs x k e));
      }

  module _ (is_pod : Bool) (ended x : A) (xs : List A) (a : ChunkArray A)
      (r : Represents (xs ++ x ∷ []) a) where
    some_there : (a.size == 0) ≡ false
    some_there = ground (arith, r.size_is, length-append xs (x ∷ []))

    one_less : a.size - 1 ≡ length xs
    one_less = omega (arith, r.size_is, length-append xs (x ∷ []))

    last_there : length xs < length a.chunks * 256
    last_there = omega (arith, r.room, r.size_is, length-append xs (x ∷ []))

    -- Popback of an array with elements always returns and drops the last of them, where the element
    -- type is POD or the element is not the first of its chunk.
    pub popback-Represents :
        (is_pod || not (length xs % 256 == 0)) ≡ true
        → Returns (Represents xs) (popback is_pod ended a)
    unfolding popback destroy
    popback-Represents once = rw (some_there, one_less) (by is_pod (length xs % 256 == 0) refl once)
      where
        by :
            (pod alone : Bool)
            → (length xs % 256 == 0) ≡ alone
            → (pod || not alone) ≡ true
            → Returns (Represents xs) (
                (if pod then ok a.chunks else put_cell a.chunks (length xs) ended) >>= λ chunks.
                if alone
                then (if pod
                    then ok (record { chunks = drop_last chunks; size = length xs })
                    else undefined)
                else ok (record { chunks = chunks; size = length xs }))
        by true true alone h = dropped-Represents x xs a r alone
        by true false alone h = record {
          size_is = refl;
          room = omega (arith, last_there);
          holds = λ k y e. r.holds k y (elem-snoc_old xs x k e);
        }
        by false true alone h = cc h
        by false false alone h =
            rw (put_cell-rewritten a.chunks (length xs) ended last_there)
              (ended-Represents x ended xs a r)

  -- Get of an index below the size gives the list's element; any other index throws.
  pub get-Represents :
      (k : ℕ) (xs : List A) (a : ChunkArray A)
      → Represents xs a
      → get k a ≡ elim (get_elem? xs k) [ none ↦ throws index_out_of_bounds | some x ↦ ok x ]
  unfolding get
  get-Represents k xs a r = by (get_elem? xs k) refl
    where
      by :
          (o : Option A)
          → get_elem? xs k ≡ o
          → (if leb a.size k then throws index_out_of_bounds else cell a.chunks k)
            ≡ elim o [ none ↦ throws index_out_of_bounds | some x ↦ ok x ]
      by none e =
          let outside : leb a.size k ≡ true = ground (arith, none-le xs k e, r.size_is) in
          rw outside refl
      by (some x) e =
          let inside : leb a.size k ≡ false = ground (arith, elem-lt xs k e, r.size_is) in
          rw inside (r.holds k x e)

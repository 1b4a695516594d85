-- ===== src/Compiler/ChunkArray/Blocks.antt =====
-- Whole arrays that are copied into a chunk array, or behind its elements.
use malachite_scripting_lang.Prelude.{
  ℕ, zero, suc, ◌+◌, ◌-◌, ◌*◌, ◌<◌, ◌≤◌, ◌≡◌, refl, ap, sym, ◌∙◌, ◌⊎◌, arith, Bool, false, inl, inr,
  some, List, [], ◌∷◌, ◌++◌, length, length-append, get_elem?, ◌==◌, if◌then◌else◌, Bool-cases,
  ==→eq, ==_self,
}
use malachite_scripting_lang.Outcome.{ok, undefined, ◌>>=◌, Returns, Returns-bind, Returns-mono}
use malachite_scripting_lang.Compiler.ChunkArray.{
  ChunkArray, empty_array, cell, put_chunk, put_cell, copy_cells, pushback_array, reserve, pushback,
  copy_from, copy,
}
use malachite_scripting_lang.Compiler.ChunkArray.Cells.{
  rewritten, put_cell-rewritten, length-rewritten, cell-rewritten,
}
use malachite_scripting_lang.Compiler.ChunkArray.Laws.{Represents, elem-lt, pushback-Represents}

module _ {A : Type 0} where
  -- The chunks behind the copying of `n` cells from `i` on to the cells from `to + i` on.
  record Copied (other : List (ℕ → A)) (to n i : ℕ) (chunks chunks' : List (ℕ → A)) : Type 0 where
    pub same_length : length chunks' ≡ length chunks
    pub copied :
        (j : ℕ) (x : A) → i ≤ j → j < i + n → cell other j ≡ ok x → cell chunks' (to + j) ≡ ok x
    pub kept : (j : ℕ) → (j < to + i) ⊎ (to + i + n ≤ j) → cell chunks' j ≡ cell chunks j

  Copied-step :
      (other : List (ℕ → A)) (to n i : ℕ) (chunks chunks' : List (ℕ → A)) (x : A)
      → to + i + suc n ≤ length chunks * 256
      → cell other i ≡ ok x
      → Copied other to n (i + 1) (rewritten chunks (to + i) x) chunks'
      → Copied other to (suc n) i chunks chunks'
  Copied-step other to n i chunks chunks' x room there c = record {
    same_length = c.same_length ∙ length-rewritten chunks (to + i) x (omega arith);
    copied = λ j y lo hi e. elim (Bool-cases (j == i)) [
      | inl here ↦
          let same : j ≡ i = ==→eq j i here in
          rw (same) (
            c.kept (to + i) (inl (omega arith))
            ∙ cell-rewritten chunks (to + i) x (omega arith) (to + i)
            ∙ found
            ∙ sym there
            ∙ ap (cell other) (sym same)
            ∙ e)
      | inr later ↦ c.copied j y (ground arith) (ground arith) e
    ];
    kept = λ j out.
        let apart : (j == to + i) ≡ false = ground (arith, out) in
        c.kept j (beyond j out)
        ∙ cell-rewritten chunks (to + i) x (omega arith) j
        ∙ ap (λ (b : Bool). if b then ok x else cell chunks j) apart;
  }
    where
      found : (if to + i == to + i then ok x else cell chunks (to + i)) ≡ ok x
      found = rw (==_self (to + i)) refl

      beyond :
          (j : ℕ)
          → (j < to + i) ⊎ (to + i + suc n ≤ j)
          → (j < to + (i + 1)) ⊎ (to + (i + 1) + n ≤ j)
      beyond j (inl lt) = inl (omega arith)
      beyond j (inr le) = inr (omega arith)

  copy_cells-Copied :
      (other : List (ℕ → A)) (to n i : ℕ) (chunks : List (ℕ → A))
      → to + i + n ≤ length chunks * 256
      → ((j : ℕ) → i ≤ j → j < i + n → (x : A) × (cell other j ≡ ok x))
      → Returns (Copied other to n i chunks) (copy_cells other to n i chunks)
  unfolding copy_cells
  copy_cells-Copied other to zero i chunks room there = record {
    same_length = refl;
    copied = λ j x lo hi e. ground arith;
    kept = λ j out. refl;
  }
  copy_cells-Copied other to (suc n) i chunks room there =
      by (there i (omega arith) (omega arith)) λ x.
        copy_cells-Copied other to n (i + 1) (rewritten chunks (to + i) x)
          (omega (arith, length-rewritten chunks (to + i) x (omega arith)))
          (λ j lo hi. there j (omega arith) (omega arith))
    where
      by :
          ((x : A) × (cell other i ≡ ok x))
          → ((x : A)
              → Returns
                  (Copied other to n (i + 1) (rewritten chunks (to + i) x))
                  (copy_cells other to n (i + 1) (rewritten chunks (to + i) x)))
          → Returns (Copied other to (suc n) i chunks) (
              cell other i >>= λ element.
              put_cell chunks (to + i) element >>= copy_cells other to n (i + 1))
      by (x, e) rest =
          rw (e, put_cell-rewritten chunks (to + i) x (omega arith))
            (Returns-mono (Copied other to n (i + 1) (rewritten chunks (to + i) x)) _
              (copy_cells other to n (i + 1) (rewritten chunks (to + i) x))
              (λ chunks' c. Copied-step other to n i chunks chunks' x room e c) (rest x))

  elem-append :
      (xs ys : List A) (k : ℕ) {x : A}
      → get_elem? (xs ++ ys) k ≡ some x
      → (get_elem? xs k ≡ some x) ⊎ ((length xs ≤ k) × (get_elem? ys (k - length xs) ≡ some x))
  elem-append [] ys k e = let same : k - 0 ≡ k = omega arith in inr (omega arith, rw same e)
  elem-append (z ∷ zs) ys zero e = inl e
  elem-append (z ∷ zs) ys (suc k) {x} e = elim (elem-append zs ys k e) [
    | inl first ↦ inl first
    | inr (le, second) ↦
        let same : suc k - suc (length zs) ≡ k - length zs = omega arith in
        inr (omega (arith, le), rw same second)
  ]

  elem-there : (xs : List A) (k : ℕ) → k < length xs → (x : A) × (get_elem? xs k ≡ some x)
  elem-there [] k lt = ground arith
  elem-there (z ∷ zs) zero lt = (z, refl)
  elem-there (z ∷ zs) (suc k) lt = elem-there zs k (omega arith)

  -- Pushback of another array returns where the chunks already have room for all elements: they are
  -- appended in order.
  pub pushback_array-Represents :
      (xs ys : List A) (a other : ChunkArray A)
      → Represents xs a
      → Represents ys other
      → length xs + length ys ≤ length a.chunks * 256
      → Returns (Represents (xs ++ ys)) (pushback_array other a)
  unfolding pushback_array
  pushback_array-Represents xs ys a other r r' room =
      Returns-bind (Copied other.chunks a.size other.size 0 a.chunks) (Represents (xs ++ ys))
        (copy_cells other.chunks a.size other.size 0 a.chunks) _
        (copy_cells-Copied other.chunks a.size other.size 0 a.chunks
          (omega (arith, r.size_is, r'.size_is))
          λ j lo hi.
            let found = elem-there ys j (omega (arith, hi, r'.size_is)) in
            (found.0, r'.holds j found.0 found.1))
        λ chunks c. record {
          size_is = omega (arith, length-append xs ys, r.size_is, r'.size_is);
          room = omega (arith, c.same_length, r.size_is, r'.size_is);
          holds = λ k x e. elim (elem-append xs ys k e) [
            | inl first ↦
                c.kept k (inl (omega (arith, elem-lt xs k first, r.size_is))) ∙ r.holds k x first
            | inr (le, second) ↦
                let at : a.size + (k - length xs) ≡ k = omega (arith, le, r.size_is) in
                ap (cell chunks) (sym at)
                ∙ c.copied (k - length xs) x (omega arith)
                    (omega (arith, elem-lt ys (k - length xs) second, r'.size_is))
                    (r'.holds (k - length xs) x second)
          ];
        }

  -- Pushback of an array with elements onto an array without chunks has no defined behaviour: no room
  -- is reserved.
  pub pushback_array-no_room :
      (y : A) (ys : List A) (other : ChunkArray A)
      → Represents (y ∷ ys) other
      → pushback_array other empty_array ≡ undefined
  unfolding pushback_array copy_cells put_cell put_chunk
  pushback_array-no_room y ys other r = rw (r.size_is, r.holds 0 y refl) refl

  append_assoc : (xs ys zs : List A) → (xs ++ ys) ++ zs ≡ xs ++ (ys ++ zs)
  append_assoc [] ys zs = refl
  append_assoc (x ∷ xs) ys zs = ap (λ (l : List A). x ∷ l) (append_assoc xs ys zs)

  append_none : (xs : List A) → xs ++ [] ≡ xs
  append_none [] = refl
  append_none (x ∷ xs) = ap (λ (l : List A). x ∷ l) (append_none xs)

  module _ (fresh : ℕ → A) where
    copy_from-Represents :
        (other : List (ℕ → A)) (done rest : List A) (a : ChunkArray A)
        → Represents done a
        → ((j : ℕ) (x : A) → get_elem? rest j ≡ some x → cell other (length done + j) ≡ ok x)
        → Returns (Represents (done ++ rest)) (copy_from fresh other (length rest) (length done) a)
    unfolding copy_from
    copy_from-Represents other done [] a r there = rw (append_none done) r
    copy_from-Represents other done (x ∷ rest) a r there =
        let e : length done + 0 ≡ length done = omega arith in
        let next : length (done ++ x ∷ []) ≡ length done + 1 = length-append done (x ∷ []) in
        rw (rw e at (there 0 x refl)) (
          Returns-bind (Represents (done ++ x ∷ [])) _ (pushback fresh x a) _
            (pushback-Represents fresh x done a r)
            λ a' r'.
              rw (next, append_assoc done (x ∷ []) rest) at
                (copy_from-Represents other (done ++ x ∷ []) rest a' r' λ j y h.
                  let shifted : length (done ++ x ∷ []) + j ≡ length done + suc j =
                    omega (arith, next) in
                  ap (cell other) shifted ∙ there (suc j) y h))

    -- The copy of a chunk array always returns, and has the same elements.
    pub copy-Represents :
        (xs : List A) (other : ChunkArray A)
        → Represents xs other
        → Returns (Represents xs) (copy fresh other)
    unfolding copy reserve
    copy-Represents xs other r = rw r.size_is (
        copy_from-Represents other.chunks [] xs _
          (record { size_is = refl; room = omega arith; holds = λ k x e. cc e })
          λ j x e. let same : 0 + j ≡ j = omega arith in rw same (r.holds j x e))

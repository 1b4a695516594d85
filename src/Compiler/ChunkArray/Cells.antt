-- ===== src/Compiler/ChunkArray/Cells.antt =====
-- What writes, new chunks and dropped chunks do to the cells of a chunk array.
use malachite_scripting_lang.Prelude.{
  ℕ, zero, suc, ◌+◌, ◌-◌, ◌*◌, ◌/◌, ◌%◌, ◌<◌, ◌≡◌, refl, ap, ◌∙◌, arith, Bool, true, false, ◌&&◌,
  Option, List, [], ◌∷◌, ◌++◌, length, length-append, get_elem?, ◌==◌, if◌then◌else◌,
}
use malachite_scripting_lang.Outcome.{Outcome, ok, defined, ◌>>=◌}
use malachite_scripting_lang.Compiler.ChunkArray.{cell, put_chunk, put_cell, drop_last, add_chunks}

module _ {ℓ} {A : Type ℓ} where
  -- Element `i` of chunk `c`.
  abbrev at_chunk : List (ℕ → A) → ℕ → ℕ → Outcome A
  at_chunk chunks c i = defined (get_elem? chunks c) >>= λ chunk. ok (chunk i)

  -- The chunks behind a write to a chunk that there is.
  abbrev updated : List (ℕ → A) → ℕ → ℕ → A → List (ℕ → A)
  updated [] c i element = []
  updated (chunk ∷ chunks) zero i element = (λ j. if j == i then element else chunk j) ∷ chunks
  updated (chunk ∷ chunks) (suc c) i element = chunk ∷ updated chunks c i element

  put_chunk-updated :
      (chunks : List (ℕ → A)) (c i : ℕ) (element : A)
      → c < length chunks
      → put_chunk chunks c i element ≡ ok (updated chunks c i element)
  unfolding put_chunk
  put_chunk-updated [] c i element lt = ground arith
  put_chunk-updated (chunk ∷ chunks) zero i element lt = refl
  put_chunk-updated (chunk ∷ chunks) (suc c) i element lt =
      rw (put_chunk-updated chunks c i element (omega arith)) refl

  length-updated :
      (chunks : List (ℕ → A)) (c i : ℕ) (element : A)
      → length (updated chunks c i element) ≡ length chunks
  length-updated [] c i element = refl
  length-updated (chunk ∷ chunks) zero i element = refl
  length-updated (chunk ∷ chunks) (suc c) i element =
      omega (arith, length-updated chunks c i element)

  at_chunk-updated :
      (chunks : List (ℕ → A)) (c i : ℕ) (element : A) (c' i' : ℕ)
      → c < length chunks
      → at_chunk (updated chunks c i element) c' i'
        ≡ (if (c' == c) && (i' == i) then ok element else at_chunk chunks c' i')
  at_chunk-updated [] c i element c' i' lt = ground arith
  at_chunk-updated (chunk ∷ chunks) zero i element zero i' lt = by (i' == i)
    where
      by :
          (b : Bool)
          → ok (if b then element else chunk i') ≡ (if b then ok element else ok (chunk i'))
      by true = refl
      by false = refl
  at_chunk-updated (chunk ∷ chunks) zero i element (suc c') i' lt =
      let apart : (suc c' == 0) ≡ false = ground arith in rw apart refl
  at_chunk-updated (chunk ∷ chunks) (suc c) i element zero i' lt =
      let apart : (0 == suc c) ≡ false = ground arith in rw apart refl
  at_chunk-updated (chunk ∷ chunks) (suc c) i element (suc c') i' lt =
      let same : (suc c' == suc c) ≡ (c' == c) = ground arith in
      rw same (at_chunk-updated chunks c i element c' i' (omega arith))

  -- The chunks behind a write to cell `k`.
  abbrev pub rewritten : List (ℕ → A) → ℕ → A → List (ℕ → A)
  rewritten chunks k element = updated chunks (k / 256) (k % 256) element

  module _ (chunks : List (ℕ → A)) (k : ℕ) (element : A) (lt : k < length chunks * 256) where
    pub put_cell-rewritten : put_cell chunks k element ≡ ok (rewritten chunks k element)
    unfolding put_cell
    put_cell-rewritten = put_chunk-updated chunks (k / 256) (k % 256) element (omega arith)

    pub length-rewritten : length (rewritten chunks k element) ≡ length chunks
    length-rewritten = length-updated chunks (k / 256) (k % 256) element

    pub cell-rewritten :
        (j : ℕ)
        → cell (rewritten chunks k element) j ≡ (if j == k then ok element else cell chunks j)
    unfolding cell
    cell-rewritten j =
        at_chunk-updated chunks (k / 256) (k % 256) element (j / 256) (j % 256) (omega arith)
        ∙ ap (λ (b : Bool). if b then ok element else at_chunk chunks (j / 256) (j % 256)) same
      where
        same : ((j / 256 == k / 256) && (j % 256 == k % 256)) ≡ (j == k)
        same = ground arith

  get_elem?-append :
      (chunks more : List (ℕ → A)) (c : ℕ)
      → c < length chunks
      → get_elem? (chunks ++ more) c ≡ get_elem? chunks c
  get_elem?-append [] more c lt = ground arith
  get_elem?-append (chunk ∷ chunks) more zero lt = refl
  get_elem?-append (chunk ∷ chunks) more (suc c) lt = get_elem?-append chunks more c (omega arith)

  pub cell-append :
      (chunks more : List (ℕ → A)) (k : ℕ)
      → k < length chunks * 256
      → cell (chunks ++ more) k ≡ cell chunks k
  unfolding cell
  cell-append chunks more k lt =
      ap (λ (o : Option (ℕ → A)). defined o >>= λ chunk. ok (chunk (k % 256)))
        (get_elem?-append chunks more (k / 256) (omega arith))

  pub length-add_chunks :
      (fresh : ℕ → A) (n : ℕ) (chunks : List (ℕ → A))
      → length (add_chunks fresh n chunks) ≡ n + length chunks
  length-add_chunks fresh zero chunks = omega arith
  length-add_chunks fresh (suc n) chunks =
      omega
        (arith, length-add_chunks fresh n (chunks ++ fresh ∷ []), length-append chunks (fresh ∷ []))

  pub cell-add_chunks :
      (fresh : ℕ → A) (n : ℕ) (chunks : List (ℕ → A)) (k : ℕ)
      → k < length chunks * 256
      → cell (add_chunks fresh n chunks) k ≡ cell chunks k
  cell-add_chunks fresh zero chunks k lt = refl
  cell-add_chunks fresh (suc n) chunks k lt =
      cell-add_chunks fresh n (chunks ++ fresh ∷ []) k
        (omega (arith, length-append chunks (fresh ∷ [])))
      ∙ cell-append chunks (fresh ∷ []) k lt

  pub length-drop_last : (chunks : List (ℕ → A)) → length (drop_last chunks) ≡ length chunks - 1
  length-drop_last [] = refl
  length-drop_last (chunk ∷ []) = refl
  length-drop_last (chunk ∷ next ∷ chunks) = omega (arith, length-drop_last (next ∷ chunks))

  get_elem?-drop_last :
      (chunks : List (ℕ → A)) (c : ℕ)
      → c + 1 < length chunks
      → get_elem? (drop_last chunks) c ≡ get_elem? chunks c
  get_elem?-drop_last [] c lt = refl
  get_elem?-drop_last (chunk ∷ []) c lt = ground arith
  get_elem?-drop_last (chunk ∷ next ∷ chunks) zero lt = refl
  get_elem?-drop_last (chunk ∷ next ∷ chunks) (suc c) lt =
      get_elem?-drop_last (next ∷ chunks) c (omega arith)

  pub cell-drop_last :
      (chunks : List (ℕ → A)) (k : ℕ)
      → k + 256 < length chunks * 256
      → cell (drop_last chunks) k ≡ cell chunks k
  unfolding cell
  cell-drop_last chunks k lt =
      ap (λ (o : Option (ℕ → A)). defined o >>= λ chunk. ok (chunk (k % 256)))
        (get_elem?-drop_last chunks (k / 256) (omega arith))

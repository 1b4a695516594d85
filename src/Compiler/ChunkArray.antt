-- ===== src/Compiler/ChunkArray.antt =====
-- ChunkArray of MSLC/include/Definitions/ChunkArray.hpp: a growing array in chunks of 256 elements. An
-- element is a value. Popback and Clear say whether the element type is POD: for another one they call
-- destructors, and an element that is destroyed twice has no meaning. What becomes of a destroyed
-- element that stays in its chunk is not followed further.
pub mod Cells
pub mod Laws
pub mod Blocks
use malachite_scripting_lang.Prelude.{
  ℕ, zero, suc, ◌+◌, ◌-◌, ◌*◌, ◌/◌, ◌%◌, Bool, true, false, ◌||◌, Option, none, some, List, [], ◌∷◌,
  ◌++◌, length, get_elem?, leb, ltb, ◌==◌, if◌then◌else◌,
}
use malachite_scripting_lang.Outcome.{
  Outcome, ok, throws, undefined, defined, ◌>>=◌, index_out_of_bounds, chunk_array_empty,
}

-- CHUNK_SIZE
abbrev pub chunk_size : ℕ
chunk_size = 256

-- The chunks, each with its 256 elements, and `size_`.
pub record ChunkArray {ℓ} (A : Type ℓ) : Type ℓ where
  pub chunks : List (ℕ → A)
  pub size : ℕ

module _ {ℓ} {A : Type ℓ} where
  -- `ChunkArray()`
  abbrev pub empty_array : ChunkArray A
  empty_array = record { chunks = []; size = 0 }

  -- `chunks[k / CHUNK_SIZE][k % CHUNK_SIZE]`: a chunk that the vector does not have has no meaning.
  unfoldable pub cell : List (ℕ → A) → ℕ → Outcome A
  cell chunks k =
      defined (get_elem? chunks (k / chunk_size)) >>= λ chunk. ok (chunk (k % chunk_size))

  -- `chunks[c][i] = element`
  unfoldable pub put_chunk : List (ℕ → A) → ℕ → ℕ → A → Outcome (List (ℕ → A))
  put_chunk [] c i element = undefined
  put_chunk (chunk ∷ chunks) zero i element =
      ok ((λ j. if j == i then element else chunk j) ∷ chunks)
  put_chunk (chunk ∷ chunks) (suc c) i element =
      put_chunk chunks c i element >>= λ chunks'. ok (chunk ∷ chunks')

  -- `chunks[k / CHUNK_SIZE][k % CHUNK_SIZE] = element`
  unfoldable pub put_cell : List (ℕ → A) → ℕ → A → Outcome (List (ℕ → A))
  unfolding put_chunk
  put_cell chunks k element = put_chunk chunks (k / chunk_size) (k % chunk_size) element

  unfoldable pub get : ℕ → ChunkArray A → Outcome A
  unfolding cell
  get index a = if leb a.size index then throws index_out_of_bounds else cell a.chunks index

  unfoldable pub front : ChunkArray A → Outcome A
  unfolding cell
  front a = if a.size == 0 then throws chunk_array_empty else cell a.chunks 0

  unfoldable pub back : ChunkArray A → Outcome A
  unfolding cell
  back a = if a.size == 0 then throws chunk_array_empty else cell a.chunks (a.size - 1)

  unfoldable pub set : ℕ → A → ChunkArray A → Outcome (ChunkArray A)
  unfolding put_cell
  set index element a =
      if leb a.size index
      then throws index_out_of_bounds
      else (put_cell a.chunks index element >>= λ chunks. ok (record a { chunks = chunks }))

  -- `chunks.pop_back()`
  abbrev pub drop_last : List (ℕ → A) → List (ℕ → A)
  drop_last [] = []
  drop_last (chunk ∷ []) = []
  drop_last (chunk ∷ next ∷ chunks) = chunk ∷ drop_last (next ∷ chunks)

  -- `chunks[k / CHUNK_SIZE][k % CHUNK_SIZE].~T()` where the type is not POD; `ended` is what it leaves.
  unfoldable pub destroy : Bool → A → ℕ → List (ℕ → A) → Outcome (List (ℕ → A))
  unfolding put_cell
  destroy is_pod ended k chunks = if is_pod then ok chunks else put_cell chunks k ended

  -- Popback. `pop_back` destroys all elements of its chunk, also the one that is destroyed already.
  unfoldable pub popback : Bool → A → ChunkArray A → Outcome (ChunkArray A)
  unfolding destroy
  popback is_pod ended a =
      if a.size == 0
      then throws chunk_array_empty
      else (destroy is_pod ended (a.size - 1) a.chunks >>= λ chunks.
          if (a.size - 1) % chunk_size == 0
          then (if is_pod
              then ok (record { chunks = drop_last chunks; size = a.size - 1 })
              else undefined)
          else ok (record { chunks = chunks; size = a.size - 1 }))

  -- Clear. Where the type is not POD, the chunks destroy again what the loop has destroyed.
  unfoldable pub clear : Bool → ChunkArray A → Outcome (ChunkArray A)
  clear is_pod a = if is_pod || (a.size == 0) then ok empty_array else undefined

  -- `chunks[(where + i) / CHUNK_SIZE][...] = other.chunks[i / CHUNK_SIZE][...]` for the `n` indices
  -- from `i` on.
  unfoldable pub copy_cells : List (ℕ → A) → ℕ → ℕ → ℕ → List (ℕ → A) → Outcome (List (ℕ → A))
  unfolding cell put_cell
  copy_cells other where_index zero i chunks = ok chunks
  copy_cells other where_index (suc n) i chunks = cell other i >>= λ element.
      put_cell chunks (where_index + i) element >>= λ chunks'.
      copy_cells other where_index n (i + 1) chunks'

  -- Pushback of another array, which reserves nothing.
  unfoldable pub pushback_array : ChunkArray A → ChunkArray A → Outcome (ChunkArray A)
  unfolding copy_cells
  pushback_array other a = copy_cells other.chunks a.size other.size 0 a.chunks >>= λ chunks.
      ok (record { chunks = chunks; size = a.size + other.size })

  -- Operations that may add chunks: `fresh` is what a new chunk holds.
  module _ (fresh : ℕ → A) where
    -- The loop of Reserve, which adds this many chunks.
    abbrev pub add_chunks : ℕ → List (ℕ → A) → List (ℕ → A)
    add_chunks zero chunks = chunks
    add_chunks (suc n) chunks = add_chunks n (chunks ++ fresh ∷ [])

    unfoldable pub reserve : ℕ → ChunkArray A → ChunkArray A
    reserve new_capacity a = record a {
      chunks = add_chunks ((new_capacity + chunk_size - 1) / chunk_size - length a.chunks) a.chunks;
    }

    -- Pushback of an element; EmplaceBack does the same with a new object.
    unfoldable pub pushback : A → ChunkArray A → Outcome (ChunkArray A)
    unfolding put_cell
    pushback element a =
        let chunks =
          if leb (length a.chunks) (a.size / chunk_size)
          then a.chunks ++ fresh ∷ []
          else a.chunks in
        put_cell chunks a.size element >>= λ chunks'.
        ok (record { chunks = chunks'; size = a.size + 1 })

    -- The loop of the copy constructor over the `n` indices from `i` on.
    unfoldable pub copy_from : List (ℕ → A) → ℕ → ℕ → ChunkArray A → Outcome (ChunkArray A)
    unfolding cell pushback
    copy_from other zero i a = ok a
    copy_from other (suc n) i a =
        cell other i >>= λ element. pushback element a >>= copy_from other n (i + 1)

    -- `ChunkArray(other)`
    unfoldable pub copy : ChunkArray A → Outcome (ChunkArray A)
    unfolding copy_from reserve
    copy other = copy_from other.chunks other.size 0 (reserve other.size empty_array)

    -- `a = other` for another array.
    unfoldable pub assign : Bool → ChunkArray A → ChunkArray A → Outcome (ChunkArray A)
    unfolding copy_from reserve clear
    assign is_pod other a = (if a.size == 0 then ok a else clear is_pod a) >>= λ cleared.
        copy_from other.chunks other.size 0 (reserve other.size cleared)

    -- Overwrite of an array by another one.
    unfoldable pub overwrite : ChunkArray A → ℕ → ChunkArray A → Outcome (ChunkArray A)
    unfolding copy_cells reserve
    overwrite other where_index a =
        if ltb a.size where_index then throws index_out_of_bounds else do
          let required_size = where_index + other.size
          let grown =
              if ltb a.size required_size
              then reserve required_size (record a { size = required_size })
              else a
          chunks ← copy_cells other.chunks where_index other.size 0 grown.chunks
          ok (record grown { chunks = chunks })

    unfoldable pub overwrite_back : ChunkArray A → ChunkArray A → Outcome (ChunkArray A)
    unfolding overwrite copy_cells
    overwrite_back other a =
        if leb other.size a.size
        then (copy_cells other.chunks (a.size - other.size) other.size 0 a.chunks >>= λ chunks.
            ok (record a { chunks = chunks }))
        else overwrite other a.size a

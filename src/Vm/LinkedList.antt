-- ===== src/Vm/LinkedList.antt =====
-- LinkedList<T> of MSLVM/include/mslvm/vm_linked_list.hpp, the methods that the free list uses. The
-- chain of nodes from `front` to `back` is a list, and a node is its place in it.
use malachite_scripting_lang.Prelude.{
  ℕ, zero, suc, Bool, true, false, Option, none, some, List, [], ◌∷◌, ◌++◌, if◌then◌else◌,
}

module _ {ℓ} {T : Type ℓ} where
  abbrev pub push_front : T → List T → List T
  push_front data' xs = data' ∷ xs

  abbrev pub push_back : T → List T → List T
  push_back data' xs = xs ++ data' ∷ []

  unfoldable pub remove : ℕ → List T → List T
  remove i [] = []
  remove zero (x ∷ xs) = xs
  remove (suc i) (x ∷ xs) = x ∷ remove i xs

  -- The first node whose item passes the test; `none` is `nullptr`.
  unfoldable pub find_if : (T → Bool) → List T → Option ℕ
  find_if test [] = none
  find_if test (x ∷ xs) =
      let rest = find_if test xs in
      if test x then some 0 else elim rest [ none ↦ none | some i ↦ some (suc i) ]

  -- The search of insert_sorted behind the node that it stands at, then insert_after.
  unfoldable pub insert_behind : (T → T → Bool) → T → List T → List T
  insert_behind comparator new [] = new ∷ []
  insert_behind comparator new (x ∷ xs) =
      if comparator x new then x ∷ insert_behind comparator new xs else new ∷ x ∷ xs

  unfoldable pub insert_sorted : (T → T → Bool) → T → List T → List T
  unfolding insert_behind
  insert_sorted comparator new [] = push_front new []
  insert_sorted comparator new (x ∷ xs) =
      if comparator new x then push_front new (x ∷ xs) else x ∷ insert_behind comparator new xs

  -- The loop of coalesce at the node with item `x`, before the nodes of `xs`.
  unfoldable pub coalesce_from : (T → T → Bool) → (T → T → T) → T → List T → List T
  coalesce_from can_merge merge_func x [] = x ∷ []
  coalesce_from can_merge merge_func x (y ∷ ys) = elim (can_merge x y) [
    | true ↦ coalesce_from can_merge merge_func (merge_func x y) ys
    | false ↦ x ∷ coalesce_from can_merge merge_func y ys
  ]

  unfoldable pub coalesce : (T → T → Bool) → (T → T → T) → List T → List T
  unfolding coalesce_from
  coalesce can_merge merge_func [] = []
  coalesce can_merge merge_func (x ∷ xs) = coalesce_from can_merge merge_func x xs

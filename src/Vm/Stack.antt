-- ===== src/Vm/Stack.antt =====
-- MSLVM/include/mslvm/vm_stack.hpp: VMStack<T, MAX_SIZE>, an array with a top index. What lies
-- above the top stays in the array.
pub mod Laws
use malachite_scripting_lang.Prelude.{
  ℕ, zero, suc, ◌+◌, ◌-◌, Bool, List, [], ◌∷◌, leb, ◌==◌, ◌||◌, if◌then◌else◌,
}
use malachite_scripting_lang.Outcome.{
  Outcome, ok, throws, stack_overflow, stack_underflow, stack_empty, index_out_of_range,
}

pub record VmStack {ℓ} (T : Type ℓ) : Type ℓ where
  pub m_data : ℕ → T
  pub m_top : ℕ

module _ {ℓ} {T : Type ℓ} where
  abbrev pub write : (ℕ → T) → ℕ → T → ℕ → T
  write d i v = λ j. if j == i then v else d j

  unfoldable pub push : ℕ → T → VmStack T → Outcome (VmStack T)
  push max_size value s =
      if leb max_size s.m_top
      then throws stack_overflow
      else ok (record { m_data = write s.m_data s.m_top value; m_top = s.m_top + 1 })

  unfoldable pub pop : VmStack T → Outcome (T × VmStack T)
  pop s =
      if s.m_top == 0
      then throws stack_underflow
      else ok (s.m_data (s.m_top - 1), record s { m_top = s.m_top - 1 })

  unfoldable pub top : VmStack T → Outcome T
  top s = if s.m_top == 0 then throws stack_empty else ok (s.m_data (s.m_top - 1))

  -- An assignment through the reference that `top` returns.
  unfoldable pub set_top : T → VmStack T → Outcome (VmStack T)
  set_top value s =
      if s.m_top == 0
      then throws stack_empty
      else ok (record s { m_data = write s.m_data (s.m_top - 1) value })

  unfoldable pub size : VmStack T → ℕ
  size s = s.m_top

  unfoldable pub at : ℕ → VmStack T → Outcome T
  unfolding size
  at index s =
      if (s.m_top == 0) || leb (size s) index
      then throws index_out_of_range
      else ok (s.m_data index)

  unfoldable pub empty : VmStack T → Bool
  empty s = s.m_top == 0

  unfoldable pub clear : VmStack T → VmStack T
  clear s = record s { m_top = 0 }

  -- The items, the last pushed first.
  abbrev pub items : (ℕ → T) → ℕ → List T
  items d zero = []
  items d (suc n) = d n ∷ items d n

  abbrev pub contents : VmStack T → List T
  contents s = items s.m_data s.m_top

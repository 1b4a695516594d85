-- ===== src/Vm/Stack/Laws.antt =====
-- VMStack against a list of items: what each method does to the contents, errors included.
use malachite_scripting_lang.Prelude.{
  ℕ, zero, suc, ◌+◌, ◌-◌, ◌<◌, ◌≤◌, ◌≡◌, refl, ap, true, false, List, [], ◌∷◌, arith, length, leb,
  ◌==◌, if◌then◌else◌, ==_self, ne→==, inl, inr, Bool-cases,
}
use malachite_scripting_lang.Outcome.{
  Outcome, ok, throws, stack_overflow, stack_underflow, stack_empty, ◌>>=◌,
}
use malachite_scripting_lang.Vm.Stack.{VmStack, write, push, pop, set_top, items, contents}

module _ {ℓ} {T : Type ℓ} where
  -- A write at or above `n` is not seen below it.
  items-write : (d : ℕ → T) (n i : ℕ) (v : T) → n ≤ i → items (write d i v) n ≡ items d n
  items-write d zero i v h = refl
  items-write d (suc n) i v h =
      rw (ne→== n i (omega arith)) (ap (λ xs. d n ∷ xs) (items-write d n i v (omega arith)))

  -- The list version of each method.
  abbrev pub push_list : ℕ → T → List T → Outcome (List T)
  push_list max_size value xs =
      if leb max_size (length xs) then throws stack_overflow else ok (value ∷ xs)

  abbrev pub pop_list : List T → Outcome (T × List T)
  pop_list [] = throws stack_underflow
  pop_list (x ∷ xs) = ok (x, xs)

  abbrev pub set_top_list : T → List T → Outcome (List T)
  set_top_list value [] = throws stack_empty
  set_top_list value (x ∷ xs) = ok (value ∷ xs)

  pub length-items : (d : ℕ → T) (n : ℕ) → length (items d n) ≡ n
  length-items d zero = refl
  length-items d (suc n) = ap suc (length-items d n)

  -- The contents after a push are the item in front of the contents before it; a full stack throws.
  pub push-contents :
      (max_size : ℕ) (value : T) (s : VmStack T)
      → (push max_size value s >>= λ t. ok (contents t)) ≡ push_list max_size value (contents s)
  unfolding push
  push-contents max_size value s = elim (Bool-cases (leb max_size s.m_top)) [
    | inl full ↦ rw (length-items s.m_data s.m_top, full)
    | inr room ↦ rw (length-items s.m_data s.m_top, room) pushed
  ]
    where
      step : (n : ℕ) → items (write s.m_data n value) (n + 1) ≡ value ∷ items s.m_data n
      step n =
          let e : n + 1 ≡ suc n = omega arith in
          rw e
            (rw (==_self n) (ap (λ xs. value ∷ xs) (items-write s.m_data n n value (omega arith))))

      pushed : ok (items (write s.m_data s.m_top value) (s.m_top + 1)) ≡ ok (value ∷ contents s)
      pushed = ap ok (step s.m_top)

  pop-at :
      (d : ℕ → T) (n : ℕ)
      → (pop (record { m_data = d; m_top = n }) >>= λ r. ok (r.0, contents r.1))
        ≡ pop_list (items d n)
  unfolding pop
  pop-at d zero = refl
  pop-at d (suc n) =
      let e : suc n - 1 ≡ n = omega arith in rw (ne→== (suc n) 0 (omega arith), e) refl

  -- A pop returns the item in front and leaves the rest; an empty stack throws.
  pub pop-contents :
      (s : VmStack T) → (pop s >>= λ r. ok (r.0, contents r.1)) ≡ pop_list (contents s)
  pop-contents s = pop-at s.m_data s.m_top

  set_top-at :
      (d : ℕ → T) (n : ℕ) (value : T)
      → (set_top value (record { m_data = d; m_top = n }) >>= λ t. ok (contents t))
        ≡ set_top_list value (items d n)
  unfolding set_top
  set_top-at d zero value = refl
  set_top-at d (suc n) value =
      let e : (n == suc n - 1) ≡ true = ground arith in
      rw (ne→== (suc n) 0 (omega arith), e)
        (ap (λ xs. ok (value ∷ xs)) (items-write d n (suc n - 1) value (omega arith)))

  pub set_top-contents :
      (value : T) (s : VmStack T)
      → (set_top value s >>= λ t. ok (contents t)) ≡ set_top_list value (contents s)
  set_top-contents value s = set_top-at s.m_data s.m_top value

  -- What was pushed is popped, and the stack is as long as before.
  pub pop-push :
      (max_size : ℕ) (value : T) (s : VmStack T)
      → s.m_top < max_size
      → (push max_size value s >>= pop)
        ≡ ok (value, record { m_data = write s.m_data s.m_top value; m_top = s.m_top })
  unfolding push pop
  pop-push max_size value s h =
      let e : s.m_top + 1 - 1 ≡ s.m_top = omega arith in
      let room : leb max_size s.m_top ≡ false = ground arith in
      let some_left : (s.m_top + 1 == 0) ≡ false = ground arith in
      rw (room, some_left, e, ==_self s.m_top) refl

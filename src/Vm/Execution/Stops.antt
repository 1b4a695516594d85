-- ===== src/Vm/Execution/Stops.antt =====
-- What ends a run: HALT, and an error of the type Critical.
use malachite_scripting_lang.Prelude.{
  ℕ, zero, suc, ◌+◌, ◌-◌, ◌*◌, ◌^◌, ◌<◌, ◌≡◌, refl, ◌∙◌, true, false, not, ◌||◌, arith, ltb, leb,
  ◌==◌, Bool-cases, inl, inr, some, ==_self, lt→ltb,
}
use native.Mathlib.Nat.{one-le-pow, mul-suc}
use malachite_scripting_lang.Prelude.Bits.{test_bit, test_bit-or}
use malachite_scripting_lang.Outcome.{Outcome, ok, throws, undefined, ◌>>=◌, Returns}
use malachite_scripting_lang.Vm.Definitions.{
  VmOperation, VmOperationCode, error_stack_size, total_registers, div_rrr_integer,
}
use malachite_scripting_lang.Vm.SpecialRegister
use malachite_scripting_lang.Vm.Flag
use malachite_scripting_lang.Vm.Errors.{ErrorCode, error_type, no_error, zero_division}
use malachite_scripting_lang.Vm.Reals.{Reals}
use malachite_scripting_lang.Vm.Stack
use malachite_scripting_lang.Vm.Memory.{get_operation, get_operations_count}
use malachite_scripting_lang.Vm.State.{VmState, raise, set_flags, has_flags, is_critical}
use malachite_scripting_lang.Vm.State.Flags.{has_flags-single}
use malachite_scripting_lang.Vm.Instruction.Arithmetic.{rrr_div}
use malachite_scripting_lang.Vm.Instruction.Control
use malachite_scripting_lang.Vm.Execution.{
  finish_round, report_status, execute_operation, execute_round, execute_loop,
}

-- A flag after others were set.
pub has_flags-set_flags :
    (k mask : ℕ) (s : VmState)
    → has_flags (2 ^ k) (set_flags mask s) ≡ (not (test_bit k mask == 0) || has_flags (2 ^ k) s)
has_flags-set_flags k mask s =
    rw (has_flags-single k (set_flags mask s), has_flags-single k s, test_bit-or k fl mask)
      (positive (2 ^ k) (test_bit k fl) (test_bit k mask) (one-le-pow k 2 (omega arith)))
  where
    fl : ℕ
    fl = s.registers SpecialRegister.fl

    positive :
        (p a b : ℕ)
        → 0 < p
        → not (p * Prim.Native.Nat.max a b == 0) ≡ (not (b == 0) || not (p * a == 0))
    positive p a b h = rw (scaled p (Prim.Native.Nat.max a b) h, scaled p a h) (ground arith)
      where
        scaled : (q x : ℕ) → 0 < q → (q * x == 0) ≡ (x == 0)
        scaled q zero h = ground arith
        scaled q (suc n) h = let e : q * suc n ≡ q * n + q = mul-suc q n in ground (arith, e, h)

-- `s'` is `s` with one error more.
abbrev pub Recorded : ErrorCode → VmState → VmState → Type 0
Recorded e s s' =
    (Stack.top s'.error_stack
      ≡ ok (record {
        instruction_counter = s.registers SpecialRegister.ip;
        frame_fp = s.registers SpecialRegister.fp;
        frame_sp = s.registers SpecialRegister.sp;
        code = e;
        type = error_type e;
      }))
    × (has_flags Flag.stopped s' ≡ (is_critical (error_type e) || has_flags Flag.stopped s))
    × (has_flags Flag.jumped s' ≡ has_flags Flag.jumped s)
    × (s'.memory ≡ s.memory)
    × (s'.call_stack ≡ s.call_stack)

-- Raise, where the error stack has room: the new frame on top holds IP, FP, SP, the code and its
-- type; STOPPED is set if the type is Critical, and otherwise as it was; JUMPED, the memory and the
-- call stack are as they were.
pub raise-records :
    (e : ErrorCode) (s : VmState)
    → s.error_stack.m_top < error_stack_size
    → Returns (Recorded e s) (raise e s)
unfolding raise Stack.push Stack.top
raise-records e s room =
    let free : leb error_stack_size s.error_stack.m_top ≡ false = ground arith in
    let pushed : (s.error_stack.m_top + 1 == 0) ≡ false = ground arith in
    let back : s.error_stack.m_top + 1 - 1 ≡ s.error_stack.m_top = omega arith in
    elim (Bool-cases (is_critical (error_type e))) [
      | inl critical ↦
          rw (free, critical)
            (rw (pushed, back, ==_self s.error_stack.m_top)
              (refl, has_flags-set_flags 4 16 s, has_flags-set_flags 3 16 s, refl, refl))
      | inr mild ↦
          rw (free, mild)
            (rw (pushed, back, ==_self s.error_stack.m_top) (refl, refl, refl, refl, refl))
    ]

Returns-ok :
    {P : VmState → Type 0} {m : Outcome VmState} → Returns P m → (s : VmState) × (m ≡ ok s) × P s
Returns-ok {P = P} {m = m} r = of_cases m r
  where
    of_cases : (m : Outcome VmState) → Returns P m → (s : VmState) × (m ≡ ok s) × P s
    of_cases (ok s) p = (s, refl, p)
    of_cases (throws e) p = absurd p
    of_cases undefined p = absurd p

-- The machine is about to run `o`.
pub record IsAt (o : VmOperation) (s : VmState) : Type 0 where
  pub in_code : ltb (s.registers SpecialRegister.ip) (get_operations_count s.memory) ≡ true
  pub fetched : get_operation s.memory (s.registers SpecialRegister.ip) ≡ ok o
  pub not_jumped : has_flags Flag.jumped s ≡ false
  pub not_stopped : has_flags Flag.stopped s ≡ false
  pub no_status : s.memory.status ≡ no_error

module _ (reals : Reals) (o : VmOperation) (s : VmState) (at : IsAt o s) where
  execute_round-IsAt :
      execute_round reals s
      ≡ (execute_operation reals o.code o s >>= λ executed. ok (finish_round executed))
  unfolding execute_round report_status
  execute_round-IsAt = rw (at.not_jumped, at.no_status, at.not_stopped, at.fetched) refl

  -- An operation that leaves STOPPED set and JUMPED clear is the last one.
  last_operation :
      (fuel : ℕ) (s' : VmState)
      → execute_operation reals o.code o s ≡ ok s'
      → has_flags Flag.stopped s' ≡ true
      → has_flags Flag.jumped s' ≡ false
      → execute_loop reals (suc fuel) s ≡ ok (some s')
  unfolding execute_loop finish_round
  last_operation fuel s' done stopped stays =
      rw (at.in_code, execute_loop) (rw (execute_round-IsAt, done) (rw (stays, stopped) refl))

  -- From a state at HALT, with JUMPED and STOPPED clear and no error in the memory's status,
  -- the run ends in one round, with STOPPED set and nothing else changed.
  pub execute_loop-halt :
      (fuel : ℕ)
      → o.code ≡ VmOperationCode.halt
      → execute_loop reals (suc fuel) s ≡ ok (some (set_flags Flag.stopped s))
  unfolding execute_operation Control.halt
  execute_loop-halt fuel is_halt =
      last_operation fuel (set_flags Flag.stopped s) (rw is_halt refl) (has_flags-set_flags 4 16 s)
        (has_flags-set_flags 3 16 s ∙ at.not_jumped)

  -- From a state at DIV_RRR_INTEGER by a register that holds 0, with JUMPED and STOPPED clear
  -- and no error in the memory's status, the run ends in one round, with ZeroDivision on top of
  -- the error stack, if there is room for it.
  pub execute_loop-zero_division :
      (fuel : ℕ)
      → o.code ≡ div_rrr_integer
      → o.arg2 < total_registers
      → s.registers o.arg2 ≡ 0
      → s.error_stack.m_top < error_stack_size
      → (s' : VmState) × (execute_loop reals (suc fuel) s ≡ ok (some s'))
        × ((Stack.top s'.error_stack >>= λ frame. ok frame.code) ≡ ok zero_division)
  unfolding execute_operation rrr_div
  execute_loop-zero_division fuel is_div inside is_zero room =
      let (s', raised, (top, stops, stays, _, _)) =
        Returns-ok {P = Recorded zero_division s} (raise-records zero_division s room) in
      (
        s',
        last_operation fuel s' (rw is_div (rw (lt→ltb _ _ inside, is_zero) raised)) stops
            (stays ∙ at.not_jumped),
        rw top refl,
      )

-- ===== src/Vm/Execution/Rounds.antt =====
-- A round of the loop, and the loop: the layout of the memory never changes, and a program that
-- stops does so with any more rounds allowed.
use malachite_scripting_lang.Prelude.{
  ℕ, zero, suc, ◌+◌, ◌*◌, ◌≤◌, ◌≡◌, refl, ◌∙◌, Bool, true, false, arith, ltb, if◌then◌else◌,
  Bool-cases, inl, inr, ◌⊎◌, Option, none, some,
}
use malachite_scripting_lang.Outcome.{Outcome, ok, throws, undefined, ◌>>=◌, >>=-eq-ok}
use malachite_scripting_lang.Vm.Definitions.{call_stack_size, operation_size, u64, sub64}
use malachite_scripting_lang.Vm.SpecialRegister
use malachite_scripting_lang.Vm.Flag
use malachite_scripting_lang.Vm.Reals.{Reals}
use malachite_scripting_lang.Vm.Memory.{
  DynamicMemory, no_errors, get_operation, get_operations_count, read_loop, load,
}
use malachite_scripting_lang.Vm.State.{VmState, put, raise, clear_flags, has_flags}
use malachite_scripting_lang.Vm.Execution.{
  Turn, again, break, finish_round, report_status, execute_operation, execute_round, execute_loop,
}
use malachite_scripting_lang.Vm.Execution.Behaves.{
  Behaves, Follows, Quiet, Quiet-then, frame, Follows-refl, Follows-if, Follows-put, Behaves-then,
  Behaves-if,
}
use malachite_scripting_lang.Vm.Execution.Operations.{execute_operation-Behaves}
use malachite_scripting_lang.Vm.Execution.Operations.Memories.{load-Quiet, read_loop-Quiet}
use malachite_scripting_lang.Vm.Execution.Operations.Registers.{raises}

abbrev pub state_of : Turn → VmState
state_of (again s) = s
state_of (break s) = s

report_status-Behaves : (s : VmState) → Behaves 1 s (report_status s)
unfolding report_status
report_status-Behaves s = Behaves-if 1 s (no_errors s.memory.status) _ _ (Follows-refl 1 s) (
    Behaves-then 0 1 s (ok (put s SpecialRegister.ip (sub64 (s.registers SpecialRegister.ip) 1)))
      (λ t. raise s.memory.status t >>= λ raised.
        ok (put raised SpecialRegister.ip (u64 (raised.registers SpecialRegister.ip + 1))))
      (Follows-put 0 s s _ _ (Follows-refl 0 s))
      λ t.
        Behaves-then 1 0 t (raise s.memory.status t) _ (raises 0 s.memory.status t)
          λ u. Follows-put 0 u u _ _ (Follows-refl 0 u))

finish_round-Follows : (s : VmState) → Follows 0 s (state_of (finish_round s))
unfolding finish_round
finish_round-Follows s = elim (Bool-cases (has_flags Flag.jumped s)) [
  | inl jumped ↦ rw jumped (Follows-refl 0 s)
  | inr stays ↦ elim (Bool-cases (has_flags Flag.stopped s)) [
    | inl stopped ↦ rw (stays, stopped) (Follows-refl 0 s)
    | inr runs ↦ rw (stays, runs) (Follows-put 0 s s _ _ (Follows-refl 0 s))
  ]
]

get_operation-Quiet : (m : DynamicMemory) (index : ℕ) → Quiet (get_operation m index)
unfolding get_operation
get_operation-Quiet m index =
    let at = index * operation_size in
    Quiet-then (read_loop m at 8 0 0) _ (read_loop-Quiet m at 8 0 0) λ arg0.
      Quiet-then (read_loop m (at + 8) 8 0 0) _ (read_loop-Quiet m (at + 8) 8 0 0) λ arg1.
        Quiet-then (read_loop m (at + 16) 8 0 0) _ (read_loop-Quiet m (at + 16) 8 0 0) λ arg2.
          Quiet-then (read_loop m (at + 24) 4 0 0) _ (read_loop-Quiet m (at + 24) 4 0 0)
            λ dsi. Quiet-then (load m (at + 28)) _ (load-Quiet m (at + 28)) λ code. tt

-- The state that a round ends in.
abbrev final : Outcome Turn → Outcome VmState
final turn = turn >>= λ t. ok (state_of t)

final-then :
    (n k : ℕ) (s : VmState) (m : Outcome VmState) (f : VmState → Outcome Turn)
    → Behaves n s m
    → ((t : VmState) → Behaves k t (final (f t)))
    → Behaves (n + k) s (final (m >>= f))
final-then n k s (ok t) f b c = Behaves-then n k s (ok t) (λ u. final (f u)) b c
final-then n k s (throws e) f b c = omega (arith, b)
final-then n k s undefined f b c = tt

final-after {ℓ} :
    {A : Type ℓ} (n : ℕ) (s : VmState) (m : Outcome A) (f : A → Outcome Turn)
    → Quiet m
    → ((a : A) → Behaves n s (final (f a)))
    → Behaves n s (final (m >>= f))
final-after n s (ok a) f q b = b a
final-after n s (throws e) f q b = absurd q
final-after n s undefined f q b = tt

-- The condition of the loop.
abbrev in_code : VmState → Bool
in_code s = ltb (s.registers SpecialRegister.ip) (get_operations_count s.memory)

module _ (reals : Reals) where
  -- What is left of a round behind the report of the status.
  rest_of_round :
      (s : VmState)
      → Behaves 2 s (
          final (
            get_operation s.memory (s.registers SpecialRegister.ip) >>= λ operation.
            execute_operation reals operation.code operation s >>= λ executed.
            ok (finish_round executed)))
  rest_of_round s =
      final-after 2 s (get_operation s.memory (s.registers SpecialRegister.ip)) _
        (get_operation-Quiet _ _)
        λ operation.
          final-then 2 0 s (execute_operation reals operation.code operation s) _
            (execute_operation-Behaves reals s operation operation.code) finish_round-Follows

  -- A round adds at most three errors, and is bound as its operation is.
  pub execute_round-Behaves : (s : VmState) → Behaves 3 s (final (execute_round reals s))
  unfolding execute_round
  execute_round-Behaves s =
      final-then 1 2 s (report_status landed) _ reported λ t. either t (has_flags Flag.stopped t)
    where
      landed : VmState
      landed = if has_flags Flag.jumped s then clear_flags Flag.jumped s else s

      reported : Behaves 1 s (report_status landed)
      reported =
          Behaves-then 0 1 s (ok landed) report_status
            (Follows-if 0 s (has_flags Flag.jumped s) _ _ (Follows-put 0 s s _ _ (Follows-refl 0 s))
              (Follows-refl 0 s))
            report_status-Behaves

      either :
          (t : VmState) (b : Bool)
          → Behaves 2 t (
              final (
                if b
                then ok (break t)
                else (get_operation t.memory (t.registers SpecialRegister.ip) >>= λ operation.
                    execute_operation reals operation.code operation t >>= λ executed.
                    ok (finish_round executed))))
      either t true = Follows-refl 2 t
      either t false = rest_of_round t

  -- What the loop does after a round.
  abbrev go_on : ℕ → Turn → Outcome (Option VmState)
  go_on fuel (again s) = execute_loop reals fuel s
  go_on fuel (break s) = ok (some s)

  -- The loop is over, or a round was run.
  execute_loop-step :
      (fuel : ℕ) (s s' : VmState)
      → execute_loop reals (suc fuel) s ≡ ok (some s')
      → (s ≡ s') × (in_code s ≡ false)
        ⊎ (turn : Turn) × (in_code s ≡ true)
          × (execute_round reals s ≡ ok turn)
          × (go_on fuel turn ≡ ok (some s'))
  unfolding execute_loop
  execute_loop-step fuel s s' e = elim (Bool-cases (in_code s)) [
    | inl runs ↦
        let (turn, ran, went) =
          >>=-eq-ok (execute_round reals s) _ (rw (runs, execute_loop) at e) in
        inr (turn, runs, ran, same turn went)
    | inr over ↦ inl (the_state (rw (over, execute_loop) at e), over)
  ]
    where
      the_state : ok (some s) ≡ ok (some s') → s ≡ s'
      the_state p = cc

      same :
          (turn : Turn)
          → elim turn [ again t ↦ execute_loop reals fuel t | break t ↦ ok (some t) ] ≡ ok (some s')
          → go_on fuel turn ≡ ok (some s')
      same (again t) p = p
      same (break t) p = p

  execute_loop-over :
      (s s' : VmState) → execute_loop reals zero s ≡ ok (some s') → (s ≡ s') × (in_code s ≡ false)
  unfolding execute_loop
  execute_loop-over s s' e = elim (Bool-cases (in_code s)) [
    | inl runs ↦ absurd (running (rw runs at e))
    | inr over ↦ (the_state (rw over at e), over)
  ]
    where
      the_state : ok (some s) ≡ ok (some s') → s ≡ s'
      the_state p = cc

      running : ok none ≡ ok (some s') → ⊥
      running p = cc

  -- What the memory and the call stack of two states have in common.
  abbrev Kept : VmState → VmState → Type 0
  Kept s s' =
      (frame s'.memory ≡ frame s.memory)
      × (s.call_stack.m_top ≤ call_stack_size → s'.call_stack.m_top ≤ call_stack_size)

  round-Kept :
      (s : VmState) (turn : Turn) → execute_round reals s ≡ ok turn → Kept s (state_of turn)
  round-Kept s turn e =
      let f : Follows 3 s (state_of turn) = (rw e at (execute_round-Behaves s)) in
      (f.same_frame, f.calls)

  Kept-of-eq : (s s' : VmState) → s ≡ s' → Kept s s'
  Kept-of-eq s s' e = rw e (refl, λ h. h)

  -- A run that ends, after any number of rounds, has the memory laid out as at the beginning, and
  -- no more than 256 frames on the call stack if there were no more at the beginning.
  pub execute_loop-keeps :
      (fuel : ℕ) (s s' : VmState) → execute_loop reals fuel s ≡ ok (some s') → Kept s s'
  execute_loop-keeps zero s s' e = Kept-of-eq s s' (execute_loop-over s s' e).0
  execute_loop-keeps (suc fuel) s s' e = elim (execute_loop-step fuel s s' e) [
    | inl (same, over) ↦ Kept-of-eq s s' same
    | inr (turn, runs, ran, went) ↦
        onwards turn (round-Kept s turn ran) went (λ t went'. execute_loop-keeps fuel t s' went')
  ]
    where
      onwards :
          (turn : Turn)
          → Kept s (state_of turn)
          → go_on fuel turn ≡ ok (some s')
          → ((t : VmState) → execute_loop reals fuel t ≡ ok (some s') → Kept t s')
          → Kept s s'
      onwards (again t) k went keeps =
          let rest = keeps t went in (rest.0 ∙ k.0, λ h. rest.1 (k.1 h))
      onwards (break t) k went keeps = rw (the_state went) at k
        where
          the_state : ok (some t) ≡ ok (some s') → t ≡ s'
          the_state p = cc

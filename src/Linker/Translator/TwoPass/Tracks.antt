-- ===== src/Linker/Translator/TwoPass/Tracks.antt =====
-- What holds of the progress between two commands.
use malachite_scripting_lang.Prelude.{
  ℕ, suc, ◌<◌, ◌≤◌, ◌≡◌, refl, inl, arith, Bool, true, false, ◌||◌, ◌==◌, some, List, [], ◌∷◌,
  length, All, ==_self,
}
use malachite_scripting_lang.Vm.Definitions.{VmOperation}
use malachite_scripting_lang.Linker.Definitions.{LinkingState}
use malachite_scripting_lang.Linker.Translator.Emission.{Progress}
use malachite_scripting_lang.Linker.Translator.Flow.{find, waiting}
use malachite_scripting_lang.Linker.Translator.TwoPass.Agreement.{Agrees, Each}
use malachite_scripting_lang.Linker.Translator.TwoPass.Patches.{member}

-- The tables that arguments are resolved by.
abbrev pub SameTables : LinkingState → LinkingState → Type 0
SameTables origin state =
    (state.symbols ≡ origin.symbols)
    × (state.constants ≡ origin.constants)
    × (state.stack_offset_of_module ≡ origin.stack_offset_of_module)

-- The progress of a translation of which the operations so far are described.
pub record Tracks (target : ℕ → ℕ) (origin : LinkingState) (p : Progress)
    (described : List VmOperation) : Type 0 where
  pub agree :
      Each
        (Agrees target (λ id k. member k (waiting id p.state.except_handling_jmps)))
        0
        p.result
        described
  pub in_range :
      (id k : ℕ) → member k (waiting id p.state.except_handling_jmps) ≡ true → k < length p.result
  pub labels : (id ip : ℕ) → find id p.state.label_jmp_ip ≡ some ip → target id ≡ ip
  pub same_tables : SameTables origin p.state

-- A list that is as described, and of which nothing waits.
pub Each-same :
    (target : ℕ → ℕ) (waits : ℕ → ℕ → Bool) (n : ℕ) (os : List VmOperation)
    → ((id k : ℕ) → n ≤ k → waits id k ≡ false)
    → Each (Agrees target waits) n os os
Each-same target waits n [] idle = tt
Each-same target waits n (o ∷ os) idle = (
  record {
    but_for_target = refl;
    expected = λ id w. cc (w, idle id n (omega arith));
    settled = inl refl;
  },
  Each-same target waits (suc n) os (λ id k le. idle id k (omega arith)),
)

pub All-member :
    (n : ℕ) (ips : List ℕ) → ((k : ℕ) → member k ips ≡ true → k < n) → All (λ (ip : ℕ). ip < n) ips
All-member n [] h = tt
All-member n (ip ∷ ips) h =
    (h ip (rw (==_self ip) refl), All-member n ips (λ k m. h k (rw m (or_true (ip == k)))))
  where
    or_true : (b : Bool) → (b || true) ≡ true
    or_true true = refl
    or_true false = refl

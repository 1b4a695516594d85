-- ===== src/Linker/Translator/TwoPass/Patches.antt =====
-- What the patching of the waiting jumps does to the operations.
use malachite_scripting_lang.Prelude.{
  ℕ, zero, suc, ◌+◌, ◌<◌, ◌≤◌, ◌≡◌, refl, ap, ◌∙◌, arith, Bool, true, false, ◌||◌, ◌==◌, List, [],
  ◌∷◌, ◌++◌, length, All, if◌then◌else◌,
}
use malachite_scripting_lang.Outcome.{ok}
use malachite_scripting_lang.Vm.Definitions.{VmOperation}
use malachite_scripting_lang.Linker.Translator.Flow.{set_arg0, patch}
use malachite_scripting_lang.Linker.Translator.TwoPass.Agreement.{aimed, walk, length-walk}

abbrev pub member : ℕ → List ℕ → Bool
member k [] = false
member k (x ∷ xs) = (x == k) || member k xs

pub member-append : (k : ℕ) (xs ys : List ℕ) → member k (xs ++ ys) ≡ (member k xs || member k ys)
member-append k [] ys = refl
member-append k (x ∷ xs) ys =
    ap (λ (b : Bool). (x == k) || b) (member-append k xs ys) ∙ assoc (x == k) _ _
  where
    assoc : (a b c : Bool) → (a || (b || c)) ≡ ((a || b) || c)
    assoc true b c = refl
    assoc false b c = refl

-- The operation at `k`, if it is one of those to be aimed.
abbrev pub aim_if : ℕ → Bool → VmOperation → VmOperation
aim_if target chosen o = if chosen then aimed o target else o

abbrev pub aim_members : List ℕ → ℕ → ℕ → VmOperation → VmOperation
aim_members ips target k o = aim_if target (member k ips) o

module _ (f g : ℕ → VmOperation → VmOperation) where
  walk-ext :
      (n : ℕ) (os : List VmOperation)
      → ((k : ℕ) (o : VmOperation) → n ≤ k → f k o ≡ g k o)
      → walk f n os ≡ walk g n os
  walk-ext n [] same = refl
  walk-ext n (o ∷ os) same =
      rw (same n o (omega arith), walk-ext (suc n) os (λ k a le. same k a (omega arith))) refl

  walk-walk :
      (n : ℕ) (os : List VmOperation) → walk f n (walk g n os) ≡ walk (λ k o. f k (g k o)) n os
  walk-walk n [] = refl
  walk-walk n (o ∷ os) = ap (λ (xs : List VmOperation). f n (g n o) ∷ xs) (walk-walk (suc n) os)

walk_id : (n : ℕ) (os : List VmOperation) → walk (λ k o. o) n os ≡ os
walk_id n [] = refl
walk_id n (o ∷ os) = ap (λ (xs : List VmOperation). o ∷ xs) (walk_id (suc n) os)

set_arg0-walk :
    (ip target n : ℕ) (os : List VmOperation)
    → ip < length os
    → set_arg0 ip target os ≡ ok (walk (λ k o. aim_if target (n + ip == k) o) n os)
unfolding set_arg0
set_arg0-walk ip target n [] lt = ground arith
set_arg0-walk zero target n (o ∷ os) lt =
    rw
      (
        here,
        walk-ext (λ k a. aim_if target (n + 0 == k) a) (λ k a. a) (suc n) os beyond,
        walk_id (suc n) os,
      )
      refl
  where
    here : (n + 0 == n) ≡ true
    here = ground arith

    beyond : (k : ℕ) (a : VmOperation) → suc n ≤ k → aim_if target (n + 0 == k) a ≡ a
    beyond k a le = let e : (n + 0 == k) ≡ false = ground arith in rw e refl
set_arg0-walk (suc ip) target n (o ∷ os) lt =
    let here : (n + suc ip == n) ≡ false = ground arith in
    rw
      (
        set_arg0-walk ip target (suc n) os (omega arith),
        here,
        walk-ext (λ k a. aim_if target (suc n + ip == k) a)
            (λ k a. aim_if target (n + suc ip == k) a) (suc n) os shifted,
      )
      refl
  where
    shifted :
        (k : ℕ) (a : VmOperation)
        → suc n ≤ k
        → aim_if target (suc n + ip == k) a ≡ aim_if target (n + suc ip == k) a
    shifted k a le =
        let same : suc n + ip ≡ n + suc ip = omega arith in
        ap (λ (m : ℕ). aim_if target (m == k) a) same

-- Every jump in the list is aimed at the target, and nothing else changes.
pub patch-walk :
    (ips : List ℕ) (target : ℕ) (os : List VmOperation)
    → All (λ (ip : ℕ). ip < length os) ips
    → patch ips target os ≡ ok (walk (aim_members ips target) 0 os)
unfolding patch
patch-walk [] target os bound = rw (walk_id 0 os) refl
patch-walk (ip ∷ ips) target os (lt, bound) =
    rw
      (
        set_arg0-walk ip target 0 os lt,
        patch-walk ips target os' (rw (length-walk _ 0 os) bound),
        walk-walk (aim_members ips target) (λ k o. aim_if target (0 + ip == k) o) 0 os,
        walk-ext _ (aim_members (ip ∷ ips) target) 0 os twice,
      )
      refl
  where
    os' : List VmOperation
    os' = walk (λ k o. aim_if target (0 + ip == k) o) 0 os

    twice :
        (k : ℕ) (o : VmOperation)
        → 0 ≤ k
        → aim_if target (member k ips) (aim_if target (0 + ip == k) o)
          ≡ aim_if target ((ip == k) || member k ips) o
    twice k o le = let same : 0 + ip ≡ ip = omega arith in rw same (by (ip == k) (member k ips))
      where
        by : (a b : Bool) → aim_if target b (aim_if target a o) ≡ aim_if target (a || b) o
        by true true = refl
        by true false = refl
        by false true = refl
        by false false = refl

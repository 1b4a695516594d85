-- ===== src/Linker/Translator/TwoPass/Agreement.antt =====
-- When a translation in progress agrees with the description: its operations are those described,
-- but for the targets of the jumps that wait.
use malachite_scripting_lang.Prelude.{
  ℕ, suc, ◌+◌, ◌<◌, ◌≤◌, ◌≡◌, refl, ap, ◌⊎◌, inl, inr, arith, Bool, true, false, List, [], ◌∷◌,
  ◌++◌, length,
}
use malachite_scripting_lang.Vm.Definitions.{VmOperation}

-- `record o { arg0 = target }`
abbrev pub aimed : VmOperation → ℕ → VmOperation
aimed o target = record o { arg0 = target }

-- Operation `k` is `o` and is described as `r`; `waits id k` says whether it waits for label `id`.
pub record Agrees (target : ℕ → ℕ) (waits : ℕ → ℕ → Bool) (k : ℕ) (o r : VmOperation) : Type 0 where
  pub but_for_target : aimed o r.arg0 ≡ r
  pub expected : (id : ℕ) → waits id k ≡ true → target id ≡ r.arg0
  pub settled : (o ≡ r) ⊎ ((id : ℕ) × (waits id k ≡ true))

-- A relation between the elements of two lists, which begin at index `n`.
abbrev pub Each :
    (ℕ → VmOperation → VmOperation → Type 0) → ℕ → List VmOperation → List VmOperation → Type 0
Each R n [] [] = Unit
Each R n [] (r ∷ rs) = ⊥
Each R n (o ∷ os) [] = ⊥
Each R n (o ∷ os) (r ∷ rs) = R n o r × Each R (suc n) os rs

-- A step on each element, which may depend on its index.
abbrev pub walk : (ℕ → VmOperation → VmOperation) → ℕ → List VmOperation → List VmOperation
walk f n [] = []
walk f n (o ∷ os) = f n o ∷ walk f (suc n) os

pub Each-append :
    (R : ℕ → VmOperation → VmOperation → Type 0) (n : ℕ) (os rs os' rs' : List VmOperation)
    → Each R n os rs
    → Each R (n + length os) os' rs'
    → Each R n (os ++ os') (rs ++ rs')
Each-append R n [] [] os' rs' h h' = rw (plus n) at h'
  where
    plus : (m : ℕ) → m + 0 ≡ m
    plus m = omega arith
Each-append R n (o ∷ os) (r ∷ rs) os' rs' (first, rest) h' =
    (first, Each-append R (suc n) os rs os' rs' rest (rw (plus n (length os)) at h'))
  where
    plus : (m l : ℕ) → m + suc l ≡ suc m + l
    plus m l = omega arith
Each-append R n [] (r ∷ rs) os' rs' h h' = elim h [ ]
Each-append R n (o ∷ os) [] os' rs' h h' = elim h [ ]

pub Each-walk :
    (R S : ℕ → VmOperation → VmOperation → Type 0) (f : ℕ → VmOperation → VmOperation) (n : ℕ)
    (os rs : List VmOperation)
    → ((k : ℕ) (o r : VmOperation) → n ≤ k → k < n + length os → R k o r → S k (f k o) r)
    → Each R n os rs
    → Each S n (walk f n os) rs
Each-walk R S f n [] [] step h = tt
Each-walk R S f n (o ∷ os) (r ∷ rs) step (first, rest) = (
  step n o r (omega arith) (omega arith) first,
  Each-walk R S f (suc n) os rs (λ k a b lo hi. step k a b (omega arith) (omega arith)) rest,
)
Each-walk R S f n [] (r ∷ rs) step h = elim h [ ]
Each-walk R S f n (o ∷ os) [] step h = elim h [ ]

pub Each-map :
    (R S : ℕ → VmOperation → VmOperation → Type 0) (n : ℕ) (os rs : List VmOperation)
    → ((k : ℕ) (o r : VmOperation) → n ≤ k → k < n + length os → R k o r → S k o r)
    → Each R n os rs
    → Each S n os rs
Each-map R S n os rs step h = rw (walk-same n os) at (Each-walk R S (λ k o. o) n os rs step h)
  where
    walk-same : (m : ℕ) (xs : List VmOperation) → walk (λ k o. o) m xs ≡ xs
    walk-same m [] = refl
    walk-same m (x ∷ xs) = ap (λ (ys : List VmOperation). x ∷ ys) (walk-same (suc m) xs)

pub Each-length :
    (R : ℕ → VmOperation → VmOperation → Type 0) (n : ℕ) (os rs : List VmOperation)
    → Each R n os rs
    → length os ≡ length rs
Each-length R n [] [] h = refl
Each-length R n (o ∷ os) (r ∷ rs) (first, rest) = omega (arith, Each-length R (suc n) os rs rest)
Each-length R n [] (r ∷ rs) h = elim h [ ]
Each-length R n (o ∷ os) [] h = elim h [ ]

pub length-walk :
    (f : ℕ → VmOperation → VmOperation) (n : ℕ) (os : List VmOperation)
    → length (walk f n os) ≡ length os
length-walk f n [] = refl
length-walk f n (o ∷ os) = omega (arith, length-walk f (suc n) os)

-- Where no jump waits, the operations are those described.
pub Agrees-settled :
    (target : ℕ → ℕ) (waits : ℕ → ℕ → Bool) (n : ℕ) (os rs : List VmOperation)
    → ((id k : ℕ) → waits id k ≡ false)
    → Each (Agrees target waits) n os rs
    → os ≡ rs
Agrees-settled target waits n [] [] idle h = refl
Agrees-settled target waits n (o ∷ os) (r ∷ rs) idle (first, rest) = elim first.settled [
  | inl same ↦ rw (same, Agrees-settled target waits (suc n) os rs idle rest) refl
  | inr (id, waiting) ↦ cc (waiting, idle id n)
]
Agrees-settled target waits n [] (r ∷ rs) idle h = elim h [ ]
Agrees-settled target waits n (o ∷ os) [] idle h = elim h [ ]

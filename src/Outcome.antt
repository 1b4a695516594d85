-- ===== src/Outcome.antt =====
-- What a piece of the C++ code does: it returns, it throws (`std::runtime_error` of vm_stack.hpp),
-- or the standard gives it no meaning (an index out of an array, a signed overflow, ...).
use malachite_scripting_lang.Prelude.{◌≡◌, refl, Option, none, some}

-- One constructor for each message that VMStack throws, and for the two of ChunkArray.
pub data VmException : Type 0 where
  stack_overflow stack_underflow stack_empty index_out_of_range : VmException
  index_out_of_bounds chunk_array_empty : VmException

pub data Outcome {ℓ} (A : Type ℓ) : Type ℓ where
  ok : A → Outcome A
  throws : VmException → Outcome A
  undefined : Outcome A

infixl 5 ◌>>=◌
abbrev pub ◌>>=◌ {ℓ κ} : {A : Type ℓ} {B : Type κ} → Outcome A → (A → Outcome B) → Outcome B
ok a >>= f = f a
throws e >>= f = throws e
undefined >>= f = undefined

-- A value that the standard defines only in some cases.
abbrev pub defined {ℓ} : {A : Type ℓ} → Option A → Outcome A
defined none = undefined
defined (some a) = ok a

-- Inversion of a bind that returned.
pub >>=-eq-ok {ℓ κ} :
    {X : Type ℓ} {Y : Type κ} {y : Y} (first : Outcome X) (rest : X → Outcome Y)
    → (first >>= rest) ≡ ok y
    → (x : X) × (first ≡ ok x) × (rest x ≡ ok y)
>>=-eq-ok (throws e) rest returned = cc
>>=-eq-ok undefined rest returned = cc
>>=-eq-ok (ok x) rest returned = (x, refl, returned)

-- `P` holds of what is returned, if anything is.
abbrev pub Returned {ℓ κ} : {A : Type ℓ} → (A → Type κ) → Outcome A → Type κ
Returned P (ok a) = P a
Returned P (throws e) = Unit
Returned P undefined = Unit

-- The code returns, and `P` holds of what it returns.
abbrev pub Returns {ℓ} : {A : Type ℓ} → (A → Type 0) → Outcome A → Type 0
Returns P (ok a) = P a
Returns P (throws e) = ⊥
Returns P undefined = ⊥

-- What follows a piece of which `P` holds.
pub Returns-bind {ℓ κ} :
    {A : Type ℓ} {B : Type κ} (P : A → Type 0) (R : B → Type 0) (m : Outcome A) (f : A → Outcome B)
    → Returns P m
    → ((a : A) → P a → Returns R (f a))
    → Returns R (m >>= f)
Returns-bind P R (ok a) f p h = h a p
Returns-bind P R (throws e) f p h = elim p [ ]
Returns-bind P R undefined f p h = elim p [ ]

pub Returns-mono {ℓ} :
    {A : Type ℓ} (P Q : A → Type 0) (m : Outcome A)
    → ((a : A) → P a → Q a)
    → Returns P m
    → Returns Q m
Returns-mono P Q (ok a) weaken p = weaken a p
Returns-mono P Q (throws e) weaken p = elim p [ ]
Returns-mono P Q undefined weaken p = elim p [ ]

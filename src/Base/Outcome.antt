-- ===== src/Base/Outcome.antt =====
-- What a C++ call can do here: return, or stop the process by a fault.
-- `null_pointer` is a read or write through NULL, `out_of_range` an index that `at` or an array
-- does not have, `no_progress` a loop that never ends, and `assertion` an ASSERT that fails.
use mathlib.Core.Path.{◌≡◌, refl}
use mathlib.Core.Bool.{Bool, true, false}

pub data Fault : Type 0 where
  null_pointer out_of_range no_progress assertion : Fault

pub data Result {ℓ} (A : Type ℓ) : Type ℓ where
  ok : A → Result A
  fault : Fault → Result A

infixl 5 ◌>>=◌
abbrev pub ◌>>=◌ {ℓ κ} : {A : Type ℓ} {B : Type κ} → Result A → (A → Result B) → Result B
ok a >>= f = f a
fault e >>= f = fault e

-- ASSERT
abbrev pub assert : Bool → Result (Unit {0})
assert true = ok tt
assert false = fault assertion

-- No value, at any level.
pub data Never {κ} : Type κ where

-- The call returns, and its result satisfies `P`.
abbrev pub Ensures {ℓ κ} : {A : Type ℓ} → (A → Type κ) → Result A → Type κ
Ensures P (ok a) = P a
Ensures P (fault e) = Never

-- If the call returns, its result satisfies `P`.
abbrev pub IfOk {ℓ κ} : {A : Type ℓ} → (A → Type κ) → Result A → Type κ
IfOk P (ok a) = P a
IfOk P (fault e) = Unit

module _ {ℓ κ μ ν} {A : Type ℓ} {B : Type κ} (P : A → Type μ) (Q : B → Type ν) where
  pub Ensures-bind :
      (m : Result A) (f : A → Result B)
      → Ensures P m
      → ((a : A) → P a → Ensures Q (f a))
      → Ensures Q (m >>= f)
  Ensures-bind (ok a) f h k = k a h
  Ensures-bind (fault e) f h k = elim h [ ]

  pub IfOk-bind :
      (m : Result A) (f : A → Result B)
      → IfOk P m
      → ((a : A) → P a → IfOk Q (f a))
      → IfOk Q (m >>= f)
  IfOk-bind (ok a) f h k = k a h
  IfOk-bind (fault e) f h k = tt

module _ {ℓ κ μ} {A : Type ℓ} (P : A → Type κ) (Q : A → Type μ) where
  pub Ensures-both : (m : Result A) → Ensures P m → IfOk Q m → Ensures (λ a. P a × Q a) m
  Ensures-both (ok a) h k = (h, k)
  Ensures-both (fault e) h k = elim h [ ]

  pub Ensures-weaken : (m : Result A) → Ensures P m → ((a : A) → P a → Q a) → Ensures Q m
  Ensures-weaken (ok a) h k = k a h
  Ensures-weaken (fault e) h k = elim h [ ]

  pub IfOk-weaken : (m : Result A) → IfOk P m → ((a : A) → P a → Q a) → IfOk Q m
  IfOk-weaken (ok a) h k = k a h
  IfOk-weaken (fault e) h k = tt

pub bind_assoc {ℓ κ μ} :
    {A : Type ℓ} {B : Type κ} {C : Type μ} (m : Result A) (f : A → Result B) (g : B → Result C)
    → ((m >>= f) >>= g) ≡ (m >>= λ a. f a >>= g)
bind_assoc (ok a) f g = refl
bind_assoc (fault e) f g = refl

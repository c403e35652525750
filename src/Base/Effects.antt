-- ===== src/Base/Effects.antt =====
-- How calls end. `Outcome` is for code that only computes: `undefined` is undefined behaviour (an
-- access out of bounds, a read of memory that is not initialised). `Exit` is for code with a state:
-- a panic leaves the state as it was when the panic began, `blocked` waits for another thread, and
-- `exhausted` is a loop that ran out of the model's fuel.

pub data Outcome {ℓ} (A : Type ℓ) : Type ℓ where
  done : A → Outcome A
  undefined : Outcome A

infixl 5 ◌>>=◌
abbrev pub ◌>>=◌ {ℓ κ} : {A : Type ℓ} {B : Type κ} → Outcome A → (A → Outcome B) → Outcome B
done a >>= f = f a
undefined >>= f = undefined

pub data Exit {ℓ κ} (S : Type ℓ) (A : Type κ) : Type (ℓ ⊔ κ) where
  returned : A → S → Exit S A
  panicked : S → Exit S A
  blocked exhausted faulted : Exit S A

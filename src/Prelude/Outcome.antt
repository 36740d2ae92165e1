-- ===== src/Prelude/Outcome.antt =====
-- How a call ends: with a value, in `exit`, or where C gives it no meaning (a read of a null
-- pointer or of a cell that was not written, a write out of bounds, a failed assertion).

pub data Outcome {ℓ} (A : Type ℓ) : Type ℓ where
  value : A → Outcome A
  exited : Outcome A
  undefined : Outcome A

infixl 5 ◌>>=◌
abbrev pub ◌>>=◌ {ℓ κ} : {A : Type ℓ} {B : Type κ} → Outcome A → (A → Outcome B) → Outcome B
value a >>= f = f a
exited >>= f = exited
undefined >>= f = undefined

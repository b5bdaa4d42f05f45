-- ===== src/Prelude/Outcome.antt =====
-- Fallible code: Go's pair of a value and an error, of which a caller reads the value only if
-- the error is nil.
pub data Outcome {ℓ} (E A : Type ℓ) : Type ℓ where
  ok : A → Outcome E A
  err : E → Outcome E A

infixl 5 ◌>>=◌ ◌>>◌
abbrev pub ◌>>=◌ {ℓ} : {E A B : Type ℓ} → Outcome E A → (A → Outcome E B) → Outcome E B
ok a >>= f = f a
err e >>= f = err e

abbrev pub ◌>>◌ {ℓ} : {E B : Type ℓ} → Outcome E (Unit {ℓ}) → Outcome E B → Outcome E B
m >> k = m >>= λ _. k

-- ===== src/Prelude/Integers.antt =====
-- A `time.Duration` or another signed number: 0 and above, or `negsuc n` for -(n + 1).
use Prim.Native.Nat.{ℕ, suc, ◌-◌, ◌/◌}
use mathlib.Core.Bool.{Bool, true, false, not}
use cert_vault.Prelude.Tests.{ltb, eqb, if◌then◌else◌}

pub data ℤ : Type 0 where
  pos : ℕ → ℤ
  negsuc : ℕ → ℤ

abbrev pub is_negative : ℤ → Bool
is_negative (pos n) = false
is_negative (negsuc n) = true

abbrev pub is_zero : ℤ → Bool
is_zero (pos n) = not (ltb 0 n)
is_zero (negsuc n) = false

-- the integer part, towards zero
abbrev pub quotient : ℤ → ℕ → ℤ
quotient (pos n) d = pos (n / d)
quotient (negsuc n) d = if eqb (suc n / d) 0 then pos 0 else negsuc (suc n / d - 1)

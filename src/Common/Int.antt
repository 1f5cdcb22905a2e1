-- ===== src/Common/Int.antt =====
-- Go's `int` as a signed integer, with what the program does to it: one more, one less, and tests
-- for equality. The source's counters move by one at a time, so that the wrap-around at 2^63 is
-- out of reach of any run and is left out.
use Prim.Native.Nat.{ℕ, zero, suc, ◌+◌}
use mathlib.Core.Path.{◌≡◌, refl}
use mathlib.Core.Logic.{◌↔◌}
use mathlib.Core.Bool.{Bool, true, false}
use native.Mathlib.Omega.{arith}
use deployment_manager.Common.Tests.{◌==◌}

-- `negsuc n` is -(n + 1).
pub data ℤ : Type 0 where
  pos : ℕ → ℤ
  negsuc : ℕ → ℤ

-- i + 1
unfoldable pub inc : ℤ → ℤ
inc (pos n) = pos (n + 1)
inc (negsuc zero) = pos 0
inc (negsuc (suc n)) = negsuc n

-- i - 1
unfoldable pub dec : ℤ → ℤ
dec (pos zero) = negsuc 0
dec (pos (suc n)) = pos n
dec (negsuc n) = negsuc (n + 1)

-- i == j
abbrev pub eq_ℤ : ℤ → ℤ → Bool
eq_ℤ (pos m) (pos n) = m == n
eq_ℤ (negsuc m) (negsuc n) = m == n
eq_ℤ (pos m) (negsuc n) = false
eq_ℤ (negsuc m) (pos n) = false

pub inc-pos : (n : ℕ) → inc (pos n) ≡ pos (n + 1)
unfolding inc
inc-pos n = refl

pub dec-pos : (n : ℕ) → dec (pos (suc n)) ≡ pos n
unfolding dec
dec-pos n = refl

pub dec-pos_of_eq : (n m : ℕ) → n ≡ m + 1 → dec (pos n) ≡ pos m
unfolding dec
dec-pos_of_eq zero m h = absurd (omega arith)
dec-pos_of_eq (suc n) m h = ground arith

pub eq_ℤ_iff : (i j : ℤ) → (eq_ℤ i j ≡ true) ↔ (i ≡ j)
eq_ℤ_iff (pos m) (pos n) = ground arith
eq_ℤ_iff (negsuc m) (negsuc n) = ground arith
eq_ℤ_iff (pos m) (negsuc n) = ground arith
eq_ℤ_iff (negsuc m) (pos n) = ground arith

-- ===== src/Prelude/Int.antt =====
-- Integers, as far as the differences of counts need them.
use Prim.Native.Nat.{ℕ, ◌+◌, ◌-◌}
use mathlib.Core.Path.{◌≡◌}
use mathlib.Core.Logic.{inl, inr}
use mathlib.Core.Bool.{Bool, false}
use native.Mathlib.Omega.{arith}
use pytvt.Prelude.Tests.{leb, ◌==◌, if◌then◌else◌, Bool-cases}

pub data ℤ : Type 0 where
  pos negsuc : ℕ → ℤ

-- The difference of two numbers.
pub minus : ℕ → ℕ → ℤ
minus m n = if leb n m then pos (m - n) else negsuc (n - m - 1)

-- The difference `(a - b) - (c - d)` of two differences.
unfoldable pub minus_both : ℕ → ℕ → ℕ → ℕ → ℤ
unfolding minus
minus_both a b c d = minus (a + d) (b + c)

abbrev pub is_zero : ℤ → Bool
is_zero (pos n) = n == 0
is_zero (negsuc n) = false

pub minus-is_zero : (m n : ℕ) → is_zero (minus m n) ≡ (m == n)
unfolding minus
minus-is_zero m n = elim (Bool-cases (leb n m)) [
  | inl e ↦ rw e (ground arith)
  | inr e ↦ rw e (ground arith)
]

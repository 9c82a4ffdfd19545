-- ===== src/Common/Int.antt =====
-- Go's signed `int`, at values far from its bounds.
use Prim.Native.Nat.{ℕ}
use native.Mathlib.Omega.{arith}
use mathlib.Core.Path.{◌≡◌, refl}
use mathlib.Core.Bool.{Bool, false}
use mailhook.Common.Tests.{leb}

-- `negsuc n` is -(n + 1).
pub data ℤ : Type 0 where
  pos : ℕ → ℤ
  negsuc : ℕ → ℤ

-- `z >= k` for a constant k that is not negative.
abbrev pub at_least : ℕ → ℤ → Bool
at_least k (pos n) = leb k n
at_least k (negsuc _) = false

pub at_least_3-false : (z : ℤ) → at_least 1 z ≡ false → at_least 3 z ≡ false
at_least_3-false (pos n) h = ground arith
at_least_3-false (negsuc n) h = refl

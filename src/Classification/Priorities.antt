-- ===== src/Classification/Priorities.antt =====
-- Python's `int`, as far as priorities need it: order and the maximum.
use hermes_memory.Base.{ℕ, Bool, true, false, ltb, ◌==◌}

-- `negsuc n` is minus `n + 1`.
pub data ℤ : Type 0 where
  pos : ℕ → ℤ
  negsuc : ℕ → ℤ

abbrev pub below : ℤ → ℤ → Bool
below (pos m) (pos n) = ltb m n
below (pos m) (negsuc n) = false
below (negsuc m) (pos n) = true
below (negsuc m) (negsuc n) = ltb n m

abbrev pub same : ℤ → ℤ → Bool
same (pos m) (pos n) = m == n
same (pos m) (negsuc n) = false
same (negsuc m) (pos n) = false
same (negsuc m) (negsuc n) = m == n

-- ===== src/Base/Int.antt =====
-- A C `int` that may go below zero: `negsuc n` is -(n + 1).
use Prim.Native.Nat.{ℕ, zero, suc, ◌+◌, ◌*◌}
use mathlib.Core.Bool.{Bool, true, false}
use regex.Base.Tests.{ltb, ◌==◌}

pub data ℤ : Type 0 where
  pos : ℕ → ℤ
  negsuc : ℕ → ℤ

-- `++x` and `--x`
abbrev pub inc : ℤ → ℤ
inc (pos n) = pos (suc n)
inc (negsuc zero) = pos 0
inc (negsuc (suc n)) = negsuc n

abbrev pub dec : ℤ → ℤ
dec (pos zero) = negsuc 0
dec (pos (suc n)) = pos n
dec (negsuc n) = negsuc (suc n)

-- `x < 0`
abbrev pub is_neg : ℤ → Bool
is_neg (pos n) = false
is_neg (negsuc n) = true

-- `-n`
abbrev pub minus : ℕ → ℤ
minus zero = pos 0
minus (suc n) = negsuc n

-- `x * k` and `x + k` for a `k` that is not negative
abbrev pub times : ℤ → ℕ → ℤ
times (pos n) k = pos (n * k)
times (negsuc n) k = minus (suc n * k)

abbrev pub plus : ℤ → ℕ → ℤ
plus (pos n) k = pos (n + k)
plus (negsuc zero) zero = negsuc 0
plus (negsuc zero) (suc k) = pos k
plus (negsuc (suc n)) zero = negsuc (suc n)
plus (negsuc (suc n)) (suc k) = plus (negsuc n) k

-- `x < y` and `x == y`
unfoldable pub int_less : ℤ → ℤ → Bool
int_less (pos a) (pos b) = ltb a b
int_less (pos a) (negsuc b) = false
int_less (negsuc a) (pos b) = true
int_less (negsuc a) (negsuc b) = ltb b a

unfoldable pub int_same : ℤ → ℤ → Bool
int_same (pos a) (pos b) = a == b
int_same (pos a) (negsuc b) = false
int_same (negsuc a) (pos b) = false
int_same (negsuc a) (negsuc b) = a == b

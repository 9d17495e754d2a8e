-- ===== src/Flags/Laws.antt =====
-- Each macro changes its own flag and no other.
use regex.Base.{
  ℕ, ◌-◌, ◌^◌, ◌<◌, ◌≡◌, Bool, not, ◌&&◌, ◌||◌, arith, ◌==◌, true, false, if◌then◌else◌, bit_and,
  bit_or, bit_xor,
}
use native.Mathlib.Nat.{one-le-pow}
use regex.Base.Bits.{bit, bit-le, bit_and-pow, bit-and, bit-xor, bit-pow, bit-ones}
use regex.BitArray.Laws.{unit_product, set_word}
use regex.Flags.{set_flag, clear_flag, has_flag}

pub has_flag-bit : (j flags : ℕ) → has_flag (2 ^ j) flags ≡ (bit j flags == 1)
unfolding has_flag
has_flag-bit j flags =
    rw (bit_and-pow, unit_product _ _ (bit-le j flags) (one-le-pow j 2 (omega arith)))
      (ground arith)

pub has_flag-set :
    (i j flags : ℕ)
    → has_flag (2 ^ j) (set_flag (2 ^ i) flags) ≡ ((i == j) || has_flag (2 ^ j) flags)
unfolding set_flag
has_flag-set i j flags =
    rw (has_flag-bit j (bit_or flags (2 ^ i)), has_flag-bit j flags) (set_word flags i j)

pub has_flag-clear :
    (i j flags : ℕ)
    → j < 32
    → has_flag (2 ^ j) (clear_flag (2 ^ i) flags) ≡ (not (i == j) && has_flag (2 ^ j) flags)
unfolding clear_flag
has_flag-clear i j flags h =
    rw (has_flag-bit j (bit_and flags (bit_xor (2 ^ 32 - 1) (2 ^ i))), has_flag-bit j flags)
      (rw (bit-and, bit-xor, bit-pow, bit-ones 32 j h) (ground (arith, bit-le j flags)))

-- A flag written by a test, `if(b) SET_..(flags); else CLEAR_..(flags);`.
pub has_flag-write :
    (b : Bool) (i j flags : ℕ)
    → j < 32
    → has_flag (2 ^ j) (if b then set_flag (2 ^ i) flags else clear_flag (2 ^ i) flags)
      ≡ (if j == i then b else has_flag (2 ^ j) flags)
has_flag-write true i j flags h = ground (arith, has_flag-set i j flags)
has_flag-write false i j flags h = ground (arith, has_flag-clear i j flags h)

-- ===== src/Base/Bits.antt =====
-- Single bits of a number, and what `|`, `&` and `^` of machine words do to each of them.
use Prim.Native.Nat.{
  ℕ, zero, suc, ◌+◌, ◌*◌, ◌/◌, ◌%◌, ◌-◌, ◌^◌, ◌≤◌, ◌<◌, min, max, bit_and, bit_or, bit_xor, digits,
  bit_and-bitwise, bit_or-bitwise, bit_xor-bitwise, differ,
}
use native.Mathlib.Nat.{pow-suc, one-le-pow}
use mathlib.Core.Path.{◌≡◌, refl, ap}
use native.Mathlib.Omega.{arith}
use regex.Base.Tests.{◌==◌, if◌then◌else◌}

-- The bit of weight `2 ^ i`.
abbrev pub bit : ℕ → ℕ → ℕ
bit zero a = a % 2
bit (suc i) a = bit i (a / 2)

pub bit-le : (i a : ℕ) → bit i a ≤ 1
bit-le zero a = omega arith
bit-le (suc i) a = bit-le i (a / 2)

-- The native operations stand for a recursion on digits with fuel; enough fuel is all that counts.
module _ (z : ℕ → ℕ) (f : ℕ → ℕ → ℕ) where
  digits_enough : (k l x y : ℕ) → x ≤ k → x ≤ l → digits z f k x y ≡ digits z f l x y
  digits_enough zero l (suc x) y below within = absurd (omega arith)
  digits_enough (suc k) zero (suc x) y below within = absurd (omega arith)
  digits_enough zero zero zero y below within = refl
  digits_enough zero (suc l) zero y below within = refl
  digits_enough (suc k) zero zero y below within = refl
  digits_enough (suc k) (suc l) zero y below within = refl
  digits_enough (suc k) (suc l) (suc x) y below within =
      ap (λ (t : ℕ). t * 2 + f (suc x % 2) (y % 2))
        (digits_enough k l (suc x / 2) (y / 2) (omega arith) (omega arith))

  half_digits :
      (a b : ℕ)
      → digits z f (suc a) (suc a) b
        ≡ digits z f (suc a / 2) (suc a / 2) (b / 2) * 2 + f (suc a % 2) (b % 2)
  half_digits a b =
      ap (λ (t : ℕ). t * 2 + f (suc a % 2) (b % 2))
        (digits_enough a (suc a / 2) (suc a / 2) (b / 2) (omega arith) (omega arith))

bit_or-digit : (a b : ℕ) → bit_or a b ≡ bit_or (a / 2) (b / 2) * 2 + max (a % 2) (b % 2)
bit_or-digit zero b = simp bit_or-bitwise (omega arith)
bit_or-digit (suc a) b = simp bit_or-bitwise (half_digits (λ y. y) max a b)

bit_and-digit : (a b : ℕ) → bit_and a b ≡ bit_and (a / 2) (b / 2) * 2 + min (a % 2) (b % 2)
bit_and-digit zero b = simp bit_and-bitwise (omega arith)
bit_and-digit (suc a) b = simp bit_and-bitwise (half_digits (λ y. 0) min a b)

differ-zero_or_one : (x y : ℕ) → x ≤ 1 → y ≤ 1 → (differ x y ≤ 1) × (differ x y ≡ (x + y) % 2)
differ-zero_or_one zero zero p q = omega arith
differ-zero_or_one zero (suc zero) p q = omega arith
differ-zero_or_one (suc zero) zero p q = omega arith
differ-zero_or_one (suc zero) (suc zero) p q = omega arith
differ-zero_or_one zero (suc (suc y)) p q = absurd (omega arith)
differ-zero_or_one (suc zero) (suc (suc y)) p q = absurd (omega arith)
differ-zero_or_one (suc (suc x)) y p q = absurd (omega arith)

bit_xor-digit : (a b : ℕ) → bit_xor a b ≡ bit_xor (a / 2) (b / 2) * 2 + (a % 2 + b % 2) % 2
bit_xor-digit zero b = simp bit_xor-bitwise (omega arith)
bit_xor-digit (suc a) b =
    let d : differ (suc a % 2) (b % 2) ≡ (suc a % 2 + b % 2) % 2 =
      (differ-zero_or_one (suc a % 2) (b % 2) (omega arith) (omega arith)).1 in
    rw (← d) (simp bit_xor-bitwise (half_digits (λ y. y) differ a b))

-- Bit by bit: `|` is the maximum, `&` the minimum, `^` the sum modulo 2.
pub bit-or : (i a b : ℕ) → bit i (bit_or a b) ≡ max (bit i a) (bit i b)
bit-or zero a b = omega (arith, bit_or-digit a b)
bit-or (suc i) a b =
    let e : bit_or a b / 2 ≡ bit_or (a / 2) (b / 2) = omega (arith, bit_or-digit a b) in
    rw e (bit-or i (a / 2) (b / 2))

pub bit-and : (i a b : ℕ) → bit i (bit_and a b) ≡ min (bit i a) (bit i b)
bit-and zero a b = omega (arith, bit_and-digit a b)
bit-and (suc i) a b =
    let e : bit_and a b / 2 ≡ bit_and (a / 2) (b / 2) = omega (arith, bit_and-digit a b) in
    rw e (bit-and i (a / 2) (b / 2))

pub bit-xor : (i a b : ℕ) → bit i (bit_xor a b) ≡ (bit i a + bit i b) % 2
bit-xor zero a b = omega (arith, bit_xor-digit a b)
bit-xor (suc i) a b =
    let e : bit_xor a b / 2 ≡ bit_xor (a / 2) (b / 2) = omega (arith, bit_xor-digit a b) in
    rw e (bit-xor i (a / 2) (b / 2))

pub bit-zero : (i : ℕ) → bit i 0 ≡ 0
bit-zero zero = refl
bit-zero (suc i) = bit-zero i

-- `1 << j` has the one bit `j`.
pub bit-pow : (i j : ℕ) → bit i (2 ^ j) ≡ (if i == j then 1 else 0)
bit-pow zero zero = refl
bit-pow zero (suc j) = ground (arith, pow-suc 2 j)
bit-pow (suc i) zero = ground (arith, bit-zero i)
bit-pow (suc i) (suc j) =
    let e : 2 ^ suc j / 2 ≡ 2 ^ j = omega (arith, pow-suc 2 j) in rw e (ground (arith, bit-pow i j))

and_nothing : (k a : ℕ) → a < k → bit_and a 0 ≡ 0
and_nothing zero a below = absurd (omega arith)
and_nothing (suc k) zero below = refl
and_nothing (suc k) (suc a) below =
    omega (arith, bit_and-digit (suc a) 0, and_nothing k (suc a / 2) (omega arith))

scaled_and : (x y z : ℕ) → y ≡ 2 * z → x ≡ 2 * z → x ≡ y
scaled_and x y z p q = omega arith

-- `a & (1 << j)` keeps the bit `j` alone.
pub bit_and-pow : (j a : ℕ) → bit_and a (2 ^ j) ≡ bit j a * 2 ^ j
bit_and-pow zero a = omega (arith, bit_and-digit a 1, and_nothing (a / 2 + 1) (a / 2) (omega arith))
bit_and-pow (suc j) a =
    let e : 2 ^ suc j / 2 ≡ 2 ^ j = omega (arith, pow-suc 2 j) in
    let half : bit_and (a / 2) (2 ^ suc j / 2) ≡ bit j (a / 2) * 2 ^ j =
      rw e (bit_and-pow j (a / 2)) in
    let scaled : bit j (a / 2) * 2 ^ suc j ≡ 2 * (bit j (a / 2) * 2 ^ j) =
      omega (arith, ap (λ (t : ℕ). bit j (a / 2) * t) (pow-suc 2 j)) in
    scaled_and _ _ _ scaled (omega (arith, bit_and-digit a (2 ^ suc j), half, pow-suc 2 j))

-- All ones: `2 ^ w - 1`.
pub bit-ones : (w i : ℕ) → i < w → bit i (2 ^ w - 1) ≡ 1
bit-ones zero i h = elim h [ ]
bit-ones (suc w) zero h = omega (arith, pow-suc 2 w, one-le-pow w 2)
bit-ones (suc w) (suc i) h =
    let e : (2 ^ suc w - 1) / 2 ≡ 2 ^ w - 1 = omega (arith, pow-suc 2 w, one-le-pow w 2) in
    rw e (bit-ones w i (omega arith))

-- ===== src/BitArray/Laws.antt =====
-- What the macros do to the set of values that an array stands for.
use regex.Base.{
  ℕ, zero, suc, ◌-◌, ◌*◌, ◌/◌, ◌%◌, ◌^◌, ◌≤◌, ◌<◌, bit_and, bit_or, bit_xor, ◌≡◌, inl, inr, Bool,
  not, ◌&&◌, ◌||◌, List, arith, ◌==◌, if◌then◌else◌, length, get_or, set, get_or-set_self,
  get_or-set_ne, length-set, Bool-cases,
}
use mathlib.Core.Path.{ap}
use native.Mathlib.Nat.{one-le-pow}
use regex.Base.Bits.{bit, bit-le, bit-or, bit-and, bit-xor, bit-pow, bit-ones, bit_and-pow}
use regex.BitArray.{z_set_bit, z_set_bit_array, z_clear_bit_array}

-- The value `v` is in the array.
abbrev pub holds : List ℕ → ℕ → Bool
holds a v = bit (v % 64) (get_or a (v / 64) 0) == 1

pub z_set_bit-pow : (v : ℕ) → z_set_bit 64 v ≡ 2 ^ (v % 64)
unfolding z_set_bit
z_set_bit-pow v = let e : v - v / 64 * 64 ≡ v % 64 = omega arith in rw e

pub length-z_set : (a : List ℕ) (i : ℕ) → length (z_set_bit_array a 64 i) ≡ length a
unfolding z_set_bit_array
length-z_set a i = length-set a (i / 64) _

pub length-z_clear : (a : List ℕ) (i : ℕ) → length (z_clear_bit_array a 64 i) ≡ length a
unfolding z_clear_bit_array
length-z_clear a i = length-set a (i / 64) _

pub unit_product : (b p : ℕ) → b ≤ 1 → 1 ≤ p → (b * p == 0) ≡ not (b == 1)
unit_product zero p h k = ground arith
unit_product (suc zero) p h k = let e : 1 * p ≡ p = omega arith in rw e (ground arith)
unit_product (suc (suc b)) p h k = absurd (omega arith)

-- The test of one word against the mask of one value.
pub mask_test : (word v : ℕ) → (bit_and word (z_set_bit 64 v) == 0) ≡ not (bit (v % 64) word == 1)
mask_test word v =
    rw (z_set_bit-pow v, bit_and-pow)
      (unit_product _ _ (bit-le (v % 64) word) (one-le-pow (v % 64) 2 (omega arith)))

pub set_word : (word i c : ℕ) → (bit c (bit_or word (2 ^ i)) == 1) ≡ ((i == c) || (bit c word == 1))
set_word word i c = rw (bit-or, bit-pow) (ground (arith, bit-le c word))

clear_word :
    (word i c : ℕ)
    → c < 64
    → (bit c (bit_and word (bit_xor (2 ^ 64 - 1) (2 ^ i))) == 1)
      ≡ (not (i == c) && (bit c word == 1))
clear_word word i c h =
    rw (bit-and, bit-xor, bit-pow, bit-ones 64 c h) (ground (arith, bit-le c word))

z_set_bit_array-set :
    (a : List ℕ) (i : ℕ)
    → z_set_bit_array a 64 i ≡ set a (i / 64) (bit_or (get_or a (i / 64) 0) (2 ^ (i % 64)))
unfolding z_set_bit_array
z_set_bit_array-set a i =
    ap (λ (m : ℕ). set a (i / 64) (bit_or (get_or a (i / 64) 0) m)) (z_set_bit-pow i)

z_clear_bit_array-set :
    (a : List ℕ) (i : ℕ)
    → z_clear_bit_array a 64 i
      ≡ set a (i / 64) (bit_and (get_or a (i / 64) 0) (bit_xor (2 ^ 64 - 1) (2 ^ (i % 64))))
unfolding z_clear_bit_array
z_clear_bit_array-set a i =
    ap (λ (m : ℕ). set a (i / 64) (bit_and (get_or a (i / 64) 0) (bit_xor (2 ^ 64 - 1) m)))
      (z_set_bit-pow i)

-- The word that a write at value `i` leaves for value `c`.
word_after :
    (a : List ℕ) (i c w : ℕ)
    → i / 64 < length a
    → get_or (set a (i / 64) w) (c / 64) 0 ≡ (if i / 64 == c / 64 then w else get_or a (c / 64) 0)
word_after a i c w h = elim (Bool-cases (i / 64 == c / 64)) [
  | inl e ↦
      let same : c / 64 ≡ i / 64 = ground arith in rw (e, same) (get_or-set_self a (i / 64) w 0 h)
  | inr n ↦ rw n (get_or-set_ne a (i / 64) (c / 64) w 0 (ground arith))
]

-- Setting one value adds that value and no other.
pub holds-z_set :
    (a : List ℕ) (i c : ℕ)
    → i / 64 < length a
    → holds (z_set_bit_array a 64 i) c ≡ ((i == c) || holds a c)
holds-z_set a i c h =
    rw (z_set_bit_array-set a i, word_after a i c _ h)
      (elim (Bool-cases (i / 64 == c / 64)) [
        | inl e ↦ let same : i / 64 ≡ c / 64 = ground arith in rw (e, same, set_word) (ground arith)
        | inr n ↦ rw n (ground arith)
      ])

-- Clearing one value removes that value and no other.
pub holds-z_clear :
    (a : List ℕ) (i c : ℕ)
    → i / 64 < length a
    → holds (z_clear_bit_array a 64 i) c ≡ (not (i == c) && holds a c)
holds-z_clear a i c h =
    rw (z_clear_bit_array-set a i, word_after a i c _ h)
      (elim (Bool-cases (i / 64 == c / 64)) [
        | inl e ↦
            let same : i / 64 ≡ c / 64 = ground arith in
            rw (e, same, clear_word (get_or a (c / 64) 0) (i % 64) (c % 64) (omega arith))
              (ground arith)
        | inr n ↦ rw n (ground arith)
      ])

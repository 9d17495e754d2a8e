-- ===== src/CharRange/Laws.antt =====
-- The set that `update_range_nfa` leaves, member by member.
use regex.Base.{
  ℕ, zero, suc, ◌+◌, ◌-◌, ◌/◌, ◌%◌, ◌^◌, ◌≤◌, ◌<◌, ◌≡◌, Bool, true, false, not, ◌&&◌, ◌||◌, List,
  [], ◌∷◌, arith, ltb, leb, if◌then◌else◌, length, get_or, Bool-cases, inl, inr,
}
use regex.Base.Bits.{bit-ones, bit-zero}
use regex.BitArray.{z_set_bit_array, z_clear_bit_array, set_all_bits, z_get_bit_array_idx}
use regex.BitArray.Laws.{holds, mask_test, holds-z_set, holds-z_clear, length-z_set, length-z_clear}
use regex.CharRange.{new_range, set_loop, clear_loop, update_range_nfa, is_literal_in_range}

-- Two words, 128 characters.
abbrev pub IsRange : List ℕ → Type 0
IsRange r = length r ≡ 2

is_literal_in_range-holds :
    (r : List ℕ) (c : ℕ) → is_literal_in_range r c ≡ (ltb c 128 && holds r c)
unfolding is_literal_in_range z_get_bit_array_idx
is_literal_in_range-holds r c = rw (mask_test (get_or r (c / 64) 0) c) (ground arith)

pub new_range-IsRange : (negate : Bool) → IsRange (new_range negate)
unfolding new_range
new_range-IsRange negate = ground arith

word_at : (w i : ℕ) → get_or (w ∷ w ∷ []) i 0 ≡ (if ltb i 2 then w else 0)
word_at w zero = ground arith
word_at w (suc zero) = ground arith
word_at w (suc (suc i)) = ground arith

holds-words :
    (negate : Bool) (c : ℕ)
    → (ltb c 128 && holds (if negate then set_all_bits 64 ∷ set_all_bits 64 ∷ [] else 0 ∷ 0 ∷ []) c)
      ≡ (negate && ltb c 128)
unfolding set_all_bits
holds-words true c =
    rw (word_at (2 ^ 64 - 1) (c / 64)) (ground (arith, bit-ones 64 (c % 64) (omega arith)))
holds-words false c = rw (word_at 0 (c / 64)) (ground (arith, bit-zero (c % 64)))

-- A set starts with no character, or for a negated expression with all 128.
pub in_range-new :
    (negate : Bool) (c : ℕ) → is_literal_in_range (new_range negate) c ≡ (negate && ltb c 128)
unfolding new_range
in_range-new negate c = rw (is_literal_in_range-holds _ c) (holds-words negate c)

module _ (c : ℕ) where
  set_loop-holds :
      (n i : ℕ) (r : List ℕ)
      → IsRange r
      → i + n ≤ 128
      → holds (set_loop n i r) c ≡ ((leb i c && ltb c (i + n)) || holds r c)
  unfolding set_loop
  set_loop-holds zero i r v h = ground arith
  set_loop-holds (suc n) i r v h = ground (
    arith,
    set_loop-holds n (i + 1) (z_set_bit_array r 64 i) (rw (length-z_set r i) v) (omega arith),
    holds-z_set r i c (omega arith),
  )

  clear_loop-holds :
      (n i : ℕ) (r : List ℕ)
      → IsRange r
      → i + n ≤ 128
      → holds (clear_loop n i r) c ≡ (not (leb i c && ltb c (i + n)) && holds r c)
  unfolding clear_loop
  clear_loop-holds zero i r v h = ground arith
  clear_loop-holds (suc n) i r v h = ground (
    arith,
    clear_loop-holds n (i + 1) (z_clear_bit_array r 64 i) (rw (length-z_clear r i) v) (omega arith),
    holds-z_clear r i c (omega arith),
  )

  pub in_range-update :
      (low high : ℕ) (r : List ℕ) (negate : Bool)
      → IsRange r
      → high < 128
      → is_literal_in_range (update_range_nfa low high r negate) c ≡ (
          if negate
          then not (leb low c && leb c high) && is_literal_in_range r c
          else (leb low c && leb c high) || is_literal_in_range r c)
  unfolding update_range_nfa
  in_range-update low high r true v h =
      rw
        (
          is_literal_in_range-holds r c,
          is_literal_in_range-holds (clear_loop (high + 1 - low) low r) c,
        )
        (elim (Bool-cases (leb low high)) [
          | inl some_rounds ↦
              ground (arith, clear_loop-holds (high + 1 - low) low r v (ground arith))
          | inr no_round ↦
              let e : high + 1 - low ≡ 0 = ground arith in rw (e, clear_loop) (ground arith)
        ])
  in_range-update low high r false v h =
      rw
        (
          is_literal_in_range-holds r c,
          is_literal_in_range-holds (set_loop (high + 1 - low) low r) c,
        )
        (elim (Bool-cases (leb low high)) [
          | inl some_rounds ↦ ground (arith, set_loop-holds (high + 1 - low) low r v (ground arith))
          | inr no_round ↦
              let e : high + 1 - low ≡ 0 = ground arith in rw (e, set_loop) (ground arith)
        ])

set_loop-IsRange : (n i : ℕ) (r : List ℕ) → IsRange r → IsRange (set_loop n i r)
unfolding set_loop
set_loop-IsRange zero i r v = v
set_loop-IsRange (suc n) i r v =
    set_loop-IsRange n (i + 1) (z_set_bit_array r 64 i) (rw (length-z_set r i) v)

clear_loop-IsRange : (n i : ℕ) (r : List ℕ) → IsRange r → IsRange (clear_loop n i r)
unfolding clear_loop
clear_loop-IsRange zero i r v = v
clear_loop-IsRange (suc n) i r v =
    clear_loop-IsRange n (i + 1) (z_clear_bit_array r 64 i) (rw (length-z_clear r i) v)

pub update-IsRange :
    (low high : ℕ) (r : List ℕ) (negate : Bool)
    → IsRange r
    → IsRange (update_range_nfa low high r negate)
unfolding update_range_nfa
update-IsRange low high r true v = clear_loop-IsRange (high + 1 - low) low r v
update-IsRange low high r false v = set_loop-IsRange (high + 1 - low) low r v

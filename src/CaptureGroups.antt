-- ===== src/CaptureGroups.antt =====
-- The set of capture groups that a back-reference names, src/cgrps.h: a bit map of one word.
pub mod Tests
use regex.Base.{
  ℕ, zero, suc, ◌+◌, ◌-◌, ◌≤◌, ◌<◌, ◌^◌, ◌≡◌, refl, Bool, true, false, not, ◌&&◌, ◌||◌, List, [],
  ◌∷◌, arith, ltb, leb, ◌==◌, if◌then◌else◌, length, get_or, set, Bool-cases, ==_iff, ap, bit_and,
  bit_or, inl, inr,
}
use native.Mathlib.Nat.{one-le-pow}
use regex.Base.Bits.{bit, bit-le, bit_and-pow}
use regex.BitArray.{set_bit_array, check_bit_array}
use regex.BitArray.FromOne.{set_bit_array-word, check_bit_array-word}
use regex.BitArray.Laws.{unit_product, set_word}

-- `CGRP_MAX`
abbrev pub cgrp_max : ℕ
cgrp_max = 9

-- `parser->cgrp_map` when the parser is made: `CGRP_MAP_SIZE` is 1.
abbrev pub empty_cgrp_map : List ℕ
empty_cgrp_map = 0 ∷ []

unfoldable pub mark_closure_map_backref : List ℕ → ℕ → List ℕ
unfolding set_bit_array
mark_closure_map_backref cgrp i =
    if ltb 0 i && leb i cgrp_max then set_bit_array cgrp 64 i else cgrp

unfoldable pub cgrp_has_backref : List ℕ → ℕ → Bool
unfolding check_bit_array
cgrp_has_backref cgrp i =
    if ltb 0 i && leb i cgrp_max then not (check_bit_array cgrp 64 i == 0) else false

-- On a group that the map can hold, the test reads the bit before its number.
has_backref-bit : (w k : ℕ) → k < 9 → cgrp_has_backref (w ∷ []) (suc k) ≡ (bit k w == 1)
unfolding cgrp_has_backref
has_backref-bit w k h =
    rw
      (
        check_bit_array-word w k h,
        bit_and-pow,
        unit_product _ _ (bit-le k w) (one-le-pow k 2 (omega arith)),
      )
      (ground arith)

pub mark-word :
    (w k : ℕ) → k < 9 → mark_closure_map_backref (w ∷ []) (suc k) ≡ bit_or w (2 ^ k) ∷ []
unfolding mark_closure_map_backref
mark-word w k h = rw (set_bit_array-word w k h) (ground arith)

abbrev in_range : ℕ → Bool
in_range i = ltb 0 i && leb i cgrp_max

has_backref_outside : (m : List ℕ) (j : ℕ) → in_range j ≡ false → cgrp_has_backref m j ≡ false
unfolding cgrp_has_backref
has_backref_outside m j e = rw e

pub mark_outside : (m : List ℕ) (i : ℕ) → in_range i ≡ false → mark_closure_map_backref m i ≡ m
unfolding mark_closure_map_backref
mark_outside m i e = rw e

has_backref-mark_inside :
    (w k l : ℕ)
    → k < 9
    → l < 9
    → cgrp_has_backref (mark_closure_map_backref (w ∷ []) (suc k)) (suc l)
      ≡ ((k == l) || cgrp_has_backref (w ∷ []) (suc l))
has_backref-mark_inside w k l h g =
    rw (mark-word w k h, has_backref-bit _ l g, has_backref-bit w l g) (set_word w k l)

-- Marking group `i` adds `i` to the groups with a back-reference if it is one of 1 to 9, and
-- changes the answer for no other group.
pub has_backref-mark :
    (w i j : ℕ)
    → cgrp_has_backref (mark_closure_map_backref (w ∷ []) i) j
      ≡ ((i == j) && (ltb 0 i && leb i cgrp_max) || cgrp_has_backref (w ∷ []) j)
has_backref-mark w i j = elim (Bool-cases (in_range i)) [
  | inr out ↦ rw (mark_outside (w ∷ []) i out, out) (ground arith)
  | inl i_in ↦ elim (Bool-cases (in_range j)) [
    | inr out ↦
        rw
          (
            has_backref_outside (mark_closure_map_backref (w ∷ []) i) j out,
            has_backref_outside (w ∷ []) j out,
          )
          (ground arith)
    | inl j_in ↦
        let i' : i ≡ suc (i - 1) = ground arith in
        let j' : j ≡ suc (j - 1) = ground arith in
        ground (
          arith,
          has_backref-mark_inside w (i - 1) (j - 1),
          ap (cgrp_has_backref (w ∷ [])) j',
          ap (λ (n : ℕ). mark_closure_map_backref (w ∷ []) n) i',
          ap (cgrp_has_backref (mark_closure_map_backref (w ∷ []) i)) j',
        )
  ]
]

-- ===== src/BitArray/FromOne.antt =====
-- The macros over values counted from 1, on the one-word map of src/cgrps.h.
use regex.Base.{
  ℕ, zero, suc, ◌<◌, ◌^◌, ◌≡◌, refl, [], ◌∷◌, arith, bit_and, bit_or, get_or, set, ap, ◌∙◌,
}
use regex.BitArray.{set_bit, set_bit_array, check_bit_array, get_bit_array_idx}

-- The mask of a value is the bit before its number.
set_bit-pow : (k : ℕ) → k < 9 → set_bit 64 (suc k) ≡ 2 ^ k
unfolding set_bit
set_bit-pow zero h = refl
set_bit-pow (suc zero) h = refl
set_bit-pow (suc (suc zero)) h = refl
set_bit-pow (suc (suc (suc zero))) h = refl
set_bit-pow (suc (suc (suc (suc zero)))) h = refl
set_bit-pow (suc (suc (suc (suc (suc zero))))) h = refl
set_bit-pow (suc (suc (suc (suc (suc (suc zero)))))) h = refl
set_bit-pow (suc (suc (suc (suc (suc (suc (suc zero))))))) h = refl
set_bit-pow (suc (suc (suc (suc (suc (suc (suc (suc zero)))))))) h = refl
set_bit-pow (suc (suc (suc (suc (suc (suc (suc (suc (suc k))))))))) h = absurd (omega arith)

first_word : (k : ℕ) → k < 9 → get_bit_array_idx (suc k) 64 ≡ 0
unfolding get_bit_array_idx
first_word k h = omega arith

module _ (w k : ℕ) (h : k < 9) where
  pub set_bit_array-word : set_bit_array (w ∷ []) 64 (suc k) ≡ bit_or w (2 ^ k) ∷ []
  unfolding set_bit_array
  set_bit_array-word =
      ap (λ (i : ℕ). set (w ∷ []) i (bit_or (get_or (w ∷ []) i 0) (set_bit 64 (suc k))))
        (first_word k h)
      ∙ ap (λ (m : ℕ). bit_or w m ∷ []) (set_bit-pow k h)

  pub check_bit_array-word : check_bit_array (w ∷ []) 64 (suc k) ≡ bit_and w (2 ^ k)
  unfolding check_bit_array
  check_bit_array-word =
      ap (λ (i : ℕ). bit_and (get_or (w ∷ []) i 0) (set_bit 64 (suc k))) (first_word k h)
      ∙ ap (λ (m : ℕ). bit_and w m) (set_bit-pow k h)

-- ===== src/BitArray.antt =====
-- The bit vector macros of src/bits.h. An array is the list of its words, `w` is their width. A
-- read outside the array gives 0 and a write there changes nothing; the callers stay inside it.
pub mod FromOne
pub mod Laws
use regex.Base.{ℕ, ◌+◌, ◌-◌, ◌*◌, ◌/◌, ◌%◌, ◌^◌, bit_and, bit_or, bit_xor, List, get_or, set}

-- `BITS_PER_BLOCK` on x86_64.
abbrev pub bits_per_block : ℕ
bits_per_block = 64

-- `SIZE_OF_LOCALE`
abbrev pub size_of_locale : ℕ
size_of_locale = 128

-- `(t)0x01 << (w - 1)`
unfoldable pub set_high_bit : ℕ → ℕ
set_high_bit w = 2 ^ (w - 1)

-- `~(t)0x0`
unfoldable pub set_all_bits : ℕ → ℕ
set_all_bits w = 2 ^ w - 1

-- The macros over values counted from 1.
unfoldable pub get_bit_array_idx : ℕ → ℕ → ℕ
get_bit_array_idx v w = (v - 1) / w

unfoldable pub get_bit_array_bucket : List ℕ → ℕ → ℕ → ℕ
unfolding get_bit_array_idx
get_bit_array_bucket a w v = get_or a (get_bit_array_idx v w) 0

unfoldable pub set_bit : ℕ → ℕ → ℕ
unfolding set_high_bit
set_bit w i = set_high_bit w / 2 ^ (w - i % w)

unfoldable pub set_bit_array : List ℕ → ℕ → ℕ → List ℕ
unfolding get_bit_array_idx get_bit_array_bucket set_bit
set_bit_array a w v =
    set a (get_bit_array_idx v w) (bit_or (get_bit_array_bucket a w v) (set_bit w v))

unfoldable pub check_bit_array : List ℕ → ℕ → ℕ → ℕ
unfolding get_bit_array_bucket set_bit
check_bit_array a w v = bit_and (get_bit_array_bucket a w v) (set_bit w v)

pub clear_bit_array : List ℕ → ℕ → ℕ → List ℕ
unfolding get_bit_array_idx get_bit_array_bucket set_bit set_all_bits
clear_bit_array a w v =
    set a (get_bit_array_idx v w)
      (bit_and (get_bit_array_bucket a w v) (bit_xor (set_all_bits w) (set_bit w v)))

-- The macros over values counted from 0.
unfoldable pub z_get_bit_array_idx : ℕ → ℕ → ℕ
z_get_bit_array_idx v w = v / w

unfoldable pub z_set_bit : ℕ → ℕ → ℕ
unfolding z_get_bit_array_idx
z_set_bit w v = 2 ^ (v - z_get_bit_array_idx v w * w)

unfoldable pub z_clear_bit_array : List ℕ → ℕ → ℕ → List ℕ
unfolding z_get_bit_array_idx z_set_bit set_all_bits
z_clear_bit_array a w v =
    set a (z_get_bit_array_idx v w)
      (bit_and (get_or a (z_get_bit_array_idx v w) 0) (bit_xor (set_all_bits w) (z_set_bit w v)))

unfoldable pub z_set_bit_array : List ℕ → ℕ → ℕ → List ℕ
unfolding z_get_bit_array_idx z_set_bit
z_set_bit_array a w v =
    set a (z_get_bit_array_idx v w) (bit_or (get_or a (z_get_bit_array_idx v w) 0) (z_set_bit w v))

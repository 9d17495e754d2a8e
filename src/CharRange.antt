-- ===== src/CharRange.antt =====
-- The character set of a bracket expression (`nfa_range`): how src/nfa.c fills it and how
-- src/recognizer.c tests a character against it. A set is the list of its two words.
pub mod Laws
pub mod Classes
pub mod Tests
use regex.Base.{
  ℕ, zero, suc, ◌+◌, ◌-◌, Bool, true, false, not, ◌&&◌, ◌||◌, List, [], ◌∷◌, bit_and, ltb, leb,
  ◌==◌, if◌then◌else◌, get_or,
}
use regex.BitArray.{
  bits_per_block, size_of_locale, z_get_bit_array_idx, z_set_bit, z_set_bit_array,
  z_clear_bit_array, set_all_bits,
}
use regex.Collations.{CollRange, NamedCollation, collations, alnum, space, in_ranges}

-- `*(start->value.range)` as `new_range_nfa` leaves it: both words zero, or both all ones.
pub new_range : Bool → List ℕ
unfolding set_all_bits
new_range negate =
    if negate then set_all_bits bits_per_block ∷ set_all_bits bits_per_block ∷ [] else 0 ∷ 0 ∷ []

-- The two loops `for(int i = low; i <= high; ++i)`, by the rounds left.
clear_loop : ℕ → ℕ → List ℕ → List ℕ
clear_loop zero i r = r
clear_loop (suc n) i r = clear_loop n (i + 1) (z_clear_bit_array r bits_per_block i)

set_loop : ℕ → ℕ → List ℕ → List ℕ
set_loop zero i r = r
set_loop (suc n) i r = set_loop n (i + 1) (z_set_bit_array r bits_per_block i)

pub update_range_nfa : ℕ → ℕ → List ℕ → Bool → List ℕ
unfolding clear_loop set_loop
update_range_nfa low high r negate =
    if negate then clear_loop (high + 1 - low) low r else set_loop (high + 1 - low) low r

-- `strncmp(a, b, n) == 0`, on strings without their terminators.
unfoldable pub strncmp_eq : ℕ → List ℕ → List ℕ → Bool
strncmp_eq zero a b = true
strncmp_eq (suc n) [] [] = true
strncmp_eq (suc n) [] (y ∷ b) = false
strncmp_eq (suc n) (x ∷ a) [] = false
strncmp_eq (suc n) (x ∷ a) (y ∷ b) = (x == y) && strncmp_eq n a b

-- The loop over the ranges of the class that was found.
add_ranges : List CollRange → List ℕ → Bool → List ℕ
add_ranges [] r negate = r
add_ranges (k ∷ ks) r negate = add_ranges ks (update_range_nfa k.low k.high r negate) negate

-- The loop over the table, from the class at hand.
search_collations : List NamedCollation → List ℕ → ℕ → List ℕ → Bool → Bool × List ℕ
unfolding add_ranges
search_collations [] name len r negate = (false, r)
search_collations (k ∷ ks) name len r negate =
    let rest = search_collations ks name len r negate in
    if strncmp_eq len name k.name then (true, add_ranges k.ranges r negate) else rest

-- The result says whether a class was found, and is the new set.
pub update_range_w_collation : List ℕ → ℕ → List ℕ → Bool → Bool × List ℕ
unfolding search_collations
update_range_w_collation name len r negate = search_collations collations name len r negate

unfoldable pub is_literal_in_range : List ℕ → ℕ → Bool
is_literal_in_range r c =
    if ltb c size_of_locale
    then (let mask = z_set_bit bits_per_block c in
        not (bit_and (get_or r (z_get_bit_array_idx c bits_per_block) 0) mask == 0))
    else false

pub is_literal_space : ℕ → Bool
is_literal_space c = if ltb c size_of_locale then in_ranges space.ranges c else false

pub is_literal_word_constituent : ℕ → Bool
is_literal_word_constituent c = if ltb c size_of_locale then in_ranges alnum.ranges c else false

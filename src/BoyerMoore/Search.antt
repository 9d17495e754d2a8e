-- ===== src/BoyerMoore/Search.antt =====
-- The search, src/boyer_moore.c `bm_search`: shifts by the larger of the two tables' entries. The
-- loop has fuel; Halts shows that one round for each position is enough.
use regex.Base.{
  ℕ, zero, suc, ◌+◌, ◌-◌, Option, none, some, List, [], ◌∷◌, ◌++◌, leb, ◌==◌, if◌then◌else◌, length,
  get_or,
}
use regex.BoyerMoore.{RbTree, BmObj}
use regex.BoyerMoore.Tables.{bm_get_char_shift}

-- `for(i = m - 1; i >= 0 && pattern[i] == input[i + j]; --i);`, with `i + 1`
unfoldable pub compare_back : List ℕ → List ℕ → ℕ → ℕ → ℕ
compare_back pattern input j zero = zero
compare_back pattern input j (suc i) =
    if get_or pattern i 0 == get_or input (i + j) 0 then compare_back pattern input j i else suc i

-- The shift at a mismatch with the pattern's character `i`. A shift by the bad character that would
-- be negative is never the larger one, and counts as 0.
unfoldable pub mismatch_shift : {T : Type 0} → RbTree T → BmObj T → ℕ → ℕ → ℕ
unfolding bm_get_char_shift
mismatch_shift tree obj i c =
    let m = length obj.pattern in
    let bad = bm_get_char_shift tree obj c + i + 1 - m in
    let good = get_or obj.good_suffix i 0 in
    if bad == m then bad else if leb bad good then good else bad

unfoldable pub record_match : {T : Type 0} → BmObj T → ℕ → BmObj T
record_match obj j = record obj {
  matches = obj.matches ++ record { beg = j; end = j + length obj.pattern - 1 } ∷ [];
}

unfoldable pub search_loop : {T : Type 0} → ℕ → RbTree T → BmObj T → List ℕ → ℕ → Option (BmObj T)
unfolding compare_back mismatch_shift record_match
search_loop zero tree obj input j = none
search_loop (suc k) tree obj input j =
    if leb (j + length obj.pattern) (length input)
    then elim (compare_back obj.pattern input j (length obj.pattern)) [
      | zero ↦ search_loop k tree (record_match obj j) input (j + get_or obj.good_suffix 0 0)
      | suc i ↦
          search_loop k tree obj input (j + mismatch_shift tree obj i (get_or input (i + j) 0))
    ]
    else some obj

-- None of the pointers is null.
unfoldable pub bm_search : {T : Type 0} → RbTree T → BmObj T → List ℕ → Option (BmObj T)
unfolding search_loop
bm_search tree obj input = search_loop (length input + 2) tree obj input 0

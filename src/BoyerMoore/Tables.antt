-- ===== src/BoyerMoore/Tables.antt =====
-- The two tables of shifts, src/boyer_moore.c. A loop that counts `i` down to 0 is a recursion on
-- `i + 1`, and `g`, which may reach -1, is written `g + 1`. A suffix is stored in a signed `char`: a
-- byte of 128 or more is a negative number.
use regex.Base.{
  ℕ, zero, suc, ◌+◌, ◌-◌, ◌%◌, Bool, ◌&&◌, ◌||◌, none, some, List, [], ◌∷◌, ltb, leb, ◌==◌,
  if◌then◌else◌, length, get_or, set, replicate,
}
use regex.Base.Int.{ℤ, pos, negsuc}
use regex.BoyerMoore.{RbTree, BmObj}

-- `while (g >= 0 && pattern[g] == pattern[g + m - 1 - f])`
unfoldable pub match_back : List ℕ → ℕ → ℕ → ℕ
match_back pattern off zero = zero
match_back pattern off (suc g) =
    if get_or pattern g 0 == get_or pattern (g + off) 0 then match_back pattern off g else suc g

-- `suff[i + m - 1 - f] < i - g`, where `i > g`
unfoldable pub char_less : ℕ → ℕ → Bool
char_less c n = leb 128 c || ltb c n

-- From the index `i` down, with `g + 1` and `f`.
unfoldable pub suffix_loop : List ℕ → ℕ → List ℕ → ℕ → ℕ → List ℕ
unfolding char_less match_back
suffix_loop pattern zero suff g f = suff
suffix_loop pattern (suc i) suff g f =
    let m = length pattern in
    let known = get_or suff (i + (m - 1) - f) 0 in
    if leb g i && char_less known (i + 1 - g)
    then suffix_loop pattern i (set suff i known) g f
    else (let start = if ltb (i + 1) g then i + 1 else g in
        let matched = match_back pattern (m - 1 - i) start in
        suffix_loop pattern i (set suff i ((i + 1 - matched) % 256)) matched i)

unfoldable pub compute_suffix : List ℕ → List ℕ
unfolding suffix_loop
compute_suffix pattern =
    let m = length pattern in
    suffix_loop pattern (m - 1) (set (replicate m 0) (m - 1) (m % 256)) m (m - 2)

-- `for(; j < m - 1 - i; ++j)`, by the rounds left
unfoldable pub fill_prefix : ℕ → ℕ → List ℕ → ℕ → ℕ → List ℕ
fill_prefix m zero good j shift = good
fill_prefix m (suc k) good j shift =
    fill_prefix m k (if get_or good j 0 == m then set good j shift else good) (j + 1) shift

-- The suffixes that are prefixes, from the index `i` down.
unfoldable pub prefix_loop : ℕ → ℕ → List ℕ → List ℕ → ℕ → List ℕ
unfolding fill_prefix
prefix_loop m zero suffix good j = good
prefix_loop m (suc i) suffix good j =
    let shift = m - 1 - i in
    if ltb (get_or suffix i 0) 128 && get_or suffix i 0 == i + 1
    then prefix_loop m i suffix (fill_prefix m (shift - j) good j shift)
        (if ltb j shift then shift else j)
    else prefix_loop m i suffix good j

-- `m - 1 - suffix[i]`, behind the table for a negative suffix
unfoldable pub suffix_index : ℕ → ℕ → ℕ
suffix_index m c = if ltb c 128 then m - 1 - c else m - 1 + (256 - c)

-- `for(int i = 0; i <= m - 2; ++i)`, by the rounds left
unfoldable pub suffix_shifts : ℕ → ℕ → ℕ → List ℕ → List ℕ → List ℕ
unfolding suffix_index
suffix_shifts m zero i suffix good = good
suffix_shifts m (suc k) i suffix good =
    suffix_shifts m k (i + 1) suffix (set good (suffix_index m (get_or suffix i 0)) (m - 1 - i))

unfoldable pub compute_good_suffix : List ℕ → List ℕ
unfolding compute_suffix prefix_loop suffix_shifts
compute_good_suffix pattern =
    let m = length pattern in
    let suffix = compute_suffix pattern in
    suffix_shifts m (m - 1) 0 suffix (prefix_loop m m suffix (replicate m m) 0)

-- A `char` of the pattern as a key: a byte of 128 or more is negative.
unfoldable pub char_key : ℕ → ℤ
char_key c = if ltb c 128 then pos c else negsuc (255 - c)

-- `for(int i = 0; i < m - 1; ++i)`, on the pattern from `i` on
unfoldable pub bad_char_loop : {T : Type 0} → RbTree T → List ℕ → T → T
unfolding char_key
bad_char_loop tree [] t = t
bad_char_loop tree (c ∷ []) t = t
bad_char_loop tree (c ∷ d ∷ rest) t =
    bad_char_loop tree (d ∷ rest) (elim (tree.rbtree_search t (char_key c)) [
      | none ↦ tree.rbtree_insert t (char_key c) (length rest + 1)
      | some _ ↦ tree.write_data t (char_key c) (length rest + 1)
    ])

unfoldable pub compute_bad_char : {T : Type 0} → RbTree T → BmObj T → BmObj T
unfolding bad_char_loop
compute_bad_char tree obj = record obj { bad_char = bad_char_loop tree obj.pattern obj.bad_char }

-- `pattern` and `obj` are not null.
unfoldable pub bm_init_obj : {T : Type 0} → RbTree T → BmObj T → List ℕ → BmObj T
unfolding compute_bad_char compute_good_suffix
bm_init_obj tree obj pattern =
    let ready = compute_bad_char tree (record obj { pattern = pattern }) in
    record ready { good_suffix = compute_good_suffix pattern }

unfoldable pub bm_get_char_shift : {T : Type 0} → RbTree T → BmObj T → ℕ → ℕ
bm_get_char_shift tree obj c = elim (tree.rbtree_search obj.bad_char (pos c)) [
  | none ↦ length obj.pattern
  | some shift ↦ shift
]

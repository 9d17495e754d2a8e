-- ===== src/BoyerMoore/BadChar.antt =====
-- The table of bad characters, src/boyer_moore.c, against the last occurrence of a character.
use regex.Base.{
  ℕ, ◌+◌, ◌≡◌, ◌≢◌, false, Option, none, some, List, [], ◌∷◌, arith, ◌==◌, if◌then◌else◌, length,
}
use regex.Base.Int.{ℤ, pos}
use regex.BoyerMoore.{RbTree}

-- How far from the end the last `c` stands, the last character of the pattern left out, or `d`.
abbrev pub distance : List ℕ → ℕ → ℕ → ℕ
distance [] c d = d
distance (x ∷ []) c d = d
distance (x ∷ y ∷ rest) c d = distance (y ∷ rest) c (if x == c then length rest + 1 else d)

-- What the table answers for `c`.
abbrev shift_of : Option ℕ → ℕ → ℕ
shift_of none m = m
shift_of (some n) m = n

pos_ne : (x c : ℕ) → (x == c) ≡ false → pos x ≢ pos c
pos_ne x c h e = ground arith

module _ {T : Type 0} (tree : RbTree T) where
  -- One round of the loop: the write is seen by the same key alone.
  abbrev put : T → ℤ → ℕ → T
  put t k n = elim (tree.rbtree_search t k) [
    | none ↦ tree.rbtree_insert t k n
    | some _ ↦ tree.write_data t k n
  ]

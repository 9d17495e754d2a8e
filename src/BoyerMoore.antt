-- ===== src/BoyerMoore.antt =====
-- The search for a literal string, src/boyer_moore.c and src/boyer_moore.h. An input is a list of
-- bytes, a position an offset into it. The table of bad characters is a red-black tree
-- (src/rbtree.h), which is used through the operations and laws of `RbTree`; the matches are the
-- list that src/match_record.c keeps in a ring, oldest first, and the iterator is the index of the
-- match that it points at.
pub mod Tables
pub mod Search
pub mod Shifts
pub mod BadChar
pub mod Sound
pub mod Iterate
pub mod Tests
use regex.Base.{
  ℕ, ◌+◌, ◌-◌, ◌≡◌, ◌≢◌, Bool, true, false, Option, none, some, List, [], ◌∷◌, ltb, ◌==◌,
  if◌then◌else◌, length, get_elem?, get_or,
}
use regex.Base.Int.{ℤ, pos, negsuc}

-- What this file relies on of a tree whose data are pointers to an `int`; keys are of type `long`.
-- `write_data` is a write through the data of the node with the key.
pub record RbTree (T : Type 0) : Type 0 where
  pub empty : T
  pub rbtree_search : T → ℤ → Option ℕ
  pub rbtree_insert : T → ℤ → ℕ → T
  pub write_data : T → ℤ → ℕ → T
  pub searched_empty : (k : ℤ) → rbtree_search empty k ≡ none
  pub searched_inserted :
      (t : T) (k : ℤ) (n : ℕ)
      → rbtree_search t k ≡ none
      → rbtree_search (rbtree_insert t k n) k ≡ some n
  pub spared_inserted :
      (t : T) (k l : ℤ) (n : ℕ)
      → rbtree_search t k ≡ none
      → k ≢ l
      → rbtree_search (rbtree_insert t k n) l ≡ rbtree_search t l
  pub searched_written :
      (t : T) (k : ℤ) (n : ℕ)
      → rbtree_search t k ≢ none
      → rbtree_search (write_data t k n) k ≡ some n
  pub spared_written :
      (t : T) (k l : ℤ) (n : ℕ) → k ≢ l → rbtree_search (write_data t k n) l ≡ rbtree_search t l

-- The first and the last position of a match.
pub record MatchRecord : Type 0 where
  pub beg : ℕ
  pub end : ℕ

-- `pattern_len` is the length of `pattern`; `min` and `max` are not used.
pub record BmObj (T : Type 0) : Type 0 where
  pub pattern : List ℕ
  pub good_suffix : List ℕ
  pub bad_char : T
  pub matches : List MatchRecord
  pub iter : Option ℕ

pub bm_match_count : {T : Type 0} → Option (BmObj T) → ℕ
bm_match_count none = 0
bm_match_count (some obj) = length obj.matches

unfoldable pub new_bm_obj : {T : Type 0} → RbTree T → BmObj T
new_bm_obj tree = record {
  pattern = [];
  good_suffix = [];
  bad_char = tree.empty;
  matches = [];
  iter = none;
}

-- The ring closes behind the last match: an iterator at the end points at the head again.
unfoldable pub bm_next_match : {T : Type 0} → BmObj T → Option MatchRecord × BmObj T
bm_next_match {T} obj = elim (obj.matches) [
  | [] ↦ (none, obj)
  | head ∷ _ ↦ elim (obj.iter) [
    | none ↦ (some head, record obj { iter = some 1 })
    | some i ↦
        if i == length obj.matches
        then (none, record obj { iter = none })
        else (get_elem? obj.matches i, record obj { iter = some (i + 1) })
  ]
]

unfoldable pub bm_clear_matches : {T : Type 0} → BmObj T → BmObj T
bm_clear_matches obj = record obj { matches = []; iter = none }

-- ===== src/BoyerMoore/Tests.antt =====
-- Runs of the search for a literal string, on trees that are functions.
use regex.Base.{
  ℕ, ◌≡◌, ◌≢◌, refl, Bool, true, false, Option, none, some, List, ◌∷◌, [], arith, ◌==◌,
  if◌then◌else◌,
}
use regex.Base.Int.{ℤ, pos, negsuc}
use regex.BoyerMoore.{RbTree, BmObj}
use regex.BoyerMoore.Iterate.{calls, with_iter, bm_next_match-calls}

abbrev same_key : ℤ → ℤ → Bool
same_key (pos a) (pos b) = a == b
same_key (negsuc a) (negsuc b) = a == b
same_key (pos a) (negsuc b) = false
same_key (negsuc a) (pos b) = false

same_key_refl : (k : ℤ) → same_key k k ≡ true
same_key_refl (pos a) = ground arith
same_key_refl (negsuc a) = ground arith

same_key_ne : (k l : ℤ) → k ≢ l → same_key k l ≡ false
same_key_ne (pos a) (pos b) h = ground arith
same_key_ne (negsuc a) (negsuc b) h = ground arith
same_key_ne (pos a) (negsuc b) h = refl
same_key_ne (negsuc a) (pos b) h = refl

abbrev KeyMap : Type 0
KeyMap = ℤ → Option ℕ

abbrev put : KeyMap → ℤ → ℕ → KeyMap
put t k n l = if same_key k l then some n else t l

abbrev key_maps : RbTree KeyMap
key_maps = record {
  empty = λ k. none;
  rbtree_search = λ t k. t k;
  rbtree_insert = put;
  write_data = put;
  searched_empty = λ k. refl;
  searched_inserted = λ t k n e. rw (same_key_refl k) refl;
  spared_inserted = λ t k l n e h. rw (same_key_ne k l h) refl;
  searched_written = λ t k n e. rw (same_key_refl k) refl;
  spared_written = λ t k l n h. rw (same_key_ne k l h) refl;
}

abbrev aba : List ℕ
aba = b'a' ∷ b'b' ∷ b'a' ∷ []

abbrev ababa : List ℕ
ababa = b'a' ∷ b'b' ∷ b'a' ∷ b'b' ∷ b'a' ∷ []

abbrev two_found : BmObj KeyMap
two_found = record {
  pattern = aba;
  good_suffix = [];
  bad_char = λ k. none;
  matches = record { beg = 0; end = 2 } ∷ record { beg = 2; end = 4 } ∷ [];
  iter = none;
}

bm_next_match-calls_example :
    calls 1 (with_iter two_found none)
    ≡ (some (record { beg = 2; end = 4 }), with_iter two_found (some 2))
bm_next_match-calls_example =
    bm_next_match-calls 1 two_found (record { beg = 0; end = 2 }) (record { beg = 2; end = 4 } ∷ [])
      refl (omega arith)

-- ===== src/BoyerMoore/Shifts.antt =====
-- The entries of the table of good suffixes, src/boyer_moore.c: every entry moves the search on.
use regex.Base.{ℕ, ◌≤◌, ◌<◌, ◌≡◌, List, length, get_or}

-- A table with `m` entries, each of them at least 1.
pub record IsForward (m : ℕ) (good : List ℕ) : Type 0 where
  pub full : length good ≡ m
  pub positive : (k : ℕ) → k < m → 1 ≤ get_or good k 0

-- ===== src/BoyerMoore/Sound.antt =====
-- What `bm_search` finds, src/boyer_moore.c.
use regex.Base.{ℕ, ◌+◌, ◌-◌, ◌≤◌, ◌<◌, ◌≡◌, List, length, get_or}
use regex.BoyerMoore.{MatchRecord}

-- The pattern stands in the input at the position `j`.
pub record Occurs (pattern input : List ℕ) (j : ℕ) : Type 0 where
  pub inside : j + length pattern ≤ length input
  pub agrees : (k : ℕ) → k < length pattern → get_or pattern k 0 ≡ get_or input (k + j) 0

-- A match from the first to the last character of an occurrence.
pub record IsMatch (pattern input : List ℕ) (r : MatchRecord) : Type 0 where
  pub occurs : Occurs pattern input r.beg
  pub ends : r.end ≡ r.beg + length pattern - 1

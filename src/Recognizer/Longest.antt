-- ===== src/Recognizer/Longest.antt =====
-- The longest match and the next start, src/recognizer.c.
use regex.Base.{ℕ, ◌+◌, ◌-◌, ◌≤◌, ◌<◌, ◌≡◌, ◌≢◌, max, Bool, true, arith}
use regex.Recognizer.Matches.{Match, update_longest_match, next_start}

abbrev pub span : Match → ℕ
span m = m.end - m.start

-- When both matches run forward and there is a match already, the update keeps a match that runs
-- forward and is as long as the longer of the two, and longer than it only where the new match
-- starts at the old one's end or right behind it.
pub update_longest_match-span :
    (m nm : Match)
    → m.end ≢ 0
    → m.start ≤ m.end
    → nm.start ≤ nm.end
    → (max (span m) (span nm) ≤ span (update_longest_match m nm))
      × ((update_longest_match m nm).start ≤ (update_longest_match m nm).end)
      × (max (span m) (span nm) < span (update_longest_match m nm)
          → (m.end ≤ nm.start) × (nm.start ≤ m.end + 1))
unfolding update_longest_match
update_longest_match-span m nm e p q = ground arith

-- Without a keyword search the next start lies behind the last one, and behind the end of the match
-- if the run found one, provided that an end that is not null is not before the last start.
pub next_start-Advances :
    (m : Match) (current_run : Bool) (p : ℕ)
    → (m.end ≢ 0 → p ≤ m.end)
    → (p < next_start m current_run p) × (current_run ≡ true → m.end < next_start m current_run p)
unfolding next_start
next_start-Advances m current_run p h = ground arith

-- ===== src/Recognizer/Output/Small.antt =====
-- What `fill_output_buffer` of src/recognizer.c does with a text that fits behind what the buffer
-- holds.
use regex.Base.{ℕ, ◌+◌, ◌≡◌, Bool, true, List, [], ◌∷◌, ◌++◌, length, take, drop}
use regex.Recognizer.Output.{Output}
use regex.Recognizer.Output.Buffer.{slice}

-- `line` is added to what was printed or waits in the buffer, and nothing waits behind a flush.
pub record Adds (flush : Bool) (ctrl : Output) (s line : List ℕ) (c : Output) : Type 0 where
  pub output : c.printed ++ take c.match_idx c.matches ≡ ctrl.printed ++ (s ++ line)
  pub flushed : flush ≡ true → c.match_idx ≡ 0
  pub size : length c.matches ≡ length ctrl.matches

module _ (text : ℕ → ℕ) (begin n : ℕ) (ctrl : Output) (s r : List ℕ) where
  abbrev line : List ℕ
  line = slice text begin n ++ 10 ∷ []

  abbrev left : List ℕ
  left = drop 1 (drop 1 (drop (length (slice text begin n)) r))

  -- The buffer with the line and a null behind it, not flushed.
  abbrev waiting : Output
  waiting = record ctrl {
    matches = (s ++ line) ++ 0 ∷ left;
    match_idx = ctrl.match_idx + n + 1;
    match = record ctrl.match { last_match_end = ctrl.match.end };
  }

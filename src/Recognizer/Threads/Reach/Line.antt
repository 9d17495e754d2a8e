-- ===== src/Recognizer/Threads/Reach/Line.antt =====
-- `run_nfa` of src/recognizer.c as a whole: the positions of a line, and the report at the end.
use regex.Base.{ℕ, ◌≡◌, Bool, true, false, Option, none, some}
use regex.Recognizer.Threads.{Ctrl}
use regex.Recognizer.Threads.Run.{KwSearch, Run}
use regex.Recognizer.Threads.Reach.{Accepts}
use regex.Recognizer.Threads.Reach.Found.{IsSound}
use regex.Recognizer.Ensures.{Ensures}

-- Whether a run returns, and returns that a match was found.
abbrev pub reports : {S : Type 0} → Option (Bool × S × Ctrl) → Bool
reports none = false
reports (some r) = r.0

module _ (g : Ctrl) where
  module _ {S : Type 0} (kw : Option (KwSearch S)) (rounds depth : ℕ) where
    abbrev Sound : Run S → Type 0
    Sound = IsSound g kw rounds depth

    -- A sound run that goes on.
    abbrev Going : Run S → Type 0
    Going run = Sound run × (run.stopped ≡ false)

    -- The result is what the run has found.
    abbrev Reported : Bool × S × Ctrl → Type 0
    Reported r = r.0 ≡ true → (s : ℕ) × Accepts g s

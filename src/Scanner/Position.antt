-- ===== src/Scanner/Position.antt =====
-- Reading a character, putting it back, and the flags that say where the readhead is.
use regex.Base.{
  ℕ, ◌+◌, ◌-◌, ◌^◌, ◌≤◌, ◌<◌, ◌≡◌, ◌≢◌, ◌||◌, arith, ◌==◌, if◌then◌else◌, get_or, ap, ◌∙◌,
}
use regex.Base.Int.{dec}
use regex.Flags.{has_flag}
use regex.Flags.Laws.{has_flag-write}
use regex.Scanner.{Scanner, update_flags, after_newline, step, step_back, current, newline_char}

-- Putting back the character just read restores the position, the buffer and the token, if the
-- character is not null and does not stand before the beginning of the expression. The line number,
-- which reading does not count up, is counted down if the character is a newline.
pub step_back-step :
    (s : Scanner)
    → current s ≢ 0
    → s.str_begin ≤ s.readhead
    → ((step_back (step s).1).readhead ≡ s.readhead)
      × ((step_back (step s).1).buffer ≡ s.buffer)
      × ((step_back (step s).1).curtoken ≡ s.curtoken)
      × ((step_back (step s).1).line_no
          ≡ (if current s == newline_char then dec s.line_no else s.line_no))
unfolding step step_back
step_back-step s h b =
    let e : get_or s.buffer (s.readhead + 1 - 1) 0 ≡ current s =
      ap (λ (n : ℕ). get_or s.buffer n 0) (omega arith) in
    (ground (arith, e), ground (arith, e), ground (arith, e), ground (arith, e))

-- The flags after `update_flags`: flag 4 says that the readhead is at the beginning of the line,
-- flag 3 that it is at the end, and no other flag changes.
pub update_flags_lem :
    (s : Scanner) (j : ℕ)
    → j < 32
    → has_flag (2 ^ j) (update_flags s).ctrl_flags ≡ (
        if j == 4
        then (s.readhead == 0 || after_newline s.readhead s.last_newline)
        else if j == 3
        then (current s == s.eol_symbol || current s == newline_char)
        else has_flag (2 ^ j) s.ctrl_flags)
unfolding update_flags
update_flags_lem s j h =
    has_flag-write (current s == s.eol_symbol || current s == newline_char) 3 j _ h
    ∙ ground (
      arith,
      has_flag-write (s.readhead == 0 || after_newline s.readhead s.last_newline) 4 j s.ctrl_flags
          h,
    )

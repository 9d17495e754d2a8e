-- ===== src/Scanner/Kept.antt =====
-- What `restart_from` of src/scanner.c leaves alone: the text, and every flag but its own two.
use regex.Base.{
  ℕ, ◌≡◌, ◌∙◌, refl, Bool-cases, inl, inr, Bool, true, false, ltb, Option, none, some, arith,
  if◌then◌else◌,
}
use regex.Flags.{has_flag, set_flag, clear_flag, ignore_case_flag, at_bol_flag, at_eol_flag}
use regex.Flags.Laws.{has_flag-set, has_flag-clear}
use regex.Scanner.{Scanner, update_flags, restart_from}

write_own :
    (b : Bool) (flags : ℕ)
    → has_flag ignore_case_flag
        (if b then set_flag at_bol_flag flags else clear_flag at_bol_flag flags)
      ≡ has_flag ignore_case_flag flags
write_own true flags = has_flag-set 4 9 flags
write_own false flags = has_flag-clear 4 9 flags (omega arith)

write_eol :
    (b : Bool) (flags : ℕ)
    → has_flag ignore_case_flag
        (if b then set_flag at_eol_flag flags else clear_flag at_eol_flag flags)
      ≡ has_flag ignore_case_flag flags
write_eol true flags = has_flag-set 3 9 flags
write_eol false flags = has_flag-clear 3 9 flags (omega arith)

pub record IsKept (s s' : Scanner) : Type 0 where
  pub text : s'.buffer ≡ s.buffer
  pub eol_symbol : s'.eol_symbol ≡ s.eol_symbol
  pub ignore_case : has_flag ignore_case_flag s'.ctrl_flags ≡ has_flag ignore_case_flag s.ctrl_flags

update_flags-IsKept : (s : Scanner) → IsKept s (update_flags s)
unfolding update_flags
update_flags-IsKept s = record {
  text = refl;
  eol_symbol = refl;
  ignore_case = write_eol _ _ ∙ write_own _ s.ctrl_flags;
}

pub restart_from-IsKept : (s : Scanner) (p : Option ℕ) → IsKept s (restart_from s p)
unfolding restart_from
restart_from-IsKept s none = record {
  text = refl;
  eol_symbol = refl;
  ignore_case = write_eol true s.ctrl_flags;
}
restart_from-IsKept s (some p) =
    let k = update_flags-IsKept (record s { str_begin = p; readhead = p }) in
    elim (Bool-cases (ltb p s.line_len)) [
      | inl b ↦
          rw b (record { text = k.text; eol_symbol = k.eol_symbol; ignore_case = k.ignore_case })
      | inr b ↦
          rw b
            (record { text = refl; eol_symbol = refl; ignore_case = write_eol true s.ctrl_flags })
    ]

-- ===== src/Scanner/Tests.antt =====
-- Runs of the scanner on the line `a*\b`.
use regex.Base.{
  ℕ, suc, zero, ◌≡◌, ◌≢◌, ◌<◌, refl, true, false, none, List, ◌∷◌, [], arith, inl, get_or,
}
use regex.Base.Int.{pos}
use regex.Flags.{has_flag, escp_seq_flag}
use regex.Token.{new_token, equal}
use regex.Scanner.{Scanner, eol_char, init_scanner, step, step_back, update_flags}
use regex.Scanner.Scan.{regex_scan}
use regex.Scanner.Bounds.{IsReady, regex_scan-IsReady, init_scanner-IsReady}
use regex.Scanner.Position.{step_back-step, update_flags_lem}
use regex.Scanner.Tokens.{regex_scan-ne-equal}
use regex.Scanner.Progress.{ReachesEof, regex_scan-ReachesEof}

abbrev line : List ℕ
line = b'a' ∷ b'*' ∷ b'\\' ∷ b'b' ∷ 254 ∷ 0 ∷ []

abbrev on_line : Scanner
on_line = record {
  line_no = pos 1;
  eol_symbol = eol_char;
  line_len = 5;
  buf_len = 6;
  filename = none;
  ctrl_flags = escp_seq_flag;
  buffer = line;
  readhead = 0;
  str_begin = 0;
  last_newline = none;
  curtoken = new_token;
}

-- The line as it is read, before the end-of-line symbol.
abbrev raw_line : List ℕ
raw_line = b'a' ∷ b'*' ∷ 10 ∷ 0 ∷ []

on_line-IsReady : IsReady on_line
on_line-IsReady = record {
  on_line = omega arith;
  nonempty = omega arith;
  room = omega arith;
  symbol = refl;
  last = refl;
  null = refl;
}

regex_scan-IsReady_example : IsReady (regex_scan false on_line).1
regex_scan-IsReady_example = regex_scan-IsReady false on_line on_line-IsReady

abbrev unready : Scanner
unready = record on_line { buffer = raw_line; line_len = 3; buf_len = 4 }

init_scanner-IsReady_example : IsReady (init_scanner none raw_line 4 3 0)
init_scanner-IsReady_example =
    init_scanner-IsReady none raw_line 4 3 0 refl (omega arith) (omega arith) (inl refl)

step_back-step_example : (step_back (step on_line).1).readhead ≡ 0
step_back-step_example = (step_back-step on_line (omega arith) (omega arith)).0

update_flags_lem_example : has_flag 16 (update_flags on_line).ctrl_flags ≡ true
update_flags_lem_example = update_flags_lem on_line 4 (omega arith)

regex_scan-ne-equal_example : (regex_scan false on_line).1.curtoken.type ≢ equal
regex_scan-ne-equal_example = regex_scan-ne-equal false on_line (ground arith)

line_no_null : (i : ℕ) → i < 5 → get_or line i 0 ≢ 0
line_no_null zero h = omega arith
line_no_null (suc zero) h = omega arith
line_no_null (suc (suc zero)) h = omega arith
line_no_null (suc (suc (suc zero))) h = omega arith
line_no_null (suc (suc (suc (suc zero)))) h = omega arith
line_no_null (suc (suc (suc (suc (suc i))))) h = absurd (omega arith)

regex_scan-ReachesEof_example : ReachesEof false on_line
regex_scan-ReachesEof_example = regex_scan-ReachesEof false on_line (record {
  ready = on_line-IsReady;
  inside = omega arith;
  begun = omega arith;
  no_null = line_no_null;
})

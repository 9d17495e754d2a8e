-- ===== src/RegexParser/Prescan/Tests.antt =====
-- A text that names its first group.
use regex.Base.{ℕ, zero, suc, ◌+◌, ◌<◌, ◌≢◌, refl, none, ◌∷◌, [], arith, get_or}
use regex.Base.Int.{pos}
use regex.Scanner.{Scanner, eol_char}
use regex.Scanner.Bounds.{IsReady}
use regex.Token.{new_token}
use regex.RegexParser.Prescan.{prescan_input}
use regex.RegexParser.Prescan.Rounds.{Returns}
use regex.RegexParser.Prescan.Line.{prescan_input-names}
use regex.CaptureGroups.{cgrp_has_backref}
use regex.RegexParser.Prescan.Named.{names, opens}
use regex.RegexParser.Prescan.Line.{line_text}
use regex.Base.{◌||◌}

abbrev named : Scanner
named = record {
  line_no = pos 1;
  eol_symbol = eol_char;
  line_len = 5;
  buf_len = 6;
  filename = none;
  ctrl_flags = 0;
  buffer = b'(' ∷ b'a' ∷ 92 ∷ b'1' ∷ 254 ∷ 0 ∷ [];
  readhead = 1;
  str_begin = 0;
  last_newline = none;
  curtoken = new_token;
}

named-IsReady : IsReady named
named-IsReady = record {
  on_line = omega arith;
  nonempty = omega arith;
  room = omega arith;
  symbol = refl;
  last = refl;
  null = refl;
}

named_plain :
    (i : ℕ) → i + 1 < 5 → (get_or named.buffer i 0 ≢ 0) × (get_or named.buffer i 0 ≢ eol_char)
named_plain zero h = (omega arith, omega arith)
named_plain (suc zero) h = (omega arith, omega arith)
named_plain (suc (suc zero)) h = (omega arith, omega arith)
named_plain (suc (suc (suc zero))) h = (omega arith, omega arith)
named_plain (suc (suc (suc (suc i)))) h = absurd (omega (arith, h))

prescan_input-names_example :
    Returns
      (prescan_input 5 named (0 ∷ []))
      1
      (names 1 (line_text named) || cgrp_has_backref (0 ∷ []) 1)
      (opens (line_text named))
prescan_input-names_example =
    prescan_input-names 5 0 1 named named-IsReady refl named_plain (omega arith)

-- ===== src/RegexParser/Prescan.antt =====
-- The scan ahead of a parse for the groups that back-references name, src/regex_parser.c
-- `prescan_input`, on a copy of the scanner. The allocations of the stack of parentheses and of the
-- nodes, for which it counts, are left out. The number is fuel for the loop.
pub mod Named
pub mod Rounds
pub mod Line
pub mod Tests
use regex.Base.{
  ℕ, zero, suc, ◌+◌, ◌-◌, Bool, true, false, Option, none, some, List, ◌==◌, ◌&&◌, leb,
  if◌then◌else◌,
}
use regex.CaptureGroups.{mark_closure_map_backref}
use regex.Scanner.{Scanner, step, init_scanner, current}

-- `ctrl_flags` is the shared word as the copy leaves it.
pub record Prescan : Type 0 where
  pub cgrp_map : List ℕ
  pub paren_count : ℕ
  pub token_count : ℕ
  pub ctrl_flags : ℕ

-- `isdigit`
abbrev pub is_digit : ℕ → Bool
is_digit c = leb b'0' c && leb c b'9'

-- What a backslash and the character `c` behind it do.
unfoldable pub count_escape : ℕ → Prescan → Prescan
count_escape c r = record r {
  token_count = r.token_count + 1;
  cgrp_map = if is_digit c then mark_closure_map_backref r.cgrp_map (c - b'0') else r.cgrp_map;
}

-- What any other character does.
unfoldable pub count_char : ℕ → Prescan → Prescan
count_char c r = record r {
  token_count = r.token_count + 1;
  paren_count = if c == b'(' then r.paren_count + 1 else r.paren_count;
}

-- `while(c != eol)`
unfoldable pub prescan_loop : ℕ → ℕ → Scanner → Prescan → Option Prescan
prescan_loop zero c s r = none
prescan_loop (suc k) c s r = elim (c == s.eol_symbol) [
  | true ↦ some (record r { ctrl_flags = s.ctrl_flags })
  | false ↦ elim (c == 92) [
    | true ↦ prescan_loop k (step (step s).1).0 (step (step s).1).1 (count_escape (step s).0 r)
    | false ↦ prescan_loop k (step s).0 (step s).1 (count_char c r)
  ]
]

-- The copy of the scanner from which the scan reads.
unfoldable pub prescan_scanner : Scanner → Scanner
prescan_scanner s = init_scanner s.filename s.buffer s.buf_len s.line_len s.ctrl_flags

unfoldable pub prescan_input : ℕ → Scanner → List ℕ → Option Prescan
prescan_input k s cgrp_map =
    let t = prescan_scanner s in
    let none_yet : Prescan = record {
      cgrp_map = cgrp_map;
      paren_count = 0;
      token_count = 0;
      ctrl_flags = t.ctrl_flags;
    } in
    if current t == t.eol_symbol
    then some none_yet
    else prescan_loop k (step t).0 (step t).1 none_yet

-- ===== src/Scanner.antt =====
-- The scanner, src/scanner.h and src/scanner.c. A position is an offset into the buffer, a byte a
-- number below 256; a C `int` that holds a `char` is written by that byte, so EOF is 255 and the
-- end-of-line symbol -2 is 254. A null scanner is `none`. A read past the buffer gives 0 and a write
-- there changes nothing; Scanner/Bounds shows that neither is reached from a scanner with a line.
pub mod Scan
pub mod States
pub mod Bounds
pub mod Copy
pub mod Position
pub mod Kept
pub mod Tokens
pub mod Progress
pub mod Tests
use Prim.Native.String.{String}
use regex.Base.{
  ℕ, ◌+◌, ◌-◌, Bool, true, false, ◌&&◌, ◌||◌, Option, none, some, List, [], ◌∷◌, ◌++◌, ltb, ◌==◌,
  if◌then◌else◌, get_or, set,
}
use regex.Base.Int.{ℤ, pos, dec}
use regex.Flags.{at_eol_flag, at_bol_flag, escp_seq_flag, set_flag, clear_flag}
use regex.Token.{Token, new_token}

abbrev pub eof_char : ℕ
eof_char = 255

abbrev pub newline_char : ℕ
newline_char = 10

-- `(EOF < -1) ? -1 : -2`, with EOF -1
abbrev pub eol_char : ℕ
eol_char = 254

-- `ctrl_flags` points at the word that the parser and all scanners share: an operation takes it
-- in this field and leaves it there.
pub record Scanner : Type 0 where
  pub line_no : ℤ
  pub eol_symbol : ℕ
  pub line_len : ℕ
  pub buf_len : ℕ
  pub filename : Option String
  pub ctrl_flags : ℕ
  pub buffer : List ℕ
  pub readhead : ℕ
  pub str_begin : ℕ
  pub last_newline : Option ℕ
  pub curtoken : Token

-- `s->readhead[0]`
abbrev pub current : Scanner → ℕ
current s = get_or s.buffer s.readhead 0

pub get_buffer_end : Option Scanner → Option ℕ
get_buffer_end none = none
get_buffer_end (some s) = some s.line_len

pub get_buffer_length : Option Scanner → ℕ
get_buffer_length none = 0
get_buffer_length (some s) = s.buf_len

pub get_buffer_start : Option Scanner → Option ℕ
get_buffer_start none = none
get_buffer_start (some s) = some 0

pub get_filename : Option Scanner → Option String
get_filename none = none
get_filename (some s) = s.filename

pub get_line_no : Option Scanner → ℤ
get_line_no none = pos 0
get_line_no (some s) = s.line_no

-- `(s->readhead - s->last_newline) == 1`, which a null `last_newline` never satisfies
unfoldable pub after_newline : ℕ → Option ℕ → Bool
after_newline readhead none = false
after_newline readhead (some n) = readhead == n + 1

unfoldable pub update_flags : Scanner → Scanner
unfolding after_newline
update_flags s =
    let bol =
      if s.readhead == 0 || after_newline s.readhead s.last_newline
      then set_flag at_bol_flag s.ctrl_flags
      else clear_flag at_bol_flag s.ctrl_flags in
    record s {
      ctrl_flags =
          if current s == s.eol_symbol || current s == newline_char
          then set_flag at_eol_flag bol
          else clear_flag at_eol_flag bol;
    }

-- The end of the line: its newline becomes the end-of-line symbol, or the symbol and a null are
-- put behind it, in a buffer that is one byte longer if it was only large enough for the line.
unfoldable pub end_line : Scanner → Scanner
end_line s =
    if get_or s.buffer (s.line_len - 1) 0 == newline_char
    then record s { buffer = set s.buffer (s.line_len - 1) s.eol_symbol }
    else (let grown = ltb s.buf_len (s.line_len + 2) in
        let room = if grown then s.buffer ++ 0 ∷ [] else s.buffer in
        record s {
          buffer = set (set room s.line_len s.eol_symbol) (s.line_len + 1) 0;
          buf_len = if grown then s.buf_len + 1 else s.buf_len;
          line_len = s.line_len + 1;
        })

unfoldable pub reset_scanner : Scanner → Option String → Scanner
unfolding update_flags end_line
reset_scanner s filename =
    let e = end_line (record s { last_newline = none }) in
    let b = record e {
      str_begin = 0;
      readhead = 0;
      ctrl_flags = set_flag escp_seq_flag e.ctrl_flags;
    } in
    record (update_flags b) { filename = filename }

unfoldable pub init_scanner : Option String → List ℕ → ℕ → ℕ → ℕ → Scanner
init_scanner filename buffer buffer_len line_len cfl =
    reset_scanner
      (record {
        line_no = pos 0;
        eol_symbol = eol_char;
        line_len = line_len;
        buf_len = buffer_len;
        filename = filename;
        ctrl_flags = cfl;
        buffer = set buffer (buffer_len - 1) 0;
        readhead = 0;
        str_begin = 0;
        last_newline = none;
        curtoken = new_token;
      })
      filename

pub get_cur_pos : Option Scanner → Option ℕ
get_cur_pos none = none
get_cur_pos (some s) = some (if ltb s.str_begin s.readhead then s.readhead - 1 else s.readhead)

pub get_scanner_readhead : Option Scanner → Option ℕ
get_scanner_readhead none = none
get_scanner_readhead (some s) = some s.readhead

-- `unput` of a scanner that is not null
unfoldable pub step_back : Scanner → Scanner
step_back s =
    if ltb s.str_begin s.readhead
    then (let back = record s { readhead = s.readhead - 1 } in
        if current back == newline_char then record back { line_no = dec s.line_no } else back)
    else s

pub unput : Option Scanner → Option Scanner
unfolding step_back
unput none = none
unput (some s) = some (step_back s)

-- `next_char` of a scanner that is not null
unfoldable pub step : Scanner → ℕ × Scanner
unfolding update_flags
step s =
    if current s == 0
    then (0, s)
    else (current s, record (update_flags s) { readhead = s.readhead + 1 })

pub next_char : Option Scanner → ℕ × Option Scanner
unfolding step
next_char none = (eof_char, none)
next_char (some s) = ((step s).0, some (step s).1)

-- The position is an offset from the buffer, `none` for a pointer that lies before the buffer or
-- in another object.
unfoldable pub restart_from : Scanner → Option ℕ → Scanner
unfolding update_flags
restart_from s none = record s {
  readhead = s.line_len;
  ctrl_flags = set_flag at_eol_flag s.ctrl_flags;
}
restart_from s (some p) =
    if ltb p s.line_len
    then update_flags (record s { str_begin = p; readhead = p })
    else record s { readhead = s.line_len; ctrl_flags = set_flag at_eol_flag s.ctrl_flags }

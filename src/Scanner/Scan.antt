-- ===== src/Scanner/Scan.antt =====
-- `regex_scan`: the next token of a regular expression.
use regex.Base.{
  ℕ, ◌+◌, ◌-◌, ◌^◌, Bool, true, false, ◌&&◌, Option, none, some, ltb, leb, ◌==◌, if◌then◌else◌,
}
use regex.Flags.{escp_seq_flag, has_flag}
use regex.Token.{
  SymbolType, update_token, alpha, asciidigit, backreference, circumflex, closebrace, closebracket,
  closeparen, colon, dot, dollar, hyphen, kleene, openbrace, openbracket, openparen, pipe, plus,
  qmark, eof,
}
use regex.Scanner.{Scanner, step, step_back, eof_char, newline_char}

-- The `unsigned int` that a `char` becomes: it is signed.
unfoldable pub to_unsigned : ℕ → ℕ
to_unsigned c = if ltb c 128 then c else c + 2 ^ 32 - 256

-- `isdigit`
abbrev pub is_digit : ℕ → Bool
is_digit c = leb b'0' c && leb c b'9'

abbrev pub with_token : Scanner → ℕ → SymbolType → Scanner
with_token s value type = record s { curtoken = update_token s.curtoken value type }

-- What one round of the loop leaves: the last character read, `seen_newline`, the scanner.
pub record Round : Type 0 where
  pub last : ℕ
  pub seen_newline : Bool
  pub scanner : Scanner

abbrev pub round : ℕ → Scanner → Round
round c s = record { last = c; seen_newline = false; scanner = s }

-- `case '\\'`
unfoldable pub scan_escape : ℕ → Scanner → Round
scan_escape c s =
    if has_flag escp_seq_flag s.ctrl_flags
    then (let (c', s') = step s in
        if c' == s'.eol_symbol
        then round c' (step_back s')
        else if is_digit c'
        then round c' (with_token s' (c' - b'0') backreference)
        else round c' (with_token s' (to_unsigned c') alpha))
    else round c (with_token s (to_unsigned c) alpha)

-- The cases of the `switch` whose token is their character.
unfoldable pub operator : ℕ → Option SymbolType
operator c =
    if c == b'$'
    then some dollar
    else if c == b'^'
    then some circumflex
    else if c == b'.'
    then some dot
    else if c == b'*'
    then some kleene
    else if c == b'+'
    then some plus
    else if c == b':'
    then some colon
    else if c == b'|'
    then some pipe
    else if c == b'?'
    then some qmark
    else if c == b'('
    then some openparen
    else if c == b')'
    then some closeparen
    else if c == b'-'
    then some hyphen
    else if c == b'['
    then some openbracket
    else if c == b']'
    then some closebracket
    else if c == b'{'
    then some openbrace
    else if c == b'}'
    then some closebrace
    else none

-- The `switch`. Every case leaves the loop.
unfoldable pub scan_char : ℕ → Scanner → Round
unfolding scan_escape to_unsigned
scan_char c s =
    if is_digit c
    then round c (with_token s (to_unsigned c) asciidigit)
    else if c == newline_char
    then record { last = c; seen_newline = true; scanner = with_token s 0 eof }
    else if c == eof_char
    then round c (with_token s 0 eof)
    else elim (operator c) [
      | some type ↦ round c (with_token s (to_unsigned c) type)
      | none ↦ if c == b'\\' then scan_escape c s else round c (with_token s (to_unsigned c) alpha)
    ]

-- `if(c == s->eol_symbol)` behind the loop
unfoldable pub end_token : Round → Bool × Scanner
end_token r = (
  r.seen_newline,
  if r.last == r.scanner.eol_symbol then with_token r.scanner 0 eof else r.scanner,
)

-- The `while` loop: at a null it is left before the `switch`.
unfoldable pub scan_loop : Scanner → Round
unfolding scan_char
scan_loop s = let (c, s') = step s in if c == 0 then round c s' else scan_char c s'

-- `seen` is the static `seen_newline`, which outlives the call and the scanner.
unfoldable pub regex_scan : Bool → Scanner → Bool × Scanner
unfolding scan_loop end_token
regex_scan true s = (true, with_token s 0 eof)
regex_scan false s = end_token (scan_loop s)

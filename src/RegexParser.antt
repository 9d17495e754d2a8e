-- ===== src/RegexParser.antt =====
-- The parser, src/regex_parser.c: the reading of tokens, one at a time, and of the numbers in interval
-- expressions; the child modules have the grammar.
pub mod Digits
pub mod Ready
pub mod State
pub mod Groups
pub mod Literals
pub mod Alternation
pub mod Grammar
pub mod Prescan
pub mod Start
pub mod Bracket
pub mod Interval
pub mod Tests
use regex.Base.{ℕ, zero, suc, ◌+◌, ◌-◌, ◌*◌, Bool, true, false, ◌||◌, Option, none, some, ◌==◌}
use regex.Base.Int.{ℤ, times, plus}
use regex.Scanner.{Scanner, unput, step_back}
use regex.Scanner.Scan.{regex_scan}
use regex.Token.{
  Token, SymbolType, alpha, asciidigit, backreference, circumflex, closebrace, closebracket,
  closeparen, colon, dot, dollar, equal, hyphen, kleene, newline, openbrace, openbracket, openparen,
  pipe, qmark, word_boundary, not_word_boundary, at_word_begin, at_word_end, word_constituent,
  not_word_constituent, whitespace, not_whitespace, eof,
}

-- The fields of a `Parser` that the scanning uses; `seen_newline` is the static variable of
-- `regex_scan`.
pub record Parser : Type 0 where
  pub scanner : Scanner
  pub seen_newline : Bool
  pub lookahead : Token

unfoldable pub parser_consume_token : Parser → Parser
parser_consume_token p =
    let (seen, s) = regex_scan p.seen_newline p.scanner in
    record { scanner = s; seen_newline = seen; lookahead = s.curtoken }

unfoldable pub parser_backtrack : Parser → Parser
unfolding parser_consume_token
parser_backtrack p = parser_consume_token (record p { scanner = step_back (step_back p.scanner) })

-- `DISCARD_WHITESPACE`; the number bounds the rounds, here and below.
unfoldable pub discard_whitespace : ℕ → Parser → Option Parser
discard_whitespace zero p = none
discard_whitespace (suc k) p = elim (p.lookahead.value == b' ' || p.lookahead.value == 9) [
  | true ↦ discard_whitespace k (parser_consume_token p)
  | false ↦ some p
]

abbrev pub is_asciidigit : SymbolType → Bool
is_asciidigit asciidigit = true
is_asciidigit _ = false

-- The loop of `CONVERT_TO_UINT`.
unfoldable pub convert_loop : ℕ → ℕ → ℤ → Parser → Option (ℤ × Parser)
convert_loop zero dec_pos interval p = none
convert_loop (suc k) dec_pos interval p = elim (is_asciidigit p.lookahead.type) [
  | true ↦
      convert_loop k (dec_pos * 10 + 1)
        (plus (times interval (dec_pos * 10)) (p.lookahead.value - b'0')) (parser_consume_token p)
  | false ↦ some (interval, p)
]

unfoldable pub convert_to_uint : ℕ → ℤ → Parser → Option (ℤ × Parser)
unfolding convert_loop
convert_to_uint fuel interval p = convert_loop fuel 0 interval p

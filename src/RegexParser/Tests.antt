-- ===== src/RegexParser/Tests.antt =====
-- Numbers of two and of three digits in front of a closing brace.
use regex.Base.{ℕ, ◌+◌, ◌*◌, ◌≡◌, ◌↔◌, refl, some, none, false, List, ◌∷◌, [], arith}
use regex.Base.Int.{pos, negsuc}
use regex.Scanner.{Scanner, eol_char, update_flags, after_newline, step, step_back}
use regex.Scanner.Scan.{regex_scan, scan_loop, scan_char, end_token, operator, to_unsigned}
use regex.Token.{asciidigit, new_token, update_token}
use regex.RegexParser.{Parser, parser_consume_token, convert_to_uint}
use regex.RegexParser.Digits.{
  Digits, digit, last, decimal, convert_to_uint-decimal, convert_to_uint-three,
}

abbrev text_scanner : List ℕ → ℕ → Scanner
text_scanner text len = record {
  line_no = pos 1;
  eol_symbol = eol_char;
  line_len = len;
  buf_len = len + 1;
  filename = none;
  ctrl_flags = 0;
  buffer = text;
  readhead = 1;
  str_begin = 0;
  last_newline = none;
  curtoken = new_token;
}

-- The first digit has been read.
abbrev at_digit : List ℕ → ℕ → ℕ → Parser
at_digit text len c = record {
  scanner = text_scanner text len;
  seen_newline = false;
  lookahead = record { value = c; type = asciidigit; length = 0 };
}

abbrev two : Parser
two = at_digit (b'1' ∷ b'2' ∷ b'}' ∷ 254 ∷ 0 ∷ []) 4 b'1'

abbrev three : Parser
three = at_digit (b'1' ∷ b'0' ∷ b'0' ∷ b'}' ∷ 254 ∷ 0 ∷ []) 5 b'1'

abbrev consumed : Parser → Parser
consumed p = parser_consume_token p

two-Digits : Digits two (1 ∷ 2 ∷ []) (consumed (consumed two))
unfolding parser_consume_token regex_scan scan_loop scan_char end_token operator to_unsigned step
    step_back update_flags after_newline update_token
two-Digits = digit refl refl (digit refl refl (last refl))

three-Digits : Digits three (1 ∷ 0 ∷ 0 ∷ []) (consumed (consumed (consumed three)))
unfolding parser_consume_token regex_scan scan_loop scan_char end_token operator to_unsigned step
    step_back update_flags after_newline update_token
three-Digits = digit refl refl (digit refl refl (digit refl refl (last refl)))

convert_to_uint-decimal_example :
    convert_to_uint 3 (negsuc 0) two ≡ some (pos (decimal 0 (1 ∷ 2 ∷ [])), consumed (consumed two))
convert_to_uint-decimal_example =
    convert_to_uint-decimal 3 1 (2 ∷ []) two-Digits (omega arith) (omega arith)

convert_to_uint-three_example :
    (convert_to_uint 4 (negsuc 0) three
      ≡ some (pos ((1 * 10 + 0) * 110 + 0), consumed (consumed (consumed three))))
    × (((1 * 10 + 0) * 110 + 0 ≡ decimal 0 (1 ∷ 0 ∷ 0 ∷ []))
        ↔ ((◌≡◌ {A = ℕ} 1 0) × (◌≡◌ {A = ℕ} 0 0)))
convert_to_uint-three_example = convert_to_uint-three 0 1 0 0 three-Digits

-- ===== src/Scanner/Tokens.antt =====
-- Which token a scan yields, against a table of the special characters.
use regex.Base.{
  ℕ, ◌+◌, ◌-◌, ◌≤◌, ◌≡◌, ◌≢◌, refl, Bool, true, false, ◌&&◌, ◌||◌, Option, none, some, List, [],
  ◌∷◌, arith, ◌==◌, if◌then◌else◌, Bool-cases, inl, inr, get_or,
}
use regex.Flags.{has_flag, escp_seq_flag}
use regex.Token.{
  SymbolType, update_token, alpha, asciidigit, backreference, circumflex, closebrace, closebracket,
  closeparen, colon, dot, dollar, hyphen, kleene, openbrace, openbracket, openparen, pipe, plus,
  qmark, eof, equal,
}
use regex.Scanner.{Scanner, step, step_back, current, eol_char, eof_char, newline_char}
use regex.Scanner.Position.{update_flags_lem, step_back-step}
use regex.Scanner.Scan.{
  regex_scan, scan_loop, scan_char, scan_escape, end_token, operator, to_unsigned, is_digit,
}

abbrev pub operators : List (ℕ × SymbolType)
operators =
    (b'$', dollar)
    ∷ (b'(', openparen)
    ∷ (b')', closeparen)
    ∷ (b'*', kleene)
    ∷ (b'+', plus)
    ∷ (b'-', hyphen)
    ∷ (b'.', dot)
    ∷ (b':', colon)
    ∷ (b'?', qmark)
    ∷ (b'[', openbracket)
    ∷ (b']', closebracket)
    ∷ (b'^', circumflex)
    ∷ (b'{', openbrace)
    ∷ (b'|', pipe)
    ∷ (b'}', closebrace)
    ∷ []

abbrev pub lookup_char : List (ℕ × SymbolType) → ℕ → Option SymbolType
lookup_char [] c = none
lookup_char ((d, t) ∷ m) c = if d == c then some t else lookup_char m c

operator-lookup : (c : ℕ) → operator c ≡ lookup_char operators c
unfolding operator
operator-lookup c = ground arith

-- What a scan yields: the token's type and value, and how many characters it takes.
pub record Lexeme : Type 0 where
  pub type : SymbolType
  pub value : ℕ
  pub taken : ℕ

abbrev pub lexeme : SymbolType → ℕ → ℕ → Lexeme
lexeme t v n = record { type = t; value = v; taken = n }

-- `\` and the character behind it. A backslash at the end of the line ends the expression.
abbrev pub escaped : ℕ → Lexeme
escaped c =
    if c == eol_char
    then lexeme eof 0 1
    else if is_digit c
    then lexeme backreference (c - b'0') 2
    else lexeme alpha (to_unsigned c) (if c == 0 then 1 else 2)

abbrev pub plain : ℕ → Option SymbolType → Lexeme
plain c (some type) = lexeme type (to_unsigned c) 1
plain c none = lexeme alpha (to_unsigned c) 1

-- The lexeme at the characters `c` and `next`, with escapes on or off.
abbrev pub lexeme_at : Bool → ℕ → ℕ → Lexeme
lexeme_at escapes c next =
    if c == eol_char || c == newline_char || c == eof_char
    then lexeme eof 0 1
    else if is_digit c
    then lexeme asciidigit (to_unsigned c) 1
    else if escapes && c == b'\\'
    then escaped next
    else plain c (lookup_char operators c)

-- The scanner `t` is `s` after the lexeme `l`.
pub record Yields (s : Scanner) (l : Lexeme) (t : Scanner) : Type 0 where
  pub type : t.curtoken.type ≡ l.type
  pub value : t.curtoken.value ≡ l.value
  pub readhead : t.readhead ≡ s.readhead + l.taken

-- The scanner behind one character.
record Stepped (s : Scanner) (t : Scanner) : Type 0 where
  same_buffer : t.buffer ≡ s.buffer
  same_symbol : t.eol_symbol ≡ s.eol_symbol
  same_begin : t.str_begin ≡ s.str_begin
  same_escapes : has_flag escp_seq_flag t.ctrl_flags ≡ has_flag escp_seq_flag s.ctrl_flags
  moved : t.readhead ≡ s.readhead + 1

step-Stepped : (s : Scanner) → current s ≢ 0 → ((step s).0 ≡ current s) × Stepped s (step s).1
unfolding step
step-Stepped s h = ground (arith, update_flags_lem s 5 (omega arith))

step_back-symbol : (s : Scanner) → (step_back s).eol_symbol ≡ s.eol_symbol
unfolding step_back
step_back-symbol s = ground arith

step_null : (s : Scanner) → current s ≡ 0 → step s ≡ (0, s)
unfolding step
step_null s h = rw h

next_current : (s t : Scanner) → Stepped s t → current t ≡ get_or s.buffer (s.readhead + 1) 0
next_current s t v = rw (v.same_buffer, v.moved)

module _ (s t : Scanner) (v : Stepped s t) (e : s.eol_symbol ≡ eol_char)
    (f : has_flag escp_seq_flag s.ctrl_flags ≡ true) where
  escape_null : current t ≡ 0 → Yields s (escaped 0) (end_token (scan_escape b'\\' t)).1
  unfolding scan_escape end_token update_token
  escape_null z = ground (arith, step_null t z)

  escape_end :
      current t ≡ eol_char
      → s.str_begin ≤ s.readhead
      → Yields s (escaped eol_char) (end_token (scan_escape b'\\' t)).1
  unfolding scan_escape end_token update_token
  escape_end z b = ground (arith, step-Stepped t, step_back-step t, step_back-symbol (step t).1)

  escape_other :
      current t ≢ 0
      → current t ≢ eol_char
      → Yields s (escaped (current t)) (end_token (scan_escape b'\\' t)).1
  unfolding scan_escape end_token update_token
  escape_other z n = ground (arith, step-Stepped t)

  escape-Yields :
      s.str_begin ≤ s.readhead
      → Yields s (escaped (get_or s.buffer (s.readhead + 1) 0)) (end_token (scan_escape b'\\' t)).1
  escape-Yields b = rw (← next_current s t v) (elim (Bool-cases (current t == 0)) [
    | inl z ↦ let z' : current t ≡ 0 = ground arith in rw z' (escape_null z')
    | inr z ↦ elim (Bool-cases (current t == eol_char)) [
      | inl n ↦ let n' : current t ≡ eol_char = ground arith in rw n' (escape_end n' b)
      | inr n ↦ escape_other (ground arith) (ground arith)
    ]
  ])

-- With the escapes off a backslash is a plain character.
module _ (s t : Scanner) (v : Stepped s t) (e : s.eol_symbol ≡ eol_char) where
  escape_off :
      has_flag escp_seq_flag s.ctrl_flags ≡ false
      → Yields s (lexeme alpha b'\\' 1) (end_token (scan_escape b'\\' t)).1
  unfolding scan_escape end_token update_token to_unsigned
  escape_off f = ground arith

  char-Yields :
      (c next : ℕ)
      → (c == b'\\') ≡ false
      → Yields s
          (lexeme_at (has_flag escp_seq_flag s.ctrl_flags) c next)
          (end_token (scan_char c t)).1
  unfolding scan_char end_token update_token
  char-Yields c next n = ground (arith, operator-lookup c)

scan_loop-char : (s : Scanner) → current s ≢ 0 → scan_loop s ≡ scan_char (current s) (step s).1
unfolding scan_loop
scan_loop-char s h = ground (arith, step-Stepped s h)

scan_char-backslash : (t : Scanner) → scan_char b'\\' t ≡ scan_escape b'\\' t
unfolding scan_char operator
scan_char-backslash t = refl

backslash-Yields :
    (s t : Scanner)
    → Stepped s t
    → s.eol_symbol ≡ eol_char
    → s.str_begin ≤ s.readhead
    → Yields s
        (lexeme_at (has_flag escp_seq_flag s.ctrl_flags) b'\\' (get_or s.buffer (s.readhead + 1) 0))
        (end_token (scan_char b'\\' t)).1
unfolding to_unsigned
backslash-Yields s t v e b =
    rw (scan_char-backslash t) (elim (Bool-cases (has_flag escp_seq_flag s.ctrl_flags)) [
      | inl on ↦ rw on (escape-Yields s t v e on b)
      | inr off ↦ rw off (escape_off s t v e off)
    ])

scan_char-Yields :
    (s t : Scanner)
    → Stepped s t
    → s.eol_symbol ≡ eol_char
    → s.str_begin ≤ s.readhead
    → (c : ℕ)
    → Yields s
        (lexeme_at (has_flag escp_seq_flag s.ctrl_flags) c (get_or s.buffer (s.readhead + 1) 0))
        (end_token (scan_char c t)).1
scan_char-Yields s t v e b c = elim (Bool-cases (c == b'\\')) [
  | inl is ↦ let is' : c ≡ b'\\' = ground arith in rw is' (backslash-Yields s t v e b)
  | inr other ↦ char-Yields s t v e c (get_or s.buffer (s.readhead + 1) 0) other
]

pub regex_scan-Yields :
    (s : Scanner)
    → current s ≢ 0
    → s.eol_symbol ≡ eol_char
    → s.str_begin ≤ s.readhead
    → Yields s
        (lexeme_at
          (has_flag escp_seq_flag s.ctrl_flags)
          (current s)
          (get_or s.buffer (s.readhead + 1) 0))
        (regex_scan false s).1
unfolding regex_scan
regex_scan-Yields s h e b =
    rw (scan_loop-char s h) (scan_char-Yields s (step s).1 (step-Stepped s h).1 e b (current s))

operator-ne-equal : (c : ℕ) → operator c ≢ some equal
unfolding operator
operator-ne-equal c = ground arith

step-curtoken : (s : Scanner) → (step s).1.curtoken ≡ s.curtoken
unfolding step
step-curtoken s = ground arith

step_back-curtoken : (s : Scanner) → (step_back s).curtoken ≡ s.curtoken
unfolding step_back
step_back-curtoken s = ground arith

escape-ne-equal :
    (c : ℕ) (s : Scanner)
    → s.curtoken.type ≢ equal
    → (scan_escape c s).scanner.curtoken.type ≢ equal
unfolding scan_escape update_token
escape-ne-equal c s h = ground (arith, step-curtoken s, step_back-curtoken (step s).1)

char-ne-equal :
    (c : ℕ) (s : Scanner) → s.curtoken.type ≢ equal → (scan_char c s).scanner.curtoken.type ≢ equal
unfolding scan_char update_token
char-ne-equal c s h = ground (arith, operator-ne-equal c, escape-ne-equal c s h)

loop-ne-equal :
    (s : Scanner) → s.curtoken.type ≢ equal → (scan_loop s).scanner.curtoken.type ≢ equal
unfolding scan_loop
loop-ne-equal s h = ground (arith, step-curtoken s, char-ne-equal (step s).0 (step s).1)

-- A scan of a scanner whose token is not of the type `equal` does not yield that type: there is no
-- case for `=`, though the parser tests for the type behind `[` to read an equivalence class.
pub regex_scan-ne-equal :
    (seen : Bool) (s : Scanner)
    → s.curtoken.type ≢ equal
    → (regex_scan seen s).1.curtoken.type ≢ equal
unfolding regex_scan update_token
regex_scan-ne-equal true s h = ground arith
regex_scan-ne-equal false s h = ground (arith, loop-ne-equal s h)

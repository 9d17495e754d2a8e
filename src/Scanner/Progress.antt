-- ===== src/Scanner/Progress.antt =====
-- Scanning a line comes to its end: the parser, which asks for tokens until the end-of-file token,
-- gets one.
use regex.Base.{
  ℕ, zero, suc, ◌+◌, ◌-◌, ◌≤◌, ◌<◌, ◌≡◌, ◌≢◌, refl, Bool, true, false, arith, get_or, ◌==◌, ap,
  List, Option, none, some, Bool-cases, inl, inr, sym, ◌∙◌,
}
use regex.Flags.{has_flag, escp_seq_flag}
use regex.Token.{SymbolType, eof, update_token, alpha}
use regex.Scanner.{Scanner, step, step_back, current, eol_char}
use regex.Scanner.Scan.{regex_scan, scan_loop, scan_char, scan_escape}
use regex.Scanner.Bounds.{IsReady, regex_scan-IsReady}
use regex.Scanner.Tokens.{lexeme_at, regex_scan-Yields, operators, lookup_char, plain}

-- The parts of a scanner that a scan leaves alone.
record SameLine (s t : Scanner) : Type 0 where
  buffer : t.buffer ≡ s.buffer
  line_len : t.line_len ≡ s.line_len
  begin : t.str_begin ≡ s.str_begin

step-SameLine : (s : Scanner) → SameLine s (step s).1
unfolding step
step-SameLine s = ground arith

step_back-SameLine : (s : Scanner) → SameLine s (step_back s)
unfolding step_back
step_back-SameLine s = ground arith

escape-SameLine : (c : ℕ) (s : Scanner) → SameLine s (scan_escape c s).scanner
unfolding scan_escape
escape-SameLine c s = ground (arith, step-SameLine s, step_back-SameLine (step s).1)

char-SameLine : (c : ℕ) (s : Scanner) → SameLine s (scan_char c s).scanner
unfolding scan_char
char-SameLine c s = ground (arith, escape-SameLine c s)

loop-SameLine : (s : Scanner) → SameLine s (scan_loop s).scanner
unfolding scan_loop
loop-SameLine s = ground (arith, step-SameLine s, char-SameLine (step s).0 (step s).1)

scan-SameLine : (s : Scanner) → SameLine s (regex_scan false s).1
unfolding regex_scan
scan-SameLine s = ground (arith, loop-SameLine s)

-- Asking for tokens from here on reaches the end-of-file token.
pub data ReachesEof : Bool → Scanner → Type 0 where
  now : {seen : Bool} {s : Scanner} → (regex_scan seen s).1.curtoken.type ≡ eof → ReachesEof seen s
  later :
      {seen : Bool} {s : Scanner}
      → ReachesEof (regex_scan seen s).0 (regex_scan seen s).1
      → ReachesEof seen s

-- A scanner before the end of a line with no null in it.
pub record IsInside (s : Scanner) : Type 0 where
  pub ready : IsReady s
  pub inside : s.readhead < s.line_len
  pub begun : s.str_begin ≤ s.readhead
  pub no_null : (i : ℕ) → i < s.line_len → get_or s.buffer i 0 ≢ 0

is_eof : (t : SymbolType) → Bool
is_eof eof = true
is_eof _ = false

is_eof→eof : (t : SymbolType) → is_eof t ≡ true → t ≡ eof
unfolding is_eof
is_eof→eof eof h = refl
is_eof→eof alpha h = cc
is_eof→eof _ h = cc

-- A token that is no end of file leaves its characters before the end of the line.
plain_taken : (c : ℕ) (o : Option SymbolType) → (plain c o).taken ≡ 1
plain_taken c none = refl
plain_taken c (some t) = refl

lexeme_inside :
    (escapes : Bool) (c next : ℕ)
    → is_eof (lexeme_at escapes c next).type ≡ false
    → (c ≢ eol_char)
      × (0 < (lexeme_at escapes c next).taken)
      × ((lexeme_at escapes c next).taken ≤ 2)
      × ((next ≡ eol_char) → (lexeme_at escapes c next).taken ≤ 1)
unfolding is_eof
lexeme_inside escapes c next h = ground (arith, plain_taken c (lookup_char operators c))

equal_of_test : {a c : ℕ} → (a == c) ≡ true → a ≡ c
equal_of_test h = ground arith

stays_before :
    (b : List ℕ) (r len n : ℕ)
    → r < len
    → get_or b (len - 1) 0 ≡ eol_char
    → get_or b r 0 ≢ eol_char
    → n ≤ 2
    → (get_or b (r + 1) 0 ≡ eol_char → n ≤ 1)
    → r + n < len
stays_before b r len n lt last here two next = elim (Bool-cases (r == len - 1)) [
  | inl at_end ↦ absurd (here (rw (equal_of_test at_end) last))
  | inr before ↦ elim (Bool-cases (r + 1 == len - 1)) [
    | inl at_last ↦ let one : n ≤ 1 = next (rw (equal_of_test at_last) last) in ground arith
    | inr further ↦ ground arith
  ]
]

-- One token on, the scanner is still inside, and nearer to the end.
scan-IsInside :
    (s : Scanner)
    → IsInside s
    → is_eof (regex_scan false s).1.curtoken.type ≡ false
    → IsInside (regex_scan false s).1
      × (s.readhead < (regex_scan false s).1.readhead)
      × ((regex_scan false s).1.line_len ≡ s.line_len)
scan-IsInside s v h =
    let y = regex_scan-Yields s (v.no_null s.readhead v.inside) v.ready.symbol v.begun in
    let facts =
      lexeme_inside (has_flag escp_seq_flag s.ctrl_flags) (current s)
        (get_or s.buffer (s.readhead + 1) 0) (ap is_eof (sym y.type) ∙ h) in
    let same = scan-SameLine s in
    let before =
      stays_before s.buffer s.readhead s.line_len _ v.inside v.ready.last facts.0 facts.2 facts.3 in
    (
      record {
        ready = regex_scan-IsReady false s v.ready;
        inside = omega (arith, y.readhead, same.line_len, before);
        begun = omega (arith, y.readhead, same.begin, v.begun);
        no_null = λ i h. rw same.buffer (v.no_null i (omega (arith, same.line_len)));
      },
      omega (arith, y.readhead, facts.1),
      same.line_len,
    )

-- Once a newline has been seen, every scan yields the end-of-file token.
with_seen : {s : Scanner} (seen : Bool) → ReachesEof false s → ReachesEof seen s
unfolding regex_scan update_token
with_seen false r = r
with_seen true r = now refl

reaches : (k : ℕ) (s : Scanner) → s.line_len - s.readhead ≤ k → IsInside s → ReachesEof false s
reaches zero s h v = absurd (omega (arith, v.inside))
reaches (suc k) s h v = elim (Bool-cases (is_eof (regex_scan false s).1.curtoken.type)) [
  | inl stop ↦ now (is_eof→eof _ stop)
  | inr on ↦
      let (v', nearer, same) = scan-IsInside s v on in
      later (with_seen (regex_scan false s).0 (reaches k (regex_scan false s).1 (omega arith) v'))
]

-- Inside a line, the end-of-file token comes after finitely many scans.
pub regex_scan-ReachesEof : (seen : Bool) (s : Scanner) → IsInside s → ReachesEof seen s
regex_scan-ReachesEof seen s v =
    with_seen seen (reaches (s.line_len - s.readhead) s (omega arith) v)

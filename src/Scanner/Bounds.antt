-- ===== src/Scanner/Bounds.antt =====
-- The scanner stays inside its buffer: the readhead never passes the null behind the line.
use Prim.Native.String.{String}
use regex.Base.{
  ℕ, ◌+◌, ◌-◌, ◌≤◌, ◌<◌, ◌≡◌, refl, Bool, true, false, Option, none, some, List, [], ◌∷◌, ◌++◌,
  arith, ◌==◌, get_or, set, length, length-set, length-append, get_or-set_self, get_or-set_ne,
  Bool-cases, inl, inr, ◌∙◌, ◌⊎◌,
}
use regex.Scanner.{
  Scanner, update_flags, end_line, reset_scanner, init_scanner, step, step_back, restart_from,
  eol_char,
}
use regex.Scanner.Scan.{regex_scan, scan_loop, scan_char, scan_escape, Round, end_token}

-- The line and its null lie in the buffer, the symbol ends the line, the readhead is on them.
pub record IsReady (s : Scanner) : Type 0 where
  pub on_line : s.readhead ≤ s.line_len
  pub nonempty : 0 < s.line_len
  pub room : s.line_len < length s.buffer
  pub symbol : s.eol_symbol ≡ eol_char
  pub last : get_or s.buffer (s.line_len - 1) 0 ≡ eol_char
  pub null : get_or s.buffer s.line_len 0 ≡ 0

-- What a scanner is made from: a line that is not empty, with its null, in a buffer of the length
-- stated.
pub record IsLine (buffer : List ℕ) (buf_len line_len : ℕ) : Type 0 where
  pub holds : length buffer ≡ buf_len
  pub nonempty : 0 < line_len
  pub room : line_len < buf_len
  pub null : get_or buffer line_len 0 ≡ 0

update_flags-IsReady : {s : Scanner} → IsReady s → IsReady (update_flags s)
unfolding update_flags
update_flags-IsReady v = ground arith

step-IsReady : (s : Scanner) → IsReady s → IsReady (step s).1
unfolding step
step-IsReady s v = ground arith

pub step_back-IsReady : (s : Scanner) → IsReady s → IsReady (step_back s)
unfolding step_back
step_back-IsReady s v = ground arith

scan_escape-IsReady : (c : ℕ) (s : Scanner) → IsReady s → IsReady (scan_escape c s).scanner
unfolding scan_escape
scan_escape-IsReady c s v = ground (arith, step-IsReady s v, step_back-IsReady (step s).1)

scan_char-IsReady : (c : ℕ) (s : Scanner) → IsReady s → IsReady (scan_char c s).scanner
unfolding scan_char
scan_char-IsReady c s v = ground (arith, scan_escape-IsReady c s v)

scan_loop-IsReady : (s : Scanner) → IsReady s → IsReady (scan_loop s).scanner
unfolding scan_loop
scan_loop-IsReady s v = ground (arith, step-IsReady s v, scan_char-IsReady (step s).0 (step s).1)

end_token-IsReady : (r : Round) → IsReady r.scanner → IsReady (end_token r).1
unfolding end_token
end_token-IsReady r v = ground arith

-- A scan of a ready scanner leaves it ready: the readhead ends on the line or on its null,
-- wherever it stood there, and the line with its symbol and its null lies in the buffer.
pub regex_scan-IsReady : (seen : Bool) (s : Scanner) → IsReady s → IsReady (regex_scan seen s).1
unfolding regex_scan
regex_scan-IsReady true s v = ground arith
regex_scan-IsReady false s v = end_token-IsReady (scan_loop s) (scan_loop-IsReady s v)

-- A restart of a ready scanner, at any position and also at one outside the buffer, leaves it
-- ready.
pub restart_from-IsReady : (s : Scanner) (p : Option ℕ) → IsReady s → IsReady (restart_from s p)
unfolding restart_from
restart_from-IsReady s none v = ground arith
restart_from-IsReady s (some p) v = ground arith

record IsEnded (s : Scanner) : Type 0 where
  nonempty : 0 < s.line_len
  room : s.line_len < length s.buffer
  last : get_or s.buffer (s.line_len - 1) 0 ≡ eol_char
  null : get_or s.buffer s.line_len 0 ≡ 0

-- The two writes behind a line with no newline, in a buffer with room for them.
two_writes :
    (b : List ℕ) (n c : ℕ)
    → n + 1 < length b
    → (get_or (set (set b n c) (n + 1) 0) n 0 ≡ c)
      × (get_or (set (set b n c) (n + 1) 0) (n + 1) 0 ≡ 0)
      × (length (set (set b n c) (n + 1) 0) ≡ length b)
two_writes b n c h = (
  get_or-set_ne (set b n c) (n + 1) n 0 0 (omega arith) ∙ get_or-set_self b n c 0 (omega arith),
  get_or-set_self (set b n c) (n + 1) 0 0 (omega (arith, length-set b n c)),
  length-set (set b n c) (n + 1) 0 ∙ length-set b n c,
)

-- The newline is replaced, and the null behind it stays.
one_write :
    (b : List ℕ) (n c : ℕ)
    → 0 < n
    → n < length b
    → (get_or (set b (n - 1) c) (n - 1) 0 ≡ c)
      × (get_or (set b (n - 1) c) n 0 ≡ get_or b n 0)
      × (length (set b (n - 1) c) ≡ length b)
one_write b n c p h = (
  get_or-set_self b (n - 1) c 0 (omega arith),
  get_or-set_ne b (n - 1) n c 0 (omega arith),
  length-set b (n - 1) c,
)

end_line-IsEnded :
    (s : Scanner)
    → IsLine s.buffer s.buf_len s.line_len
    → s.eol_symbol ≡ eol_char
    → IsEnded (end_line s) × ((end_line s).eol_symbol ≡ eol_char)
unfolding end_line
end_line-IsEnded s v e = ground (
  arith,
  one_write s.buffer s.line_len s.eol_symbol v.nonempty,
  two_writes s.buffer s.line_len s.eol_symbol,
  two_writes (s.buffer ++ 0 ∷ []) s.line_len s.eol_symbol,
  length-append s.buffer (0 ∷ []),
)

-- Resetting a scanner on a line makes it ready, with or without a newline at the end of the line,
-- also when the buffer has no byte to spare.
pub reset_scanner-IsReady :
    (s : Scanner) (filename : Option String)
    → IsLine s.buffer s.buf_len s.line_len
    → s.eol_symbol ≡ eol_char
    → IsReady (reset_scanner s filename)
unfolding reset_scanner
reset_scanner-IsReady s filename v e =
    ground (arith, end_line-IsEnded (record s { last_newline = none }) v e)

terminated :
    (b : List ℕ) (n k : ℕ)
    → length b ≡ k
    → n < k
    → (n + 1 ≡ k) ⊎ (get_or b n 0 ≡ 0)
    → get_or (set b (k - 1) 0) n 0 ≡ 0
terminated b n k e h (inl fits) =
    let same : k - 1 ≡ n = omega arith in rw same (get_or-set_self b n 0 0 (omega arith))
terminated b n k e h (inr null) = elim (Bool-cases (n == k - 1)) [
  | inl q ↦ let same : k - 1 ≡ n = ground arith in rw same (get_or-set_self b n 0 0 (omega arith))
  | inr q ↦ get_or-set_ne b (k - 1) n 0 0 (ground arith) ∙ null
]

-- A new scanner on a line is ready. The last byte of the buffer is overwritten by a null, so the
-- line needs a null of its own only in a longer buffer.
pub init_scanner-IsReady :
    (filename : Option String) (buffer : List ℕ) (buf_len line_len cfl : ℕ)
    → length buffer ≡ buf_len
    → 0 < line_len
    → line_len < buf_len
    → (line_len + 1 ≡ buf_len) ⊎ (get_or buffer line_len 0 ≡ 0)
    → IsReady (init_scanner filename buffer buf_len line_len cfl)
unfolding init_scanner
init_scanner-IsReady filename buffer buf_len line_len cfl e p h t =
    reset_scanner-IsReady _ filename
      (record {
        holds = length-set buffer (buf_len - 1) 0 ∙ e;
        nonempty = p;
        room = h;
        null = terminated buffer line_len buf_len e h t;
      })
      refl

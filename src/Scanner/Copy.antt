-- ===== src/Scanner/Copy.antt =====
-- A scanner made from a copy of a line that another scanner has ended, src/scanner.c `init_scanner`
-- as src/regex_parser.c `prescan_input` calls it.
use regex.Base.{
  ℕ, ◌+◌, ◌-◌, ◌<◌, ◌≡◌, refl, ap, List, [], ◌∷◌, ◌++◌, arith, ◌==◌, ltb, get_or, set, length,
  length-set, length-append, get_or-set_self, get_or-set_ne, get_or-append_default, ◌∙◌,
  if◌then◌else◌, false,
}
use regex.Scanner.{Scanner, update_flags, end_line, reset_scanner, init_scanner, eol_char}
use regex.Scanner.Bounds.{IsReady}

-- What is put behind a line that ends in the symbol already, in a copy with a null at its end.
copied_line : List ℕ → ℕ → List ℕ
copied_line b n = set (set b n eol_char) (n + 1) 0

copied-before : (b : List ℕ) (n i : ℕ) → i < n → get_or (copied_line b n) i 0 ≡ get_or b i 0
unfolding copied_line
copied-before b n i h =
    get_or-set_ne (set b n eol_char) (n + 1) i 0 0 (omega (arith, h))
    ∙ get_or-set_ne b n i eol_char 0 (omega (arith, h))

copied-at : (b : List ℕ) (n : ℕ) → n < length b → get_or (copied_line b n) n 0 ≡ eol_char
unfolding copied_line
copied-at b n h =
    get_or-set_ne (set b n eol_char) (n + 1) n 0 0 (omega arith) ∙ get_or-set_self b n eol_char 0 h

-- A scanner that reads the bytes of the line again, and the symbol once more.
pub record IsCopy (s t : Scanner) : Type 0 where
  pub begin : t.readhead ≡ 0
  pub symbol : t.eol_symbol ≡ eol_char
  pub same : (i : ℕ) → i < s.line_len → get_or t.buffer i 0 ≡ get_or s.buffer i 0
  pub twice : get_or t.buffer s.line_len 0 ≡ eol_char

abbrev pub copy : Scanner → Scanner
copy s = init_scanner s.filename s.buffer s.buf_len s.line_len s.ctrl_flags

abbrev room : List ℕ → ℕ → ℕ → List ℕ
room b buf_len n = if ltb buf_len (n + 2) then b ++ 0 ∷ [] else b

copy-buffer :
    (s : Scanner)
    → IsReady s
    → s.buf_len ≡ length s.buffer
    → (copy s).buffer
      ≡ copied_line (room (set s.buffer (s.buf_len - 1) 0) s.buf_len s.line_len) s.line_len
unfolding init_scanner reset_scanner end_line update_flags copied_line
copy-buffer s v h =
    let e : (get_or (set s.buffer (s.buf_len - 1) 0) (s.line_len - 1) 0 == 10) ≡ false = ground (
      arith,
      get_or-set_ne s.buffer (s.buf_len - 1) (s.line_len - 1) 0 0
          (omega (arith, h, v.room, v.nonempty)),
      v.last,
    ) in
    rw e refl

room-same : (b : List ℕ) (buf_len n i : ℕ) → get_or (room b buf_len n) i 0 ≡ get_or b i 0
room-same b buf_len n i = ground (arith, get_or-append_default b 0 i)

room-fits : (b : List ℕ) (buf_len n : ℕ) → n < length b → n < length (room b buf_len n)
room-fits b buf_len n h = ground (arith, length-append b (0 ∷ []))

copy-header : (s : Scanner) → ((copy s).readhead ≡ 0) × ((copy s).eol_symbol ≡ eol_char)
unfolding init_scanner reset_scanner end_line update_flags
copy-header s = ground arith

-- A copy of a ready scanner reads its line, with the symbol twice at the end.
pub copy-IsCopy : (s : Scanner) → IsReady s → s.buf_len ≡ length s.buffer → IsCopy s (copy s)
copy-IsCopy s v h =
    let ended = set s.buffer (s.buf_len - 1) 0 in
    let fits : s.line_len < length ended =
      omega (arith, length-set s.buffer (s.buf_len - 1) 0, v.room) in
    record {
      begin = (copy-header s).0;
      symbol = (copy-header s).1;
      same = λ i g.
          ap (λ b. get_or b i 0) (copy-buffer s v h)
          ∙ copied-before (room ended s.buf_len s.line_len) s.line_len i g
          ∙ room-same ended s.buf_len s.line_len i
          ∙ get_or-set_ne s.buffer (s.buf_len - 1) i 0 0 (omega (arith, h, g, v.room));
      twice =
          ap (λ b. get_or b s.line_len 0) (copy-buffer s v h)
          ∙ copied-at (room ended s.buf_len s.line_len) s.line_len
              (room-fits ended s.buf_len s.line_len fits);
    }

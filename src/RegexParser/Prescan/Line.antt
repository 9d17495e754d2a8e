-- ===== src/RegexParser/Prescan/Line.antt =====
-- `prescan_input` on the line of a ready scanner, src/regex_parser.c.
use regex.Base.{
  ℕ, zero, suc, ◌+◌, ◌-◌, ◌≤◌, ◌<◌, ◌≡◌, ◌≢◌, List, [], ◌∷◌, ◌||◌, arith, length, refl, get_or, ap,
  ◌∙◌, sym,
}
use regex.CaptureGroups.{cgrp_has_backref}
use regex.Scanner.{Scanner, step, current, eol_char}
use regex.Scanner.Bounds.{IsReady}
use regex.Scanner.Copy.{copy, copy-IsCopy}
use regex.RegexParser.Prescan.{Prescan, prescan_input, prescan_scanner}
use regex.RegexParser.Prescan.Named.{Reads, ended, char, names, opens}
use regex.RegexParser.Prescan.Rounds.{Returns, scan_text}

-- The text of so many bytes at a position.
unfoldable pub text_at : ℕ → ℕ → List ℕ → List ℕ
text_at zero p b = []
text_at (suc n) p b = get_or b p 0 ∷ text_at n (p + 1) b

length-text_at : (n p : ℕ) (b : List ℕ) → length (text_at n p b) ≡ n
unfolding text_at
length-text_at zero p b = refl
length-text_at (suc n) p b = ap suc (length-text_at n (p + 1) b)

-- The bytes from a position on are neither the symbol nor null, up to two symbols.
record IsText (n p : ℕ) (b : List ℕ) (t : Scanner) : Type 0 where
  at : t.readhead ≡ p
  same : (i : ℕ) → i < n → get_or t.buffer (p + i) 0 ≡ get_or b (p + i) 0
  plain : (i : ℕ) → i < n → (get_or b (p + i) 0 ≢ 0) × (get_or b (p + i) 0 ≢ eol_char)
  first : get_or t.buffer (p + n) 0 ≡ eol_char
  second : get_or t.buffer (p + n + 1) 0 ≡ eol_char

stepped :
    (t : Scanner)
    → current t ≢ 0
    → ((step t).1.readhead ≡ t.readhead + 1) × ((step t).1.buffer ≡ t.buffer)
unfolding step
stepped t h = ground arith

-- The next byte, as a position in the buffer.
next_byte :
    (t : Scanner) (p : ℕ)
    → current t ≢ 0
    → t.readhead ≡ p
    → current (step t).1 ≡ get_or t.buffer (p + 1) 0
next_byte t p h at =
    ap (λ b. get_or b (step t).1.readhead 0) (stepped t h).1
    ∙ ap (λ i. get_or t.buffer i 0) ((stepped t h).0 ∙ ap (λ i. i + 1) at)

byte_at : (t : Scanner) (p : ℕ) → t.readhead ≡ p → current t ≡ get_or t.buffer (p + 0) 0
byte_at t p at = ap (λ i. get_or t.buffer i 0) (omega (arith, at))

shift : (b : List ℕ) (p i : ℕ) → get_or b (p + 1 + i) 0 ≡ get_or b (p + (i + 1)) 0
shift b p i = ap (λ (k : ℕ). get_or b k 0) (omega arith)

rest-IsText :
    (n p : ℕ) (b : List ℕ) (t : Scanner)
    → IsText (suc n) p b t
    → current t ≢ 0
    → IsText n (p + 1) b (step t).1
rest-IsText n p b t v h =
    let (moved, kept) = stepped t h in
    record {
      at = moved ∙ ap (λ i. i + 1) v.at;
      same = λ i g.
          ap (λ c. get_or c (p + 1 + i) 0) kept
          ∙ shift t.buffer p i
          ∙ v.same (i + 1) (omega (arith, g))
          ∙ sym (shift b p i);
      plain = λ i g.
          let q = v.plain (i + 1) (omega (arith, g)) in
          (λ e. q.0 (sym (shift b p i) ∙ e), λ e. q.1 (sym (shift b p i) ∙ e));
      first =
          ap (λ c. get_or c (p + 1 + n) 0) kept
          ∙ shift t.buffer p n
          ∙ ap (λ (k : ℕ). get_or t.buffer k 0) (omega arith)
          ∙ v.first;
      second =
          ap (λ c. get_or c (p + 1 + n + 1) 0) kept
          ∙ ap (λ (k : ℕ). get_or t.buffer k 0) (omega arith)
          ∙ v.second;
    }

reads : (n p : ℕ) (b : List ℕ) (t : Scanner) → IsText n p b t → Reads t (text_at n p b)
unfolding text_at
reads zero p b t v =
    let first = byte_at t p v.at ∙ v.first in
    ended first (
      next_byte t p (omega (arith, first)) v.at
      ∙ ap (λ (k : ℕ). get_or t.buffer k 0) (omega arith)
      ∙ v.second)
reads (suc n) p b t v =
    let (nz, ne) = v.plain 0 (omega arith) in
    let here = byte_at t p v.at ∙ v.same 0 (omega arith) in
    let e : get_or b (p + 0) 0 ≡ get_or b p 0 = ap (λ (k : ℕ). get_or b k 0) (omega arith) in
    char (here ∙ e) (λ z. nz (e ∙ z)) (λ z. ne (e ∙ z))
      (reads n (p + 1) b (step t).1 (rest-IsText n p b t v (λ z. nz (sym here ∙ z))))

-- The characters of a ready scanner's line, without the symbol that ends it.
abbrev pub line_text : Scanner → List ℕ
line_text s = text_at (s.line_len - 1) 0 s.buffer

line-IsText :
    (s : Scanner)
    → IsReady s
    → s.buf_len ≡ length s.buffer
    → ((i : ℕ) → i + 1 < s.line_len → (get_or s.buffer i 0 ≢ 0) × (get_or s.buffer i 0 ≢ eol_char))
    → IsText (s.line_len - 1) 0 s.buffer (copy s)
line-IsText s v h plain =
    let c = copy-IsCopy s v h in
    record {
      at = c.begin;
      same = λ i g. c.same (0 + i) (omega (arith, g));
      plain = λ i g. plain (0 + i) (omega (arith, g));
      first =
          c.same (0 + (s.line_len - 1)) (omega (arith, v.nonempty))
          ∙ ap (λ (k : ℕ). get_or s.buffer k 0) (omega arith)
          ∙ v.last;
      second = ap (λ (k : ℕ). get_or (copy s).buffer k 0) (omega (arith, v.nonempty)) ∙ c.twice;
    }

-- The first character decides whether there is a loop.
input-loop :
    (k w j : ℕ) (s : Scanner) (xs : List ℕ)
    → Reads (copy s) xs
    → (copy s).eol_symbol ≡ eol_char
    → length xs < k
    → Returns (prescan_input k s (w ∷ [])) j (names j xs || cgrp_has_backref (w ∷ []) j) (opens xs)
unfolding prescan_input prescan_scanner names opens
input-loop k w j s [] (ended h h') e f = (
  record { cgrp_map = w ∷ []; paren_count = 0; token_count = 0; ctrl_flags = (copy s).ctrl_flags },
  ground (arith, h, e),
  refl,
  refl,
)
input-loop k w j s (c ∷ cs) (char h nz ne v) e f =
    let none_yet : Prescan = record {
      cgrp_map = w ∷ [];
      paren_count = 0;
      token_count = 0;
      ctrl_flags = (copy s).ctrl_flags;
    } in
    let (p, q, g, m) = scan_text k w j (copy s) (c ∷ cs) none_yet (char h nz ne v) e refl f in
    (p, ground (arith, h, e, ne, q), g, ground (arith, m))

-- From a ready scanner whose buffer has the length stated and whose line has no null and no other
-- end-of-line symbol, `prescan_input` with at least as many rounds as the line is long returns: a
-- group has a back-reference in the new map exactly if the text names it behind a backslash, where
-- a backslash takes the character behind it along, or the old map had it, and the parentheses
-- counted are the opening ones that no backslash takes along.
pub prescan_input-names :
    (k w j : ℕ) (s : Scanner)
    → IsReady s
    → s.buf_len ≡ length s.buffer
    → ((i : ℕ) → i + 1 < s.line_len → (get_or s.buffer i 0 ≢ 0) × (get_or s.buffer i 0 ≢ eol_char))
    → s.line_len ≤ k
    → Returns
        (prescan_input k s (w ∷ []))
        j
        (names j (line_text s) || cgrp_has_backref (w ∷ []) j)
        (opens (line_text s))
prescan_input-names k w j s v h plain f =
    input-loop k w j s (line_text s)
      (reads (s.line_len - 1) 0 s.buffer (copy s) (line-IsText s v h plain))
      (copy-IsCopy s v h).symbol
      (omega (arith, length-text_at (s.line_len - 1) 0 s.buffer, f, v.nonempty))

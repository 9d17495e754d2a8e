-- ===== src/RegexParser/Prescan/Rounds.antt =====
-- The loop of the scan ahead, round by round, against the groups and parentheses of the text.
use regex.Base.{
  ℕ, zero, suc, ◌+◌, ◌<◌, ◌≡◌, ◌≢◌, Bool, Option, some, List, [], ◌∷◌, ◌==◌, ◌&&◌, ◌||◌, ltb, leb,
  arith, length, refl, Bool-cases, inl, inr, ap, ◌∙◌, sym,
}
use regex.CaptureGroups.{cgrp_has_backref}
use regex.Scanner.{Scanner, step, current, eol_char}
use regex.RegexParser.Prescan.{Prescan, count_escape, count_char, prescan_loop}
use regex.RegexParser.Prescan.Named.{
  Reads, ended, char, names, opens, escape_word, escape-word, has_backref-escape, names-char,
  opens-char, or_swap, names-escape, opens-escape,
}

char_read : (s : Scanner) → current s ≢ 0 → (step s).0 ≡ current s
unfolding step
char_read s h = ground arith

eol_kept : (s : Scanner) → (step s).1.eol_symbol ≡ s.eol_symbol
unfolding step
eol_kept s = ground arith

loop_end :
    (k c : ℕ) (s : Scanner) (r : Prescan)
    → c ≡ s.eol_symbol
    → prescan_loop (suc k) c s r ≡ some (record r { ctrl_flags = s.ctrl_flags })
unfolding prescan_loop
loop_end k c s r h = ground (arith, h)

loop_escape :
    (k c : ℕ) (s : Scanner) (r : Prescan)
    → c ≢ s.eol_symbol
    → c ≡ 92
    → prescan_loop (suc k) c s r
      ≡ prescan_loop k (step (step s).1).0 (step (step s).1).1 (count_escape (step s).0 r)
unfolding prescan_loop
loop_escape k c s r h g = ground (arith, h, g)

loop_char :
    (k c : ℕ) (s : Scanner) (r : Prescan)
    → c ≢ s.eol_symbol
    → c ≢ 92
    → prescan_loop (suc k) c s r ≡ prescan_loop k (step s).0 (step s).1 (count_char c r)
unfolding prescan_loop
loop_char k c s r h g = ground (arith, h, g)

-- The scan returns with the answer for the group and with the count of parentheses.
abbrev pub Returns : Option Prescan → ℕ → Bool → ℕ → Type 0
Returns o j named count =
    (p : Prescan) × (o ≡ some p) × (cgrp_has_backref p.cgrp_map j ≡ named) × (p.paren_count ≡ count)

-- What is left to read, behind what has been counted in `r`.
abbrev Scans : ℕ → Scanner → Prescan → ℕ → ℕ → List ℕ → Type 0
Scans k s r w j xs =
    Returns (prescan_loop k (step s).0 (step s).1 r) j (names j xs || cgrp_has_backref (w ∷ []) j)
      (opens xs + r.paren_count)

scan_end :
    (k w j : ℕ) (s : Scanner) (r : Prescan)
    → s.eol_symbol ≡ eol_char
    → r.cgrp_map ≡ w ∷ []
    → current s ≡ eol_char
    → Scans (suc k) s r w j []
unfolding names opens
scan_end k w j s r e h c = (
  record r { ctrl_flags = (step s).1.ctrl_flags },
  loop_end k (step s).0 (step s).1 r
      (char_read s (omega (arith, c)) ∙ c ∙ sym e ∙ sym (eol_kept s)),
  ap (λ m. cgrp_has_backref m j) h,
  omega arith,
)

-- One character that no backslash is.
scan_char :
    (k w j c : ℕ) (cs : List ℕ) (s : Scanner) (r : Prescan)
    → s.eol_symbol ≡ eol_char
    → current s ≡ c
    → c ≢ 0
    → c ≢ eol_char
    → c ≢ 92
    → Scans k (step s).1 (count_char c r) w j cs
    → Scans (suc k) s r w j (c ∷ cs)
unfolding count_char
scan_char k w j c cs s r e h nz ne nb (p, q, g, m) = (
  p,
  loop_char k (step s).0 (step s).1 r
        (ground (arith, char_read s (λ z. nz (sym h ∙ z)), eol_kept s, h, e, ne))
        (ground (arith, char_read s (λ z. nz (sym h ∙ z)), h, nb))
      ∙ ap (λ x. prescan_loop k (step (step s).1).0 (step (step s).1).1 (count_char x r))
          (char_read s (λ z. nz (sym h ∙ z)) ∙ h)
      ∙ q,
  g ∙ ap (λ b. b || cgrp_has_backref (w ∷ []) j) (sym (names-char j c cs nb)),
  ground (arith, m, opens-char c cs nb),
)

scan_escape :
    (k w j c d : ℕ) (cs : List ℕ) (s : Scanner) (r : Prescan)
    → s.eol_symbol ≡ eol_char
    → current s ≡ c
    → c ≡ 92
    → current (step s).1 ≡ d
    → d ≢ 0
    → Scans k (step (step s).1).1 (count_escape d r) (escape_word w d) j cs
    → Scans (suc k) s r w j (c ∷ d ∷ cs)
unfolding count_escape
scan_escape k w j c d cs s r e h b h' nz (p, q, g, m) = (
  p,
  loop_escape k (step s).0 (step s).1 r
        (ground (arith, char_read s (omega (arith, h, b)), eol_kept s, h, e, b))
        (char_read s (omega (arith, h, b)) ∙ h ∙ b)
      ∙ ap
          (λ x.
            prescan_loop k (step (step (step s).1).1).0 (step (step (step s).1).1).1
              (count_escape x r))
          (char_read (step s).1 (λ z. nz (sym h' ∙ z)) ∙ h')
      ∙ q,
  g
      ∙ ap (λ b. names j cs || b) (has_backref-escape w d j)
      ∙ or_swap (names j cs) ((d == b'0' + j) && ltb 0 j && leb j 9) (cgrp_has_backref (w ∷ []) j)
      ∙ ap (λ b. b || cgrp_has_backref (w ∷ []) j) (sym (names-escape j c d cs b)),
  m ∙ ap (λ n. n + r.paren_count) (sym (opens-escape c d cs b)),
)

-- A backslash at the end takes the first of the two symbols along.
scan_last :
    (k w j c : ℕ) (s : Scanner) (r : Prescan)
    → s.eol_symbol ≡ eol_char
    → current s ≡ c
    → c ≡ 92
    → current (step s).1 ≡ eol_char
    → Scans k (step (step s).1).1 (count_escape eol_char r) w j []
    → Scans (suc k) s r w j (c ∷ [])
unfolding names opens count_escape
scan_last k w j c s r e h b h' (p, q, g, m) = (
  p,
  loop_escape k (step s).0 (step s).1 r
        (ground (arith, char_read s (omega (arith, h, b)), eol_kept s, h, e, b))
        (char_read s (omega (arith, h, b)) ∙ h ∙ b)
      ∙ ap
          (λ x.
            prescan_loop k (step (step (step s).1).1).0 (step (step (step s).1).1).1
              (count_escape x r))
          (char_read (step s).1 (omega (arith, h')) ∙ h')
      ∙ q,
  g,
  ground (arith, m, b),
)

eol_after_two : (s : Scanner) → s.eol_symbol ≡ eol_char → (step (step s).1).1.eol_symbol ≡ eol_char
eol_after_two s e = eol_kept (step s).1 ∙ eol_kept s ∙ e

plain-map : (c : ℕ) (r : Prescan) → (count_char c r).cgrp_map ≡ r.cgrp_map
unfolding count_char
plain-map c r = refl

-- Enough rounds are one for each character and one more.
pub scan_text :
    (k w j : ℕ) (s : Scanner) (xs : List ℕ) (r : Prescan)
    → Reads s xs
    → s.eol_symbol ≡ eol_char
    → r.cgrp_map ≡ w ∷ []
    → length xs < k
    → Scans k s r w j xs
scan_text zero w j s xs r v e h f = absurd (omega (arith, f))
scan_text (suc k) w j s [] r (ended c c') e h f = scan_end k w j s r e h c
scan_text (suc zero) w j s (c ∷ []) r v e h f = absurd (omega (arith, f))
scan_text (suc (suc k)) w j s (c ∷ []) r (char b nz ne (ended at_first at_second)) e h f =
    elim (Bool-cases (c == 92)) [
      | inr g ↦ scan_char (suc k) w j c [] s r e b nz ne (ground arith) (
          scan_text (suc k) w j (step s).1 [] (count_char c r) (ended at_first at_second)
            (eol_kept s ∙ e) (plain-map c r ∙ h) (omega (arith, f)))
      | inl g ↦ scan_last (suc k) w j c s r e b (ground arith) at_first (
          scan_end k w j (step (step s).1).1 (count_escape eol_char r) (eol_after_two s e)
            (escape-word w eol_char r h) at_second)
    ]
scan_text (suc k) w j s (c ∷ d ∷ cs) r (char b nz ne (char b' nz' ne' v)) e h f =
    elim (Bool-cases (c == 92)) [
      | inr g ↦ scan_char k w j c (d ∷ cs) s r e b nz ne (ground arith) (
          scan_text k w j (step s).1 (d ∷ cs) (count_char c r) (char b' nz' ne' v) (eol_kept s ∙ e)
            (plain-map c r ∙ h) (omega (arith, f)))
      | inl g ↦ scan_escape k w j c d cs s r e b (ground arith) b' nz' (
          scan_text k (escape_word w d) j (step (step s).1).1 cs (count_escape d r) v
            (eol_after_two s e) (escape-word w d r h) (omega (arith, f)))
    ]

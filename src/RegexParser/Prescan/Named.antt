-- ===== src/RegexParser/Prescan/Named.antt =====
-- The groups that a scan ahead marks are those that the text names behind a backslash.
use regex.Base.{
  ℕ, zero, suc, ◌+◌, ◌-◌, ◌^◌, ◌≡◌, ◌≢◌, Bool, true, false, List, [], ◌∷◌, ◌==◌, ◌&&◌, ◌||◌, ltb,
  leb, arith, refl, Bool-cases, inl, inr, bit_or, if◌then◌else◌, ap, ◌∙◌,
}
use regex.CaptureGroups.{
  mark_closure_map_backref, cgrp_has_backref, has_backref-mark, mark-word, mark_outside, cgrp_max,
}
use regex.Scanner.{Scanner, step, current, eol_char}
use regex.RegexParser.Prescan.{Prescan, is_digit, count_escape}

-- The scanner reads the text and then two end-of-line symbols.
pub data Reads : Scanner → List ℕ → Type 0 where
  ended : {s : Scanner} → current s ≡ eol_char → current (step s).1 ≡ eol_char → Reads s []
  char :
      {s : Scanner} {c : ℕ} {cs : List ℕ}
      → current s ≡ c
      → c ≢ 0
      → c ≢ eol_char
      → Reads (step s).1 cs
      → Reads s (c ∷ cs)

-- Whether the text has a backslash in front of the number of a group, where a backslash takes the
-- character behind it along.
unfoldable pub names : ℕ → List ℕ → Bool
names j [] = false
names j (c ∷ []) = false
names j (c ∷ d ∷ cs) =
    if c == 92 then ((d == b'0' + j) && ltb 0 j && leb j 9 || names j cs) else names j (d ∷ cs)

-- The opening parentheses of the text that no backslash takes along.
unfoldable pub opens : List ℕ → ℕ
opens [] = 0
opens (c ∷ []) = if c == b'(' then 1 else 0
opens (c ∷ d ∷ cs) =
    if c == 92 then opens cs else if c == b'(' then opens (d ∷ cs) + 1 else opens (d ∷ cs)

-- The word of the map after a mark.
abbrev marked : ℕ → ℕ → ℕ
marked w i = if ltb 0 i && leb i cgrp_max then bit_or w (2 ^ (i - 1)) else w

mark-marked : (w i : ℕ) → mark_closure_map_backref (w ∷ []) i ≡ marked w i ∷ []
mark-marked w zero = mark_outside (w ∷ []) 0 refl
mark-marked w (suc i) = elim (Bool-cases (leb (suc i) cgrp_max)) [
  | inl h ↦ mark-word w i (ground arith) ∙ ground arith
  | inr h ↦ mark_outside (w ∷ []) (suc i) (ground arith) ∙ ground arith
]

abbrev pub escape_word : ℕ → ℕ → ℕ
escape_word w c = if is_digit c then marked w (c - b'0') else w

pub escape-word :
    (w c : ℕ) (r : Prescan)
    → r.cgrp_map ≡ w ∷ []
    → (count_escape c r).cgrp_map ≡ escape_word w c ∷ []
unfolding count_escape
escape-word w c r h = rw h (ground (arith, mark-marked w (c - b'0')))

pub has_backref-escape :
    (w c j : ℕ)
    → cgrp_has_backref (escape_word w c ∷ []) j
      ≡ ((c == b'0' + j) && ltb 0 j && leb j 9 || cgrp_has_backref (w ∷ []) j)
has_backref-escape w c j =
    let h = has_backref-mark w (c - b'0') j in
    let g = ap (λ m. cgrp_has_backref m j) (mark-marked w (c - b'0')) in ground (arith, h, g)

pub names-char : (j c : ℕ) (cs : List ℕ) → c ≢ 92 → names j (c ∷ cs) ≡ names j cs
unfolding names
names-char j c [] h = refl
names-char j c (d ∷ cs) h = ground arith

pub opens-char :
    (c : ℕ) (cs : List ℕ) → c ≢ 92 → opens (c ∷ cs) ≡ (if c == b'(' then opens cs + 1 else opens cs)
unfolding opens
opens-char c [] h = ground arith
opens-char c (d ∷ cs) h = ground arith

pub or_swap : (n x h : Bool) → (n || (x || h)) ≡ ((x || n) || h)
or_swap true true h = refl
or_swap true false h = refl
or_swap false true h = refl
or_swap false false h = refl

pub names-escape :
    (j c d : ℕ) (cs : List ℕ)
    → c ≡ 92
    → names j (c ∷ d ∷ cs) ≡ ((d == b'0' + j) && ltb 0 j && leb j 9 || names j cs)
unfolding names
names-escape j c d cs h = rw h refl

pub opens-escape : (c d : ℕ) (cs : List ℕ) → c ≡ 92 → opens (c ∷ d ∷ cs) ≡ opens cs
unfolding opens
opens-escape c d cs h = rw h refl
